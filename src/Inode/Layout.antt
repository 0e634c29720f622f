-- ===== src/Inode/Layout.antt =====
-- The bytes of an inode.
use mathlib.Core.List.{append_assoc}
use cromfs.Base.{
  ℕ, ◌+◌, ◌*◌, ◌≤◌, ◌<◌, ◌^◌, ◌≡◌, refl, sym, ap, ap₂, ◌∙◌, Bool, true, false, length, ok, arith,
}
use cromfs.Base.{◌++◌, [], drop, replicate, length-replicate, length-append, Bool-cases, inl, inr}
use cromfs.Base.{if◌then◌else◌}
use cromfs.Base.Bytes.{Bytes, le_bytes, write, length-write, write_front}
use cromfs.Endian.Put.{put_32-write, put_16_next, put_32_next, put_64_next}
use cromfs.Endian.Get.{get_16_at, get_32_at, get_64_at}
use cromfs.Format.{
  has_opt, opt_variable_blocksizes, inode_header_size, inode_size_bytes, blocknum_size_bytes-le,
  blocknum_size_bytes,
}
use cromfs.Inode.{Inode, is_device, put_header, get_header, put_inode, encode_inode}
use cromfs.Inode.{get_inode_size}
use cromfs.Inode.Sizes.{get_inode_size_bounds}
use cromfs.Inode.Blocks.{block_bytes, length-block_bytes, put_blocks_lem}

-- What stands at 0x08: the device number of a device, the link count of any other inode.
abbrev pub rdev_links : Inode → ℕ
rdev_links inode = if is_device inode.mode then inode.rdev else inode.links

-- The block size, if the filesystem stores it.
abbrev pub blocksize_bytes : Bool → Inode → Bytes
blocksize_bytes true inode = le_bytes 4 inode.blocksize
blocksize_bytes false inode = []

abbrev pub header_bytes : Bool → Inode → Bytes → Bytes
header_bytes variable inode rest =
    le_bytes 4 inode.mode
    ++ (le_bytes 4 inode.time
        ++ (le_bytes 4 (rdev_links inode)
            ++ (le_bytes 2 inode.uid
                ++ (le_bytes 2 inode.gid
                    ++ (le_bytes 8 inode.bytesize ++ (blocksize_bytes variable inode ++ rest))))))

abbrev pub is_variable : ℕ → Bool
is_variable storage_opts = has_opt storage_opts opt_variable_blocksizes

pub length-header_bytes :
    (storage_opts : ℕ) (inode : Inode)
    → length (header_bytes (is_variable storage_opts) inode []) ≡ inode_header_size storage_opts
unfolding inode_header_size
length-header_bytes storage_opts inode = elim (Bool-cases (is_variable storage_opts)) [
  | inl e ↦ rw e
  | inr e ↦ rw e
]

pub header_bytes-append :
    (variable : Bool) (inode : Inode) (rest : Bytes)
    → header_bytes variable inode [] ++ rest ≡ header_bytes variable inode rest
header_bytes-append true inode rest = refl
header_bytes-append false inode rest = refl

pub put_header_lem :
    (buf : Bytes) (inode : Inode) (storage_opts : ℕ)
    → inode_header_size storage_opts ≤ length buf
    → put_header buf inode storage_opts
      ≡ ok (write buf 0 (header_bytes (is_variable storage_opts) inode []))
unfolding put_header inode_header_size
put_header_lem buf inode storage_opts h =
    let x1 : Bytes = le_bytes 4 inode.mode in
    let x2 : Bytes = x1 ++ le_bytes 4 inode.time in
    let x3 : Bytes = x2 ++ le_bytes 4 (rdev_links inode) in
    let x4 : Bytes = x3 ++ le_bytes 2 inode.uid in
    let x5 : Bytes = x4 ++ le_bytes 2 inode.gid in
    let x6 : Bytes = x5 ++ le_bytes 8 inode.bytesize in
    rw
      (
        put_32-write buf 0x00 inode.mode (omega arith),
        put_32_next buf x1 0x04 inode.time refl (omega arith),
        put_32_next buf x2 0x08 (rdev_links inode) refl (omega arith),
        put_16_next buf x3 0x0c inode.uid refl (omega arith),
        put_16_next buf x4 0x0e inode.gid refl (omega arith),
        put_64_next buf x5 0x10 inode.bytesize refl (omega arith),
      )
      (elim (Bool-cases (is_variable storage_opts)) [
        | inl e ↦ rw e (put_32_next buf x6 0x18 inode.blocksize refl (rw e at h))
        | inr e ↦ rw e
      ])

-- The numbers of an inode fit their fields.
pub record FitsFields (inode : Inode) : Type 0 where
  pub mode : inode.mode < 2 ^ 32
  pub time : inode.time < 2 ^ 32
  pub links : inode.links < 2 ^ 32
  pub rdev : inode.rdev < 2 ^ 32
  pub uid : inode.uid < 2 ^ 16
  pub gid : inode.gid < 2 ^ 16
  pub bytesize : inode.bytesize < 2 ^ 64
  pub blocksize : inode.blocksize < 2 ^ 32

rdev_links-lt : (inode : Inode) → FitsFields inode → rdev_links inode < 2 ^ 32
rdev_links-lt inode fits = ground arith

-- What `get_header` makes of the header of `inode`.
abbrev pub read_header : Inode → Inode → ℕ → ℕ → Inode
read_header inode old storage_opts bsize = record {
  mode = inode.mode;
  time = inode.time;
  links = if is_device inode.mode then 1 else rdev_links inode;
  rdev = if is_device inode.mode then rdev_links inode else 0;
  uid = inode.uid;
  gid = inode.gid;
  bytesize = inode.bytesize;
  blocksize = if is_variable storage_opts then inode.blocksize else bsize;
  blocklist = old.blocklist;
}

pub get_header_lem :
    (inode old : Inode) (storage_opts bsize : ℕ) (rest : Bytes)
    → FitsFields inode
    → get_header (header_bytes (is_variable storage_opts) inode rest) old storage_opts bsize
      ≡ ok (read_header inode old storage_opts bsize)
unfolding get_header
get_header_lem inode old storage_opts bsize rest fits =
    let tail : Bytes = blocksize_bytes (is_variable storage_opts) inode ++ rest in
    let after_gid : Bytes = le_bytes 8 inode.bytesize ++ tail in
    let after_uid : Bytes = le_bytes 2 inode.gid ++ after_gid in
    let after_links : Bytes = le_bytes 2 inode.uid ++ after_uid in
    let after_time : Bytes = le_bytes 4 (rdev_links inode) ++ after_links in
    let x1 : Bytes = le_bytes 4 inode.mode in
    let x2 : Bytes = x1 ++ le_bytes 4 inode.time in
    let x3 : Bytes = x2 ++ le_bytes 4 (rdev_links inode) in
    let x4 : Bytes = x3 ++ le_bytes 2 inode.uid in
    let x5 : Bytes = x4 ++ le_bytes 2 inode.gid in
    let x6 : Bytes = x5 ++ le_bytes 8 inode.bytesize in
    rw
      (
        get_32_at [] (le_bytes 4 inode.time ++ after_time) 0x00 inode.mode refl fits.mode,
        get_32_at x1 after_time 0x04 inode.time refl fits.time,
        get_32_at x2 after_links 0x08 (rdev_links inode) refl (rdev_links-lt inode fits),
        get_16_at x3 after_uid 0x0c inode.uid refl fits.uid,
        get_16_at x4 after_gid 0x0e inode.gid refl fits.gid,
        get_64_at x5 tail 0x10 inode.bytesize refl fits.bytesize,
      )
      (elim (Bool-cases (is_variable storage_opts)) [
        | inl e ↦ rw (e, get_32_at x6 rest 0x18 inode.blocksize refl fits.blocksize) refl
        | inr e ↦ rw e
      ])

-- An encoded inode: the header, the block list, and zeros up to a multiple of 4 bytes.
abbrev pub inode_bytes : ℕ → Inode → Bytes
inode_bytes storage_opts inode =
    let size = inode_size_bytes storage_opts (length inode.blocklist) in
    header_bytes (is_variable storage_opts) inode (
      block_bytes (blocknum_size_bytes storage_opts) inode.blocklist
      ++ drop size (replicate (get_inode_size inode storage_opts) 0))

module _ (inode : Inode) (storage_opts : ℕ)
    (fits : inode_size_bytes storage_opts (length inode.blocklist) + 3 < 2 ^ 32) where
  abbrev room : Bytes
  room = replicate (get_inode_size inode storage_opts) 0

  abbrev blocks : Bytes
  blocks = block_bytes (blocknum_size_bytes storage_opts) inode.blocklist

  length-room :
      (inode_header_size storage_opts + blocknum_size_bytes storage_opts * length inode.blocklist
        ≤ length room)
      × (inode_size_bytes storage_opts (length inode.blocklist) ≤ length room)
      × (length room < 2 ^ 32)
  unfolding inode_size_bytes
  length-room =
      let e : length room ≡ get_inode_size inode storage_opts =
        length-replicate (get_inode_size inode storage_opts) 0 in
      omega (arith, get_inode_size_bounds inode storage_opts (omega arith))

  length-header-blocks :
      length (header_bytes (is_variable storage_opts) inode [] ++ blocks)
      ≡ inode_size_bytes storage_opts (length inode.blocklist)
  unfolding inode_size_bytes
  length-header-blocks =
      length-append (header_bytes (is_variable storage_opts) inode []) blocks
      ∙ ap₂ ◌+◌ (length-header_bytes storage_opts inode)
          (length-block_bytes (blocknum_size_bytes storage_opts) inode.blocklist)

  inode_bytes-write :
      write room 0 (header_bytes (is_variable storage_opts) inode [] ++ blocks)
      ≡ inode_bytes storage_opts inode
  inode_bytes-write =
      let header : Bytes = header_bytes (is_variable storage_opts) inode [] in
      let size : ℕ = inode_size_bytes storage_opts (length inode.blocklist) in
      write_front room (header ++ blocks) size length-header-blocks (length-room.1)
      ∙ append_assoc header blocks (drop size room)
      ∙ header_bytes-append (is_variable storage_opts) inode (blocks ++ drop size room)

  pub length-inode_bytes :
      length (inode_bytes storage_opts inode) ≡ get_inode_size inode storage_opts
  length-inode_bytes =
      sym (ap length inode_bytes-write)
      ∙ length-write room 0 (header_bytes (is_variable storage_opts) inode [] ++ blocks)
      ∙ length-replicate (get_inode_size inode storage_opts) 0

  -- `encode_inode` returns these bytes.
  pub encode_inode_lem : encode_inode inode storage_opts ≡ ok (inode_bytes storage_opts inode)
  unfolding encode_inode put_inode
  encode_inode_lem =
      let header : Bytes = header_bytes (is_variable storage_opts) inode [] in
      let blocks_start : length header
          ≡ inode_header_size storage_opts + 0 * blocknum_size_bytes storage_opts =
        length-header_bytes storage_opts inode ∙ omega arith in
      rw
        (
          put_header_lem room inode storage_opts (omega (arith, length-room)),
          put_blocks_lem room header (inode_header_size storage_opts)
              (blocknum_size_bytes storage_opts) 0 inode.blocklist
              (omega (arith, blocknum_size_bytes-le storage_opts)) blocks_start
              (omega (arith, length-room)) (length-room.2),
        )
        (ap ok inode_bytes-write)
