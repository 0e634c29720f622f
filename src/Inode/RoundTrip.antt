-- ===== src/Inode/RoundTrip.antt =====
-- Encoding an inode and decoding it, and the decoder on a table that ends too early.
use cromfs.Base.{ℕ, ◌+◌, ◌≤◌, ◌<◌, ◌^◌, ◌≡◌, ◌⊎◌, inl, inr, refl, sym, ap, ◌∙◌, true, false}
use cromfs.Base.{
  length, length-replicate, All, ok, throw, eio, if◌then◌else◌, ltb, arith, ◌++◌, [], Bool-cases,
}
use cromfs.Base.Bytes.{Bytes}
use cromfs.Format.{inode_header_size, inode_size_bytes, blocknum_size_bytes, blocknum_size_bytes-le}
use cromfs.Inode.{Inode, is_device, calc_size_in_blocks, get_inode_size, encode_inode, get_inode}
use cromfs.Inode.{get_inode_and_blocks, resize, get_blocks, get_header}
use cromfs.Inode.Blocks.{block_bytes, get_blocks_lem}
use cromfs.Inode.Layout.{
  rdev_links, length-inode_bytes, header_bytes-append, FitsFields, is_variable, header_bytes,
  inode_bytes, encode_inode_lem,
}
use cromfs.Inode.Layout.{get_header_lem, read_header, length-header_bytes}
use cromfs.Base.{List, ◌∷◌, zero, suc, replicate, ◌&&◌, drop}
use cromfs.Base.{◌-◌, take, ap₂}
use cromfs.Base.Access.{take-behind}
use cromfs.Base.{◌>>=◌}

-- An inode as mkcromfs makes it for a filesystem with these options and this block size: a device
-- has one link and no other inode has a device number, the block size is the filesystem's unless
-- it is stored, and the block list is as long as the file size says.
pub record IsStorable (inode : Inode) (storage_opts bsize : ℕ) : Type 0 where
  pub fits : FitsFields inode
  pub links : is_device inode.mode ≡ true → inode.links ≡ 1
  pub rdev : is_device inode.mode ≡ false → inode.rdev ≡ 0
  pub blocksize : is_variable storage_opts ≡ false → inode.blocksize ≡ bsize
  pub nblocks : calc_size_in_blocks inode.bytesize inode.blocksize ≡ ok (length inode.blocklist)
  pub blocks : All (λ x. x < 256 ^ blocknum_size_bytes storage_opts) inode.blocklist
  pub size : inode_size_bytes storage_opts (length inode.blocklist) + 3 < 2 ^ 32

read_header_lem :
    (inode old : Inode) (storage_opts bsize : ℕ)
    → IsStorable inode storage_opts bsize
    → read_header inode old storage_opts bsize ≡ record inode { blocklist = old.blocklist }
read_header_lem inode old storage_opts bsize h = λ i. record inode {
  links = links i;
  rdev = rdev i;
  blocksize = blocksize i;
  blocklist = old.blocklist;
}
  where
    links : (if is_device inode.mode then 1 else rdev_links inode) ≡ inode.links
    links = elim (Bool-cases (is_device inode.mode)) [
      | inl e ↦ rw e (sym (h.links e))
      | inr e ↦ rw e
    ]

    rdev : (if is_device inode.mode then rdev_links inode else 0) ≡ inode.rdev
    rdev = elim (Bool-cases (is_device inode.mode)) [ inl e ↦ rw e | inr e ↦ rw e (sym (h.rdev e)) ]

    blocksize : (if is_variable storage_opts then inode.blocksize else bsize) ≡ inode.blocksize
    blocksize = elim (Bool-cases (is_variable storage_opts)) [
      | inl e ↦ rw e
      | inr e ↦ rw e (sym (h.blocksize e))
    ]

length-resize : (n : ℕ) (xs : List ℕ) → length (resize n xs) ≡ n
length-resize zero xs = length-replicate (0 - length xs) 0 ∙ omega arith
length-resize (suc n) [] = length-replicate (suc n - 0) 0 ∙ omega arith
length-resize (suc n) (x ∷ xs) =
    let e : suc n - length (x ∷ xs) ≡ n - length xs = omega arith in
    ap (λ t. suc (length (take n xs ++ replicate t 0))) e ∙ ap suc (length-resize n xs)

-- The size that the caller knows passes both tests of `get_inode`.
known_size :
    (size least : ℕ)
    → (size ≡ 0) ⊎ (least ≤ size)
    → (n : ℕ) → n ≤ least
    → (ltb 0 size && ltb size n) ≡ false
known_size size least known n h = ground arith

pub decode_header :
    (inode old : Inode) (storage_opts bsize : ℕ) (rest : Bytes)
    → IsStorable inode storage_opts bsize
    → get_header (header_bytes (is_variable storage_opts) inode rest) old storage_opts bsize
      ≡ ok (record inode { blocklist = old.blocklist })
decode_header inode old storage_opts bsize rest h =
    get_header_lem inode old storage_opts bsize rest h.fits
    ∙ ap ok (read_header_lem inode old storage_opts bsize h)

decode_blocks :
    (inode : Inode) (storage_opts : ℕ) (bsize : ℕ) (pad : Bytes) (acc : List ℕ)
    → IsStorable inode storage_opts bsize
    → length acc ≡ length inode.blocklist
    → get_blocks
        (header_bytes
          (is_variable storage_opts)
          inode
          (block_bytes (blocknum_size_bytes storage_opts) inode.blocklist ++ pad))
        (inode_header_size storage_opts)
        (blocknum_size_bytes storage_opts)
        (length inode.blocklist)
        acc
      ≡ ok inode.blocklist
decode_blocks inode storage_opts bsize pad acc h len =
    let b : ℕ = blocknum_size_bytes storage_opts in
    let header : Bytes = header_bytes (is_variable storage_opts) inode [] in
    ap₂ (λ s t. get_blocks s t b (length inode.blocklist) acc)
      (sym (
        header_bytes-append (is_variable storage_opts) inode
          (block_bytes b inode.blocklist ++ pad)))
      (sym (length-header_bytes storage_opts inode))
    ∙ get_blocks_lem header pad b inode.blocklist acc (blocknum_size_bytes-le storage_opts) h.blocks
        len

-- The decoder on the bytes of an inode.
get_inode-inode_bytes :
    (inode old : Inode) (storage_opts bsize inodata_size : ℕ)
    → IsStorable inode storage_opts bsize
    → (inodata_size ≡ 0) ⊎ (inode_size_bytes storage_opts (length inode.blocklist) ≤ inodata_size)
    → get_inode_and_blocks (inode_bytes storage_opts inode) inodata_size old storage_opts bsize
      ≡ ok inode
unfolding get_inode_and_blocks get_inode inode_size_bytes
get_inode-inode_bytes inode old storage_opts bsize inodata_size h known =
    let b : ℕ = blocknum_size_bytes storage_opts in
    let size : ℕ = inode_size_bytes storage_opts (length inode.blocklist) in
    let pad : Bytes = drop size (replicate (get_inode_size inode storage_opts) 0) in
    let acc : List ℕ = resize (length inode.blocklist) old.blocklist in
    rw
      (
        known_size inodata_size size known (inode_header_size storage_opts) (omega arith),
        decode_header inode old storage_opts bsize (block_bytes b inode.blocklist ++ pad) h,
        h.nblocks,
        known_size inodata_size size known size (omega arith),
        decode_blocks inode storage_opts bsize pad acc h
            (length-resize (length inode.blocklist) old.blocklist),
      )
      refl

-- For a storable inode the encoder returns data as long as the room of the inode, and the decoder
-- gives the inode back from it, whatever stood in the inode before, when it is told no size (0) or
-- at least the size of the header with the block list.
pub get_inode-encode_inode :
    (inode old : Inode) (storage_opts bsize inodata_size : ℕ)
    → IsStorable inode storage_opts bsize
    → (inodata_size ≡ 0) ⊎ (inode_size_bytes storage_opts (length inode.blocklist) ≤ inodata_size)
    → (inodata : Bytes) × (encode_inode inode storage_opts ≡ ok inodata)
      × (length inodata ≡ get_inode_size inode storage_opts)
      × (get_inode_and_blocks inodata inodata_size old storage_opts bsize ≡ ok inode)
get_inode-encode_inode inode old storage_opts bsize inodata_size h known = (
  inode_bytes storage_opts inode,
  encode_inode_lem inode storage_opts h.size,
  length-inode_bytes inode storage_opts h.size,
  get_inode-inode_bytes inode old storage_opts bsize inodata_size h known,
)

-- What is left of a header and `rest` when only `n` bytes are there, the header among them.
take-header_bytes :
    (inode : Inode) (storage_opts n : ℕ) (rest : Bytes)
    → inode_header_size storage_opts ≤ n
    → take n (header_bytes (is_variable storage_opts) inode rest)
      ≡ header_bytes
          (is_variable storage_opts)
          inode
          (take (n - inode_header_size storage_opts) rest)
take-header_bytes inode storage_opts n rest h =
    let header : Bytes = header_bytes (is_variable storage_opts) inode [] in
    let size : length header ≡ inode_header_size storage_opts =
      length-header_bytes storage_opts inode in
    ap (take n) (sym (header_bytes-append (is_variable storage_opts) inode rest))
    ∙ (take-behind header rest n (omega arith)
        ∙ (ap (λ k. header ++ take (n - k) rest) size
            ∙ header_bytes-append (is_variable storage_opts) inode
                (take (n - inode_header_size storage_opts) rest)))

-- When only the first `n` bytes of an encoded inode are there, fewer than the header with the block
-- list has but not none, and the caller says so, the decoder throws EIO, also when the header itself
-- is cut.
pub get_inode_truncated :
    (inode old : Inode) (storage_opts bsize n : ℕ)
    → IsStorable inode storage_opts bsize
    → 0 < n
    → n < inode_size_bytes storage_opts (length inode.blocklist)
    → (encode_inode inode storage_opts >>= λ inodata.
        get_inode_and_blocks (take n inodata) n old storage_opts bsize)
      ≡ throw eio
unfolding get_inode_and_blocks get_inode inode_size_bytes
get_inode_truncated inode old storage_opts bsize n h some_bytes small =
    let b : ℕ = blocknum_size_bytes storage_opts in
    let size : ℕ = inode_size_bytes storage_opts (length inode.blocklist) in
    let pad : Bytes = drop size (replicate (get_inode_size inode storage_opts) 0) in
    let rest : Bytes = block_bytes b inode.blocklist ++ pad in
    let second : (ltb 0 n && ltb n size) ≡ true = ground arith in
    rw (encode_inode_lem inode storage_opts h.size)
      (elim (Bool-cases (ltb 0 n && ltb n (inode_header_size storage_opts))) [
        | inl first ↦ rw first
        | inr passed ↦
            let whole : inode_header_size storage_opts ≤ n = ground arith in
            rw
              (
                passed,
                take-header_bytes inode storage_opts n rest whole,
                decode_header inode old storage_opts bsize
                    (take (n - inode_header_size storage_opts) rest) h,
                h.nblocks,
                second,
              )
              refl
      ])
