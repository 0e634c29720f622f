-- ===== src/Inode/Links.antt =====
-- The link count of an encoded inode.
use cromfs.Base.{ℕ, ◌+◌, ◌%◌, ◌^◌, ◌<◌, ◌≡◌, refl, ap, ◌∙◌, Bool, true, false, length, ok}
use cromfs.Base.{if◌then◌else◌, ◌>>=◌, ◌++◌, [], arith, Bool-cases, inl, inr}
use cromfs.Base.Bytes.{Bytes, le_bytes, write}
use cromfs.Endian.Put.{put_32-write}
use cromfs.Endian.Get.{get_32_at}
use cromfs.Format.{inode_size_bytes}
use cromfs.Inode.{Inode, is_device, encode_inode, increment_inode_linkcount}
use cromfs.Inode.Layout.{FitsFields, header_bytes, blocksize_bytes, is_variable, encode_inode_lem}
use cromfs.Endian.{put_32}
use cromfs.Inode.Layout.{rdev_links}
use cromfs.Base.{drop, replicate}
use cromfs.Inode.Blocks.{block_bytes}
use cromfs.Inode.{get_inode_size}
use cromfs.Format.{blocknum_size_bytes}

-- The inode with more links, counted in 32 bits; a device has no link count.
abbrev pub more_links : Inode → ℕ → Inode
more_links inode by_value =
    if is_device inode.mode
    then inode
    else record inode { links = (inode.links + by_value) % 2 ^ 32 }

le_bytes_cut : (x : ℕ) → le_bytes 4 x ≡ le_bytes 4 (x % 2 ^ 32)
le_bytes_cut x = ground arith

-- What stands behind the link count.
abbrev tail_bytes : Bool → Inode → Bytes → Bytes
tail_bytes variable inode rest =
    le_bytes 2 inode.uid
    ++ (le_bytes 2 inode.gid
        ++ (le_bytes 8 inode.bytesize ++ (blocksize_bytes variable inode ++ rest)))

put_links :
    (mode time links value : ℕ) (tail : Bytes)
    → put_32 (le_bytes 4 mode ++ (le_bytes 4 time ++ (le_bytes 4 links ++ tail))) 0x08 value
      ≡ ok (le_bytes 4 mode ++ (le_bytes 4 time ++ (le_bytes 4 (value % 2 ^ 32) ++ tail)))
unfolding write
put_links mode time links value tail =
    put_32-write (le_bytes 4 mode ++ (le_bytes 4 time ++ (le_bytes 4 links ++ tail))) 0x08 value
      (omega arith)
    ∙ ap (λ t. ok (le_bytes 4 mode ++ (le_bytes 4 time ++ (t ++ tail)))) (le_bytes_cut value)

blocksize_bytes_links :
    (variable : Bool) (inode : Inode) (l : ℕ)
    → blocksize_bytes variable inode ≡ blocksize_bytes variable (record inode { links = l })
blocksize_bytes_links true inode l = refl
blocksize_bytes_links false inode l = refl

increment_header :
    (variable : Bool) (inode : Inode) (rest : Bytes) (by_value : ℕ)
    → FitsFields inode
    → is_device inode.mode ≡ false
    → increment_inode_linkcount (header_bytes variable inode rest) by_value
      ≡ ok (header_bytes variable (record inode { links = (inode.links + by_value) % 2 ^ 32 }) rest)
unfolding increment_inode_linkcount
increment_header variable inode rest by_value fits plain =
    let tail : Bytes = tail_bytes variable inode rest in
    let x2 : Bytes = le_bytes 4 inode.mode ++ le_bytes 4 inode.time in
    rw
      (
        plain,
        get_32_at [] (le_bytes 4 inode.time ++ (le_bytes 4 inode.links ++ tail)) 0x00 inode.mode
            refl fits.mode,
        plain,
        get_32_at x2 tail 0x08 inode.links refl fits.links,
        put_links inode.mode inode.time inode.links (inode.links + by_value) tail,
        blocksize_bytes_links variable inode ((inode.links + by_value) % 2 ^ 32),
      )
      refl

increment_device :
    (variable : Bool) (inode : Inode) (rest : Bytes) (by_value : ℕ)
    → FitsFields inode
    → is_device inode.mode ≡ true
    → increment_inode_linkcount (header_bytes variable inode rest) by_value
      ≡ ok (header_bytes variable inode rest)
unfolding increment_inode_linkcount
increment_device variable inode rest by_value fits device =
    rw
      (
        get_32_at []
            (le_bytes 4 inode.time
              ++ (le_bytes 4 (rdev_links inode) ++ tail_bytes variable inode rest))
            0x00 inode.mode refl fits.mode,
        device,
      )
      refl

-- Changing the link count of an encoded inode is encoding the inode with the sum, cut to 32 bits,
-- as its link count, or the same inode, if it is a device; an inode whose size and fields fit.
pub increment_inode_linkcount-encode_inode :
    (inode : Inode) (storage_opts by_value : ℕ)
    → FitsFields inode
    → inode_size_bytes storage_opts (length inode.blocklist) + 3 < 2 ^ 32
    → (encode_inode inode storage_opts >>= λ inodata. increment_inode_linkcount inodata by_value)
      ≡ encode_inode (more_links inode by_value) storage_opts
unfolding get_inode_size
increment_inode_linkcount-encode_inode inode storage_opts by_value fits size =
    let variable : Bool = is_variable storage_opts in
    let rest : Bytes =
      block_bytes (blocknum_size_bytes storage_opts) inode.blocklist
      ++ drop (inode_size_bytes storage_opts (length inode.blocklist))
          (replicate (get_inode_size inode storage_opts) 0) in
    elim (Bool-cases (is_device inode.mode)) [
      | inl device ↦
          rw (device, encode_inode_lem inode storage_opts size)
            (increment_device variable inode rest by_value fits device)
      | inr plain ↦
          rw
            (
              plain,
              encode_inode_lem inode storage_opts size,
              encode_inode_lem (record inode { links = (inode.links + by_value) % 2 ^ 32 })
                  storage_opts size,
            )
            (increment_header variable inode rest by_value fits plain)
    ]
