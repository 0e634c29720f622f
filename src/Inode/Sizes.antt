-- ===== src/Inode/Sizes.antt =====
-- How the sizes of inodes, their numbers and their offsets fit together.
use cromfs.Base.{ℕ, ◌+◌, ◌-◌, ◌*◌, ◌/◌, ◌%◌, ◌^◌, ◌≤◌, ◌<◌, ◌≡◌, ◌∙◌, length, ok, arith}
use cromfs.Base.Bits.{and_not_three}
use cromfs.Format.{inode_size_bytes}
use cromfs.Inode.{Inode, get_inode_size, get_inode_offset, get_first_free_inode_number}
use cromfs.Inode.{calc_size_in_blocks}

pub get_inode_size_lem :
    (inode : Inode) (storage_opts : ℕ)
    → inode_size_bytes storage_opts (length inode.blocklist) + 3 < 2 ^ 64
    → get_inode_size inode storage_opts
      ≡ (inode_size_bytes storage_opts (length inode.blocklist) + 3) / 4 * 4
unfolding get_inode_size
get_inode_size_lem inode storage_opts h =
    let size : ℕ = inode_size_bytes storage_opts (length inode.blocklist) in
    and_not_three ((size % 2 ^ 64 + 3) % 2 ^ 64) (omega arith) ∙ omega arith

-- The room of an inode is a multiple of 4, at least what its header and block list take, and less
-- than 4 bytes more, if that number fits 64 bits.
pub get_inode_size_bounds :
    (inode : Inode) (storage_opts : ℕ)
    → inode_size_bytes storage_opts (length inode.blocklist) + 3 < 2 ^ 64
    → (get_inode_size inode storage_opts % 4 ≡ 0)
      × (inode_size_bytes storage_opts (length inode.blocklist) ≤ get_inode_size inode storage_opts)
      × (get_inode_size inode storage_opts
          < inode_size_bytes storage_opts (length inode.blocklist) + 4)
get_inode_size_bounds inode storage_opts h =
    let size : ℕ = inode_size_bytes storage_opts (length inode.blocklist) in
    let e : get_inode_size inode storage_opts ≡ (size + 3) / 4 * 4 =
      get_inode_size_lem inode storage_opts h in
    (omega arith, omega arith, omega arith)

-- The first free inode number of a table stands for the end of the table, rounded up to 4 bytes;
-- an inode appended there leaves as the next free number the one behind it.
pub get_inode_offset-get_first_free_inode_number :
    (inotab_size : ℕ) (inode : Inode) (storage_opts : ℕ)
    → inotab_size + inode_size_bytes storage_opts (length inode.blocklist) + 6 < 2 ^ 64
    → let offset = get_inode_offset (get_first_free_inode_number inotab_size) in
      (inotab_size ≤ offset)
      × (offset < inotab_size + 4)
      × (get_inode_offset (get_first_free_inode_number (offset + get_inode_size inode storage_opts))
          ≡ offset + get_inode_size inode storage_opts)
unfolding get_inode_offset get_first_free_inode_number
get_inode_offset-get_first_free_inode_number inotab_size inode storage_opts h =
    let size : ℕ = inode_size_bytes storage_opts (length inode.blocklist) in
    let e : get_inode_size inode storage_opts ≡ (size + 3) / 4 * 4 =
      get_inode_size_lem inode storage_opts (omega arith) in
    (omega arith, omega arith, omega arith)

-- For a file size and a block size above 0 whose sum fits 64 bits, `CalcSizeInBlocks` returns the
-- least number of blocks that hold the file.
pub calc_size_in_blocks_least :
    (filesize bsize : ℕ)
    → 0 < bsize
    → filesize + bsize < 2 ^ 64
    → (n : ℕ) × (calc_size_in_blocks filesize bsize ≡ ok n)
      × (filesize ≤ n * bsize)
      × ((m : ℕ) → filesize ≤ m * bsize → n ≤ m)
unfolding calc_size_in_blocks
calc_size_in_blocks_least filesize bsize pos fits =
    ((filesize + bsize - 1) / bsize, ground arith, grind arith, λ m h. grind arith)
