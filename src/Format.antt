-- ===== src/Format.antt =====
-- cromfs-defs.hh: the storage options and the sizes that depend on them; <sys/stat.h>: the file
-- types that the code tests for.
use cromfs.Base.{ℕ, ◌+◌, ◌-◌, ◌*◌, ◌≤◌, Bool, not, bit_and, ◌==◌, if◌then◌else◌, arith}
use cromfs.Base.{List}
use cromfs.Base.Bytes.{Bytes}

-- `cromfs_dirinfo`: a map from names to inode numbers, in the order of the names.
abbrev pub DirInfo : Type 0
DirInfo = List (Bytes × ℕ)

abbrev pub opt_sparse_fblocks : ℕ
opt_sparse_fblocks = 0x00000001

abbrev pub opt_24bit_blocknums : ℕ
opt_24bit_blocknums = 0x00000100

abbrev pub opt_16bit_blocknums : ℕ
opt_16bit_blocknums = 0x00000200

abbrev pub opt_packed_blocks : ℕ
opt_packed_blocks = 0x00000400

abbrev pub opt_variable_blocksizes : ℕ
opt_variable_blocksizes = 0x00000800

-- `storage_opts & flag` as a condition.
abbrev pub has_opt : ℕ → ℕ → Bool
has_opt storage_opts flag = not (bit_and storage_opts flag == 0)

unfoldable pub blocknum_size_bytes : ℕ → ℕ
blocknum_size_bytes storage_opts =
    4
    - (if has_opt storage_opts opt_24bit_blocknums then 1 else 0)
    - (if has_opt storage_opts opt_16bit_blocknums then 2 else 0)

unfoldable pub inode_header_size : ℕ → ℕ
inode_header_size storage_opts =
    0x18 + (if has_opt storage_opts opt_variable_blocksizes then 4 else 0)

unfoldable pub inode_size_bytes : ℕ → ℕ → ℕ
unfolding inode_header_size blocknum_size_bytes
inode_size_bytes storage_opts nblocks =
    inode_header_size storage_opts + blocknum_size_bytes storage_opts * nblocks

unfoldable pub datalocator_size_bytes : ℕ → ℕ
datalocator_size_bytes storage_opts = if has_opt storage_opts opt_packed_blocks then 4 else 8

pub blocknum_size_bytes-le : (storage_opts : ℕ) → blocknum_size_bytes storage_opts ≤ 4
unfolding blocknum_size_bytes
blocknum_size_bytes-le storage_opts = omega arith

abbrev pub s_isdir : ℕ → Bool
s_isdir mode = bit_and mode 0xf000 == 0x4000

abbrev pub s_ischr : ℕ → Bool
s_ischr mode = bit_and mode 0xf000 == 0x2000

abbrev pub s_isblk : ℕ → Bool
s_isblk mode = bit_and mode 0xf000 == 0x6000
