-- ===== src/Driver.antt =====
-- cromfs.hh and cromfs.cc: the class `cromfs`, its state and the calls that change it.
-- LZMA decompression (lib/lzma, a copy of another project's code) is a parameter. `std::time` reads
-- a clock that is part of the state. Advice to the kernel about paging, debug prints and the memory
-- report are left out, and so is the signal handler, which empties `blktab` between two calls.
pub mod Load
pub mod Read
pub mod Content
pub mod Fetch
pub mod Chunks
pub mod OneFblock
pub mod Needed
pub mod Collect
pub mod Totals
pub mod Fblocks
pub mod ReadData
pub mod Order
pub mod Inodes
pub mod File
pub mod InodeBlocks
pub mod InodeContent
pub mod Lookup
pub mod ReadDir
pub mod Scan
pub mod Mount
pub mod Mounted
pub mod Safety
mod Tests
mod InodeTests
mod DirTests
mod MountTests
use cromfs.Base.{ℕ, ◌+◌, List, Bool, true, false, if◌then◌else◌, Result, Errno}
use cromfs.Base
use cromfs.Base.Bytes.{Bytes}
use cromfs.Superblock.{Superblock}
use cromfs.Inode.{Inode}
use cromfs.BlockTable.{Block}
use cromfs.Cache.{Cache}
use cromfs.Format.{DirInfo}

-- `cromfs_fblock_internal`
pub record Fblock : Type 0 where
  pub filepos : ℕ
  pub length : ℕ

-- What `LzmaDecode` reports: its result and status codes, how much it read, and the bytes that it
-- stored, `out_done` many.
pub record Decoded : Type 0 where
  pub res : ℕ
  pub status : ℕ
  pub in_done : ℕ
  pub out : Bytes

-- `LzmaDecode`, on the header, the size of the output buffer, and the compressed bytes.
abbrev pub LzmaDecode : Type 0
LzmaDecode = Bytes → ℕ → Bytes → Decoded

-- `image` is the file behind `fd`; `clock n` is what the call number `n` of `std::time` returns.
pub record Fs : Type 0 where
  pub image : Bytes
  pub rootdir : Inode
  pub inotab : Inode
  pub sblock : Superblock
  pub fblktab : List Fblock
  pub blktab : List Block
  pub readdir_cache : Cache DirInfo
  pub fblock_cache : Cache Bytes
  pub storage_opts : ℕ
  pub clock : ℕ → ℕ
  pub ticks : ℕ

-- How a method ends. The state stays changed behind an exception.
pub data Run (A : Type 0) : Type 0 where
  done : A → Fs → Run A
  threw : Errno → Fs → Run A
  undefined : Run A

abbrev pub M : Type 0 → Type 0
M A = Fs → Run A

infixl 5 ◌>>=◌ ◌>>◌
abbrev pub ◌>>=◌ : {A B : Type 0} → M A → (A → M B) → M B
◌>>=◌ m f fs = elim (m fs) [
  | done a fs' ↦ f a fs'
  | threw e fs' ↦ threw e fs'
  | undefined ↦ undefined
]

abbrev pub ◌>>◌ : {B : Type 0} → M (Unit {0}) → M B → M B
m >> k = m >>= λ _. k

abbrev pub return : {A : Type 0} → A → M A
return a fs = done a fs

abbrev pub raise : {A : Type 0} → Errno → M A
raise e fs = threw e fs

-- Code that does not touch the object.
abbrev pub lift : {A : Type 0} → Result A → M A
lift r fs = elim r [ Base.ok a ↦ done a fs | Base.throw e ↦ threw e fs | Base.fault ↦ undefined ]

abbrev pub get : M Fs
get fs = done fs fs

abbrev pub set_state : Fs → M (Unit {0})
set_state fs' fs = done tt fs'

-- `std::time(0)`
abbrev pub time : M ℕ
time fs = done (fs.clock fs.ticks) (record fs { ticks = fs.ticks + 1 })
