-- ===== src/Driver/Content.antt =====
-- What a file holds, byte by byte, and what a read relies on. This describes the reads of cromfs.cc
-- without its loops, its list of fblocks and its cache.
use cromfs.Base.{
  ℕ, ◌+◌, ◌/◌, ◌%◌, ◌<◌, ◌≡◌, List, Option, none, some, get_elem?, All, Result, ok, throw, fault,
  length,
}
use cromfs.Base.Bytes.{Bytes}
use cromfs.Inode.{Inode}
use cromfs.BlockTable.{Block}
use cromfs.Cache.{Cache}
use cromfs.Driver.{Fs, LzmaDecode}
use cromfs.Driver.Load.{read_fblock_uncached}

-- The block that has byte number `i` of a file.
unfoldable pub block_at : Inode → List Block → ℕ → Option Block
block_at inode blktab i = elim (get_elem? inode.blocklist (i / inode.blocksize)) [
  | none ↦ none
  | some blocknum ↦ get_elem? blktab blocknum
]

abbrev pub byte_of : Result Bytes → ℕ → Option ℕ
byte_of (ok bytes) i = get_elem? bytes i
byte_of (throw e) i = none
byte_of fault i = none

module _ (decode : LzmaDecode) where
  -- Byte number `i` of a file: the byte of the decompressed fblock that the block points to.
  unfoldable pub file_byte : Fs → Inode → ℕ → Option ℕ
  file_byte fs inode i = elim (block_at inode fs.blktab i) [
    | none ↦ none
    | some block ↦
        byte_of (read_fblock_uncached decode block.fblocknum fs)
          (block.startoffs + i % inode.blocksize)
  ]

  -- The block of byte number `i` is in the tables, its fblock decompresses to bytes that reach to
  -- this one, and the fblock's number has a bit in the set of needed fblocks.
  unfoldable pub IsReadable : Fs → Inode → ℕ → Type 0
  IsReadable fs inode i =
      (block : Block) × (bytes : Bytes) × (block_at inode fs.blktab i ≡ some block)
      × (read_fblock_uncached decode block.fblocknum fs ≡ ok bytes)
      × (block.startoffs + i % inode.blocksize < length bytes)
      × (block.fblocknum % 64 < 32)

  -- Every fblock in the cache is what loading it again would give, and the cache has room for one.
  abbrev pub IsCoherent : Fs → Type 0
  IsCoherent fs =
      (0 < fs.fblock_cache.max_size)
      × All (λ e. read_fblock_uncached decode e.key fs ≡ ok e.value) fs.fblock_cache.entries

-- A read changes the cache and the clock only.
abbrev pub moved : Fs → Cache Bytes → ℕ → Fs
moved fs cache ticks = record fs { fblock_cache = cache; ticks = ticks }
