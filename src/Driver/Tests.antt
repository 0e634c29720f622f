-- ===== src/Driver/Tests.antt =====
-- cromfs.cc on a small image.
use cromfs.Base.{ℕ, zero, suc, ◌+◌, ◌-◌, ◌<◌, ◌≤◌, ◌≡◌, refl, min, arith}
use cromfs.Base.{[], ◌∷◌, get_elem?, length, ltb, if◌then◌else◌, ok}
use cromfs.Base.Bytes.{Bytes}
use cromfs.Endian.{get_8, get_16, get_32, get_64}
use cromfs.Superblock.{Superblock}
use cromfs.Inode.{Inode, new_inode}
use cromfs.Cache.{Cache}
use cromfs.Driver.{Fs, LzmaDecode, lift, done}
use cromfs.Driver.Load.{
  load_fblock, do_lzma_loading, lzma_decompress, long_file_read, read_fblock_uncached,
}
use cromfs.Driver.Read.{read_fblock, read_file_data, ensure_blktab, fill_blktab}
use cromfs.Driver.Content.{block_at, file_byte, IsReadable, IsCoherent, moved}
use cromfs.Driver.Fetch.{read_fblock-refine}
use cromfs.Driver.ReadData.{read_file_data_lem}
use cromfs.Driver.Load.{reread_fblktab, fblktab_loop}
use cromfs.Driver.Order.{read_fblocks_order}
use cromfs.Driver.Needed.{occurs}
use cromfs.Driver.Read.{read_fblocks}

-- A decoder of streams that are stored as they are.
abbrev stored : LzmaDecode
stored header size input = record { res = 0; status = 1; in_done = length input; out = input }

-- Two fblocks, of 2 and 3 bytes.
abbrev image : Bytes
image =
    15 ∷ 0 ∷ 0 ∷ 0 ∷ 0 ∷ 0 ∷ 0 ∷ 0 ∷ 0 ∷ 2 ∷ 0 ∷ 0 ∷ 0 ∷ 0 ∷ 0 ∷ 0 ∷ 0 ∷ 10 ∷ 20 ∷ 16 ∷ 0 ∷ 0 ∷ 0
    ∷ 0 ∷ 0 ∷ 0 ∷ 0 ∷ 0 ∷ 3 ∷ 0 ∷ 0 ∷ 0 ∷ 0 ∷ 0 ∷ 0 ∷ 0 ∷ 1 ∷ 2 ∷ 3 ∷ []

abbrev superblock : Superblock
superblock = record {
  blktab_offs = 0;
  blktab_size = 0;
  blktab_room = 0;
  fblktab_offs = 0;
  inotab_offs = 0;
  inotab_size = 0;
  inotab_room = 0;
  rootdir_offs = 0;
  rootdir_size = 0;
  rootdir_room = 0;
  fsize = 64;
  bsize = 2;
  bytes_of_files = 4;
  sig = 0;
}

-- A file of 4 bytes in two blocks.
abbrev file : Inode
file = record new_inode { bytesize = 4; blocksize = 2; blocklist = 0 ∷ 1 ∷ [] }

abbrev fs : Fs
fs = record {
  image = image;
  rootdir = new_inode;
  inotab = new_inode;
  sblock = superblock;
  fblktab = record { filepos = 4; length = 15 } ∷ record { filepos = 23; length = 16 } ∷ [];
  blktab = record { fblocknum = 1; startoffs = 1 } ∷ record { fblocknum = 0; startoffs = 0 } ∷ [];
  readdir_cache = record { entries = []; max_size = 3; max_age = 0 };
  fblock_cache = record { entries = []; max_size = 10; max_age = 0 };
  storage_opts = 0;
  clock = λ n. n;
  ticks = 0;
}

load-0 : read_fblock_uncached stored 0 fs ≡ ok (10 ∷ 20 ∷ [])
unfolding load_fblock do_lzma_loading lzma_decompress long_file_read get_8 get_16 get_32 get_64
load-0 = refl

load-1 : read_fblock_uncached stored 1 fs ≡ ok (1 ∷ 2 ∷ 3 ∷ [])
unfolding load_fblock do_lzma_loading lzma_decompress long_file_read get_8 get_16 get_32 get_64
load-1 = refl

fs-IsCoherent : IsCoherent stored fs
fs-IsCoherent = (omega arith, tt)

readable : (i : ℕ) → 1 ≤ i → i < min 4 (1 + 2) → IsReadable stored fs file i
unfolding IsReadable block_at
readable zero low high = absurd (omega arith)
readable (suc zero) low high = (
  record { fblocknum = 1; startoffs = 1 },
  1 ∷ 2 ∷ 3 ∷ [],
  refl,
  load-1,
  omega arith,
  omega arith,
)
readable (suc (suc zero)) low high =
    (record { fblocknum = 0; startoffs = 0 }, 10 ∷ 20 ∷ [], refl, load-0, omega arith, omega arith)
readable (suc (suc (suc i))) low high = absurd (omega arith)

read_fblock-refine_example :
    (cache : Cache Bytes) × (ticks : ℕ) × (read_fblock stored 1 fs
      ≡ lift (read_fblock_uncached stored 1 fs) (moved fs cache ticks))
    × IsCoherent stored (moved fs cache ticks)
read_fblock-refine_example = read_fblock-refine stored 1 fs fs-IsCoherent

filled : ensure_blktab stored fs ≡ done tt fs
unfolding ensure_blktab fill_blktab
filled = refl

abbrev target : Bytes
target = 7 ∷ 8 ∷ 9 ∷ []

read_file_data_lem_example :
    (target' : Bytes) × (cache : Cache Bytes) × (ticks : ℕ) × (read_file_data stored file 1 target 2
        fs
      ≡ done (target', min 4 (1 + 2) - 1) (moved fs cache ticks))
    × IsCoherent stored (moved fs cache ticks)
    × (length target' ≡ length target)
    × ((j : ℕ)
        → get_elem? target' j ≡ (
            if ltb (1 + j) (min 4 (1 + 2))
            then file_byte stored fs file (1 + j)
            else get_elem? target j))
read_file_data_lem_example =
    read_file_data_lem stored file 1 2 target fs fs filled (omega arith) (omega arith) (omega arith)
      fs-IsCoherent readable

-- The scan of the image finds its two fblocks.
scan_finds_two : reread_fblktab (record fs { fblktab = [] }) ≡ done tt fs
unfolding reread_fblktab fblktab_loop long_file_read get_8 get_16 get_32
scan_finds_two = refl

same_fblocks : (n : ℕ) → occurs n (0 ∷ 1 ∷ []) ≡ occurs n (1 ∷ 0 ∷ [])
unfolding occurs
same_fblocks n = omega arith

read_fblocks_order_example :
    (t' : Bytes) × (result : ℕ) × (cache1 : Cache Bytes) × (ticks1 : ℕ) × (cache2 : Cache Bytes)
    × (ticks2 : ℕ) × (read_fblocks stored (0 ∷ 1 ∷ []) file 1 target 2 0 fs
        ≡ done (t', result) (moved fs cache1 ticks1))
    × (read_fblocks stored (1 ∷ 0 ∷ []) file 1 target 2 0 fs
        ≡ done (t', result) (moved fs cache2 ticks2))
read_fblocks_order_example =
    read_fblocks_order stored fs file 1 2 (omega arith)
      (λ i low high. readable i (omega arith) (omega arith)) (0 ∷ 1 ∷ []) (1 ∷ 0 ∷ []) target 0
      fs.fblock_cache 0 same_fblocks (omega arith) fs-IsCoherent
