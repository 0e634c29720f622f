-- ===== src/Driver/InodeTests.antt =====
-- `read_inode` on an image with one inode in its table.
use cromfs.Base.{
  ℕ, ◌+◌, ◌%◌, ◌/◌, ◌<◌, ◌≡◌, refl, [], ◌∷◌, get_elem?, length, replicate, ok, arith, ap,
}
use cromfs.Base.Bytes.{Bytes}
use cromfs.Endian.{get_8, get_16, get_32, get_64}
use cromfs.Format.{inode_header_size, inode_size_bytes}
use cromfs.Inode.{Inode, new_inode, get_inode_offset, calc_size_in_blocks}
use cromfs.Inode.Layout.{header_bytes}
use cromfs.Inode.RoundTrip.{IsStorable}
use cromfs.Cache.{Cache}
use cromfs.Driver.{Fs, LzmaDecode, done}
use cromfs.Driver.Load.{
  load_fblock, do_lzma_loading, lzma_decompress, long_file_read, read_fblock_uncached,
}
use cromfs.Driver.Read.{ensure_blktab, fill_blktab}
use cromfs.Driver.Content.{block_at, file_byte, IsReadable, IsCoherent, moved}
use cromfs.Driver.Inodes.{read_inode, read_inode-header_bytes}
use cromfs.Base.{some, false}

abbrev stored : LzmaDecode
stored header size input = record { res = 0; status = 1; in_done = length input; out = input }

-- An empty file.
abbrev empty_file : Inode
empty_file = record new_inode {
  mode = 0o100644;
  links = 1;
  rdev = 0;
  bytesize = 0;
  blocksize = 64;
  blocklist = [];
}

abbrev table_bytes : Bytes
table_bytes = header_bytes false empty_file []

abbrev image : Bytes
image = 37 ∷ 0 ∷ 0 ∷ 0 ∷ 0 ∷ 0 ∷ 0 ∷ 0 ∷ 0 ∷ 24 ∷ 0 ∷ 0 ∷ 0 ∷ 0 ∷ 0 ∷ 0 ∷ 0 ∷ table_bytes

abbrev fs : Fs
fs = record {
  image = image;
  rootdir = new_inode;
  inotab = record new_inode { bytesize = 24; blocksize = 64; blocklist = 0 ∷ [] };
  sblock = record {
    blktab_offs = 0;
    blktab_size = 0;
    blktab_room = 0;
    fblktab_offs = 0;
    inotab_offs = 0;
    inotab_size = 0;
    inotab_room = 0;
    rootdir_offs = 0;
    rootdir_size = 0;
    rootdir_room = 0;
    fsize = 64;
    bsize = 64;
    bytes_of_files = 0;
    sig = 0;
  };
  fblktab = record { filepos = 4; length = 37 } ∷ [];
  blktab = record { fblocknum = 0; startoffs = 0 } ∷ [];
  readdir_cache = record { entries = []; max_size = 3; max_age = 0 };
  fblock_cache = record { entries = []; max_size = 10; max_age = 0 };
  storage_opts = 0;
  clock = λ n. n;
  ticks = 0;
}

empty_file-IsStorable : IsStorable empty_file 0 64
unfolding calc_size_in_blocks inode_size_bytes
empty_file-IsStorable = record {
  fits = omega arith;
  links = λ e. refl;
  rdev = λ e. refl;
  blocksize = λ e. refl;
  nblocks = refl;
  blocks = tt;
  size = omega arith;
}

load-0 : read_fblock_uncached stored 0 fs ≡ ok table_bytes
unfolding load_fblock do_lzma_loading lzma_decompress long_file_read get_8 get_16 get_32 get_64
load-0 = refl

filled : ensure_blktab stored fs ≡ done tt fs
unfolding ensure_blktab fill_blktab
filled = refl

in_table :
    (j : ℕ)
    → j < 24
    → IsReadable stored fs fs.inotab (0 + j)
      × (file_byte stored fs fs.inotab (0 + j) ≡ get_elem? table_bytes j)
unfolding IsReadable
in_table j h =
    let first : (0 + j) / 64 ≡ 0 = omega arith in
    let at : (0 + (0 + j) % 64) ≡ j = omega arith in
    let found : block_at fs.inotab fs.blktab (0 + j)
        ≡ some (record { fblocknum = 0; startoffs = 0 }) =
      unfold block_at in rw (block_at, first) in
    (
      (
        record { fblocknum = 0; startoffs = 0 },
        table_bytes,
        found,
        load-0,
        omega arith,
        omega arith,
      ),
      (unfold file_byte in rw (file_byte, found, load-0) (ap (get_elem? table_bytes) at)),
    )

read_inode-header_bytes_example :
    (cache : Cache Bytes) × (ticks : ℕ) × (read_inode stored (replicate 28 7) 2 fs
      ≡ done empty_file (moved fs cache ticks))
    × IsCoherent stored (moved fs cache ticks)
unfolding get_inode_offset inode_header_size
read_inode-header_bytes_example =
    read_inode-header_bytes stored fs empty_file 2 (replicate 28 7) (omega arith)
      empty_file-IsStorable filled (omega arith) (omega arith) (omega arith) (omega arith)
      (omega arith, tt) in_table
