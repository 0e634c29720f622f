-- ===== src/Driver/DirTests.antt =====
-- The readers of inodes and directories on an image with one directory.
use cromfs.Base.{
  ℕ, ◌+◌, ◌%◌, ◌/◌, ◌<◌, ◌≤◌, ◌≡◌, refl, ap, [], ◌∷◌, ◌++◌, get_elem?, length, replicate, ok, some,
  arith,
}
use cromfs.Base.Bytes.{Bytes}
use cromfs.Endian.{get_8, get_16, get_32, get_64}
use cromfs.Format.{DirInfo, inode_header_size, inode_size_bytes, blocknum_size_bytes}
use cromfs.Inode.{Inode, new_inode, get_inode_offset, calc_size_in_blocks, encode_inode}
use cromfs.Inode.RoundTrip.{IsStorable}
use cromfs.Inode.Layout.{inode_bytes, encode_inode_lem}
use cromfs.Inode.{get_inode_size}
use cromfs.Directory.Names.{IsSorted, compare, find_name}
use cromfs.Directory.Layout.{directory_bytes, addresses, names, entry_bytes, encode_directory_lem}
use cromfs.Cache.{Cache, find_entry}
use cromfs.Driver.{Fs, LzmaDecode, done}
use cromfs.Driver.Load.{
  load_fblock, do_lzma_loading, lzma_decompress, long_file_read, read_fblock_uncached,
}
use cromfs.Driver.Content.{block_at, file_byte, IsReadable, IsCoherent, moved}
use cromfs.Driver.File.{HoldsFile}
use cromfs.Driver.InodeBlocks.{read_inode_and_blocks}
use cromfs.Driver.InodeContent.{read_inode_and_blocks-encode_inode}
use cromfs.Driver.Lookup.{dir_lookup}
use cromfs.Driver.Lookup.Found.{HoldsDir, IsCached, dir_lookup-encode_directory}
use cromfs.Driver.ReadDir.{read_dir}
use cromfs.Driver.ReadDir.Whole.{read_dir-encode_directory}
use cromfs.Base.{Option, none}

abbrev stored : LzmaDecode
stored header size input = record { res = 0; status = 1; in_done = length input; out = input }

-- The names "a" and "b".
abbrev dir : DirInfo
dir = (97 ∷ [], 5) ∷ ((98 ∷ [], 7) ∷ [])

abbrev dir_inode : Inode
dir_inode = record new_inode {
  mode = 0o040755;
  links = 2;
  rdev = 0;
  bytesize = 32;
  blocksize = 64;
  blocklist = 1 ∷ [];
}

dir_bytes : Bytes
unfolding directory_bytes addresses names entry_bytes
dir_bytes = directory_bytes dir

table_bytes : Bytes
unfolding inode_size_bytes get_inode_size blocknum_size_bytes
table_bytes = inode_bytes 0 dir_inode

abbrev image : Bytes
unfolding dir_bytes table_bytes
image =
    41
    ∷ 0
    ∷ 0
    ∷ 0
    ∷ 0
    ∷ 0
    ∷ 0
    ∷ 0
    ∷ 0
    ∷ 28
    ∷ 0
    ∷ 0
    ∷ 0
    ∷ 0
    ∷ 0
    ∷ 0
    ∷ 0
    ∷ (table_bytes
        ++ (45 ∷ 0 ∷ 0 ∷ 0 ∷ 0 ∷ 0 ∷ 0 ∷ 0 ∷ 0 ∷ 32 ∷ 0 ∷ 0 ∷ 0 ∷ 0 ∷ 0 ∷ 0 ∷ 0 ∷ dir_bytes))

fs : Fs
fs = record {
  image = image;
  rootdir = new_inode;
  inotab = record new_inode { bytesize = 28; blocksize = 64; blocklist = 0 ∷ [] };
  sblock = record {
    blktab_offs = 0;
    blktab_size = 0;
    blktab_room = 0;
    fblktab_offs = 0;
    inotab_offs = 0;
    inotab_size = 0;
    inotab_room = 0;
    rootdir_offs = 0;
    rootdir_size = 0;
    rootdir_room = 0;
    fsize = 64;
    bsize = 64;
    bytes_of_files = 0;
    sig = 0;
  };
  fblktab = record { filepos = 4; length = 41 } ∷ (record { filepos = 49; length = 45 } ∷ []);
  blktab = record { fblocknum = 0; startoffs = 0 } ∷ (record { fblocknum = 1; startoffs = 0 } ∷ []);
  readdir_cache = record { entries = []; max_size = 3; max_age = 0 };
  fblock_cache = record { entries = []; max_size = 10; max_age = 0 };
  storage_opts = 0;
  clock = λ n. n;
  ticks = 0;
}

load-0 : read_fblock_uncached stored 0 fs ≡ ok table_bytes
unfolding load_fblock do_lzma_loading lzma_decompress long_file_read get_8 get_16 get_32 get_64
    table_bytes dir_bytes fs
load-0 = refl

load-1 : read_fblock_uncached stored 1 fs ≡ ok dir_bytes
unfolding load_fblock do_lzma_loading lzma_decompress long_file_read get_8 get_16 get_32 get_64
    table_bytes dir_bytes fs
load-1 = refl

-- A file with one block, which has an fblock of its own.
one_block :
    (inode : Inode) (content : Bytes) (b fblocknum : ℕ)
    → inode.blocksize ≡ 64
    → inode.blocklist ≡ b ∷ []
    → inode.bytesize ≡ length content
    → get_elem? fs.blktab b ≡ some (record { fblocknum = fblocknum; startoffs = 0 })
    → read_fblock_uncached stored fblocknum fs ≡ ok content
    → length content ≤ 64
    → fblocknum < 32
    → HoldsFile stored fs inode content
unfolding IsReadable
one_block inode content b fblocknum size list len at loads small low = record {
  some_size = omega arith;
  bytesize = len;
  readable = λ i below. (
    record { fblocknum = fblocknum; startoffs = 0 },
    content,
    found i below,
    loads,
    (let e : i % inode.blocksize ≡ i = rw size (omega arith) in omega arith),
    omega arith,
  );
  bytes = λ i below.
      let e : 0 + i % inode.blocksize ≡ i = rw size (omega arith) in
      unfold file_byte in rw (file_byte, found i below, loads) (ap (get_elem? content) e);
}
  where
    found :
        (i : ℕ)
        → i < length content
        → block_at inode fs.blktab i ≡ some (record { fblocknum = fblocknum; startoffs = 0 })
    found i below =
        let first : i / inode.blocksize ≡ 0 = rw size (omega arith) in
        unfold block_at in rw (block_at, first, list, at) refl

table_held : HoldsFile stored fs fs.inotab table_bytes
table_held =
    let len : fs.inotab.bytesize ≡ length table_bytes = unfold fs table_bytes in refl in
    one_block fs.inotab table_bytes 0 0 (unfold fs in refl) (unfold fs in refl) len
      (unfold fs in refl) load-0 (unfold table_bytes in omega arith) (omega arith)

dir_held : HoldsFile stored fs dir_inode dir_bytes
dir_held =
    one_block dir_inode dir_bytes 1 1 refl refl (unfold dir_bytes in refl) (unfold fs in refl)
      load-1 (unfold dir_bytes in omega arith) (omega arith)

dir_inode-IsStorable : IsStorable dir_inode 0 64
unfolding calc_size_in_blocks inode_size_bytes blocknum_size_bytes
dir_inode-IsStorable = record {
  fits = omega arith;
  links = λ e. cc;
  rdev = λ e. refl;
  blocksize = λ e. refl;
  nblocks = refl;
  blocks = (omega arith, tt);
  size = omega arith;
}

coherent : IsCoherent stored fs
unfolding fs
coherent = (omega arith, tt)

encoded : encode_inode dir_inode fs.storage_opts ≡ ok table_bytes
encoded = unfold fs table_bytes in encode_inode_lem dir_inode 0 dir_inode-IsStorable.size

read_inode_and_blocks-encode_inode_example :
    (cache : Cache Bytes) × (ticks : ℕ) × (read_inode_and_blocks stored (replicate 28 7) 2 fs
      ≡ done dir_inode (moved fs cache ticks))
    × IsCoherent stored (moved fs cache ticks)
unfolding get_inode_offset inode_header_size table_bytes
read_inode_and_blocks-encode_inode_example =
    read_inode_and_blocks-encode_inode stored fs dir_inode 2 (replicate 28 7) [] table_bytes []
      (omega arith) (unfold fs in dir_inode-IsStorable) (omega arith) encoded refl table_held
      (unfold table_bytes in omega arith) (unfold fs in omega arith) coherent

held : HoldsDir stored fs 2 dir_inode dir [] table_bytes [] dir_bytes
unfolding get_inode_offset compare table_bytes addresses names entry_bytes directory_bytes
held = record {
  number = omega arith;
  storable = unfold fs in dir_inode-IsStorable;
  nblocks = omega arith;
  is_dir = refl;
  inode_raw = encoded;
  place = refl;
  table = table_held;
  table_size = unfold table_bytes in omega arith;
  dir_raw = unfold dir_bytes in (encode_directory_lem dir (omega arith)).0;
  dir_size = omega arith;
  file = dir_held;
  sorted = unfold IsSorted in ((refl, tt), (tt, tt));
  entries = (
    (omega arith, ((λ e. absurd (omega arith)), tt), omega arith),
    ((omega arith, ((λ e. absurd (omega arith)), tt), omega arith), tt),
  );
}

fs-IsCached : IsCached fs 2 dir
unfolding fs find_entry
fs-IsCached info at = let wrong : ◌≡◌ {A = Option DirInfo} none (some info) = at in absurd cc

dir_lookup-encode_directory_example :
    (fs' : Fs) × (dir_lookup stored (replicate 28 7) (replicate 4 9) 2 (98 ∷ []) fs ≡ done 7 fs')
    × IsCoherent stored fs'
unfolding inode_header_size find_name compare
dir_lookup-encode_directory_example =
    dir_lookup-encode_directory stored fs 2 dir_inode dir [] table_bytes [] dir_bytes held (98 ∷ [])
      (replicate 28 7) (replicate 4 9) fs-IsCached coherent (unfold fs in omega arith) refl

read_dir-encode_directory_example :
    (fs' : Fs) × (read_dir stored (replicate 28 7) (replicate 4 9) 2 1 5 fs
      ≡ done ((98 ∷ [], 7) ∷ []) fs')
    × IsCached fs' 2 dir
    × IsCoherent stored fs'
unfolding inode_header_size
read_dir-encode_directory_example =
    read_dir-encode_directory stored fs 2 dir_inode dir 1 5 [] table_bytes [] dir_bytes
      (replicate 28 7) (replicate 4 9) held fs-IsCached coherent (unfold fs in omega arith)
      (unfold fs in omega arith) refl
