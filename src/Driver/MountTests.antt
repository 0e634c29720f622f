-- ===== src/Driver/MountTests.antt =====
-- `Initialize` on a small image.
use cromfs.Base.{◌≡◌, refl, List, [], ◌∷◌, ◌++◌, length, replicate, take, ok, arith}
use cromfs.Base.Bytes.{Bytes, le_bytes}
use cromfs.Endian.{put_8, put_16, put_32, put_64, get_8, get_16, get_32, get_64}
use cromfs.Format.{inode_size_bytes, blocknum_size_bytes, datalocator_size_bytes}
use cromfs.Superblock.{
  Superblock, signature_03, set_offsets, set_offsets_extended, set_offsets_from, write_to_buffer,
  write_fixed_part,
}
use cromfs.Inode.{Inode, new_inode, calc_size_in_blocks, get_inode_size}
use cromfs.Inode.RoundTrip.{IsStorable}
use cromfs.Inode.Layout.{inode_bytes, encode_inode_lem}
use cromfs.BlockTable.{Block, encode_block_table, put_locators, put_plain}
use cromfs.Driver.{Fs, Fblock, LzmaDecode, done}
use cromfs.Driver.Load.{do_lzma_loading, lzma_decompress, long_file_read}
use cromfs.Driver.Scan.{IsChain}
use cromfs.Driver.Mount.{initialize}
use cromfs.Driver.Mounted.{HoldsImage, mounted, initialize-encoded}

abbrev stored : LzmaDecode
stored header size input = record { res = 0; status = 1; in_done = length input; out = input }

-- What `LzmaDecode` with no compression reads.
abbrev packed : Bytes → Bytes
packed xs = replicate 5 0 ++ (le_bytes 8 (length xs) ++ xs)

abbrev sb : Superblock
sb = record {
  blktab_offs = 0;
  blktab_size = 21;
  blktab_room = 21;
  fblktab_offs = 0;
  inotab_offs = 0;
  inotab_size = 41;
  inotab_room = 41;
  rootdir_offs = 0;
  rootdir_size = 41;
  rootdir_room = 41;
  fsize = 64;
  bsize = 64;
  bytes_of_files = 0;
  sig = signature_03;
}

abbrev inotab : Inode
inotab = record new_inode {
  mode = 0;
  links = 1;
  rdev = 0;
  bytesize = 28;
  blocksize = 64;
  blocklist = 0 ∷ [];
}

abbrev rootdir : Inode
rootdir = record new_inode {
  mode = 0o040700;
  links = 2;
  rdev = 0;
  bytesize = 4;
  blocksize = 64;
  blocklist = 0 ∷ [];
}

abbrev blocks : List Block
blocks = record { fblocknum = 0; startoffs = 0 } ∷ []

inotab_raw : Bytes
unfolding inode_size_bytes get_inode_size blocknum_size_bytes
inotab_raw = inode_bytes 0 inotab

rootdir_raw : Bytes
unfolding inode_size_bytes get_inode_size blocknum_size_bytes
rootdir_raw = inode_bytes 0 rootdir

abbrev blktab_raw : Bytes
blktab_raw = replicate 8 0

abbrev header : Bytes
header =
    le_bytes 8 signature_03
    ++ (le_bytes 8 138
        ++ (le_bytes 8 159
            ++ (le_bytes 8 97
                ++ (le_bytes 8 56 ++ (le_bytes 4 64 ++ (le_bytes 4 64 ++ le_bytes 8 0))))))

image : Bytes
unfolding inotab_raw rootdir_raw
image =
    header
    ++ (packed rootdir_raw
        ++ (packed inotab_raw ++ (packed blktab_raw ++ (le_bytes 4 17 ++ packed (replicate 4 0)))))

fs : Fs
fs = record {
  image = image;
  rootdir = new_inode;
  inotab = new_inode;
  sblock = sb;
  fblktab = [];
  blktab = [];
  readdir_cache = record { entries = []; max_size = 3; max_age = 0 };
  fblock_cache = record { entries = []; max_size = 10; max_age = 0 };
  storage_opts = 7;
  clock = λ n. n;
  ticks = 0;
}

abbrev tab : List Fblock
tab = record { filepos = 163; length = 17 } ∷ []

abbrev head : Bytes
head = take 80 image

inode-IsStorable : IsStorable inotab 0 64
unfolding calc_size_in_blocks inode_size_bytes blocknum_size_bytes
inode-IsStorable = record {
  fits = omega arith;
  links = λ e. cc;
  rdev = λ e. refl;
  blocksize = λ e. refl;
  nblocks = refl;
  blocks = (omega arith, tt);
  size = omega arith;
}

rootdir-IsStorable : IsStorable rootdir 0 64
unfolding calc_size_in_blocks inode_size_bytes blocknum_size_bytes
rootdir-IsStorable = record {
  fits = omega arith;
  links = λ e. cc;
  rdev = λ e. refl;
  blocksize = λ e. refl;
  nblocks = refl;
  blocks = (omega arith, tt);
  size = omega arith;
}

head_written : write_to_buffer (set_offsets sb) head ≡ ok head
unfolding image inotab_raw rootdir_raw set_offsets set_offsets_extended set_offsets_from
    write_to_buffer write_fixed_part put_8 put_16 put_32 put_64
head_written = refl

blocks_encoded : encode_block_table blocks 0 64 ≡ ok blktab_raw
unfolding encode_block_table datalocator_size_bytes put_locators put_plain put_8 put_16 put_32
blocks_encoded = refl

held :
    HoldsImage stored fs sb inotab rootdir blocks tab head head inotab_raw rootdir_raw blktab_raw
      180
unfolding fs image inotab_raw rootdir_raw set_offsets set_offsets_extended set_offsets_from
    do_lzma_loading lzma_decompress long_file_read get_8 get_16 get_32 get_64 datalocator_size_bytes
    IsChain encode_block_table
held = record {
  placeable = record {
    total = omega arith;
    rootdir_size = omega arith;
    inotab_size = omega arith;
    blktab_size = omega arith;
    fsize = omega arith;
    bsize = omega arith;
    bytes_of_files = omega arith;
    new = refl;
  };
  buf_size = refl;
  head_raw = head_written;
  start = refl;
  inotab_storable = inode-IsStorable;
  inotab_encoded = encode_inode_lem inotab 0 (omega arith);
  inotab_data = refl;
  rootdir_storable = rootdir-IsStorable;
  rootdir_encoded = encode_inode_lem rootdir 0 (omega arith);
  rootdir_data = refl;
  blktab_size = omega arith;
  blktab_fits = (record { fblocknum = omega arith; startoffs = omega arith }, tt);
  blktab_encoded = blocks_encoded;
  blktab_data = refl;
  fblocks = (omega arith, refl, refl, omega arith, refl);
  last_fblock = omega arith;
  some_fblock = omega arith;
}

initialize-encoded_example :
    initialize stored fs ≡ done tt (mounted stored fs sb inotab rootdir blocks tab)
initialize-encoded_example =
    initialize-encoded stored fs sb inotab rootdir blocks tab head head inotab_raw rootdir_raw
      blktab_raw 180 held
