-- ===== src/Lib.antt =====
-- cromfs, a compressed read-only filesystem. An image has a superblock, the inodes of the root
-- directory and of the inode table, a table of blocks and a sequence of fblocks, which are
-- compressed one by one. A file is a list of block numbers; the block table says for each block
-- in which fblock it lies and where it starts there. mkcromfs writes images; the class cromfs,
-- on which the FUSE frontend and unmkcromfs stand, reads them.
--
-- The files and the code that they model:
--
-- - Base: what the components share. Results of fallible code (Base/Fallible), lists over
--   native numbers (Base/Lists, Base/Access), bit fields and bit sets (Base/Bits, Base/BitSet),
--   byte buffers (Base/Bytes) and signed numbers (Base/Int).
-- - Endian: lib/endian.hh. get_8 to get_64, get_n, put_8 to put_64 and put_n on a buffer and a
--   position in it, in place of a pointer.
-- - Format: the storage options and the size macros of cromfs-defs.hh.
-- - Superblock: cromfs_superblock_internal of cromfs-defs.hh, a record with one function for
--   each method. The buffer is a list of bytes.
-- - Inode: lib/cromfs-inodefun.cc and .hh. encode_inode, put_inode, get_inode and its two
--   variants, increment_inode_linkcount, and the sizes and numbers of inodes.
-- - BlockTable: lib/cromfs-blockfun.cc and .hh, EncodeBlockTable and DecodeBlockTable.
-- - Directory: lib/cromfs-directoryfun.cc, calc_encoded_directory_size and encode_directory.
--   Directory/Names has what std::map and std::string do with the names.
-- - Cache: lib/datacache.hh. The std::map is a list of entries in the order of the keys; what
--   std::time returns is an argument.
-- - Range: lib/range.hh and lib/range.tcc, rangecollection and rangetype, and the set, insert
--   and erase of lib/rangeset.hh on them. The std::map is a list in ascending order of the
--   keys, which are numbers; a Valueholder is a record of its operations.
-- - Sparse: lib/sparsewrite.cc, SparseWrite and the form of is_zero_block that is compiled.
-- - LongWrite: lib/longfilewrite.cc and .hh, LongFileWrite without asynchronous output, on
--   Sparse.
-- - Patterns: lib/fnmatch.cc, the patterns of names and which of them have matched; the library
--   function fnmatch is a parameter.
-- - Driver: cromfs.cc and cromfs.hh. Fs is the state of the class and M the monad of its
--   methods, whose runs end with a value, with an errno that was thrown, or in undefined
--   behaviour. Driver/Load has LZMADeCompress, DoLZMALoading, reread_blktab, reread_fblktab and
--   read_fblock_uncached, Driver/Read has read_fblock, read_block and read_file_data,
--   Driver/Inodes and Driver/InodeBlocks have read_inode and read_inode_and_blocks,
--   Driver/Lookup has dir_lookup and Driver/ReadDir has read_dir. Driver/Mount has
--   read_special_inode, reread_superblock and Initialize. Driver/Content describes the content
--   of a file without caches and loops; the modules beside it prove the reads against it.
--
-- The driver calls the decoders of Superblock, Inode and BlockTable on bytes that it has
-- loaded, keeps the tables in Fs, and keeps decompressed fblocks in a Cache, which
-- read_file_data asks first and trims at the end. read_dir and dir_lookup look into a Cache of
-- directories first and read the directory's inode and file only if it is not there; Initialize
-- fills the tables.
--
-- Numbers are natural numbers. Where the code stores or computes with a width that can be
-- exceeded, the remainder is written out. A read or a write outside a buffer, a division by
-- zero and a shift by too much are a fault of their own, apart from the errors that the code
-- throws. The loops over positions of a file run on fuel, endpos - pos rounds, and each round
-- moves pos by one byte at least when the block size is positive; the scan of the fblock table
-- has one round more than the image has bytes, and each round moves by 4 bytes at least. The
-- binary search of dir_lookup has as many rounds as the directory has entries, and each round
-- leaves fewer.
--
-- LzmaDecode is a parameter: any function from a header, a size and compressed bytes to a
-- status and the bytes. LongFileRead is the part of the image file; a mapping beyond the end of
-- the file is a fault. Advice to the kernel, the alarm signal that empties the block table and
-- debug output are left out, and the parallel loops of read_file_data and the parallel sections
-- of reread_superblock run one after the other. The order in which std::sort leaves entries of
-- the same age is the order of the keys here.
--
-- A file that is written is a function from positions to bytes. Pwrite, how many bytes pwrite64
-- writes, is a parameter; the theorems on what a file holds take it that all bytes are written.
-- The loop of SparseWrite has as many rounds as there are bytes left.
--
-- Not modelled are rangecollection::offset, which nothing calls, the iterators of rangeset,
-- which read behind the last changepoint, and rangemultimap on them, the building of images
-- (lib/cromfs-blockifier.cc and what it uses, util/mkcromfs.cc), the frontends, and the copies
-- of LZMA, LZO and sparsehash.
pub mod Base
pub mod Endian
pub mod Superblock
pub mod Format
pub mod Inode
pub mod BlockTable
pub mod Directory
pub mod Cache
pub mod Range
pub mod Sparse
pub mod LongWrite
pub mod Patterns
pub mod Driver
