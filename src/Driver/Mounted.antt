-- ===== src/Driver/Mounted.antt =====
-- cromfs.cc, `Initialize` on an image whose parts the encoders made.
use cromfs.Base.{
  ℕ, zero, suc, ◌+◌, ◌*◌, ◌^◌, ◌≤◌, ◌<◌, ◌≡◌, refl, sym, ap, ◌∙◌, subst, arith, List, [], ◌∷◌, ◌++◌,
  length, replicate, drop, All,
}
use cromfs.Base.{true, false, not, ◌&&◌, ◌||◌, ◌==◌, if◌then◌else◌, ok, inl, inr, Result, Bool}
use cromfs.Base
use cromfs.Base.Bytes.{Bytes}
use cromfs.Format.{has_opt, opt_packed_blocks, datalocator_size_bytes}
use cromfs.Superblock.{
  Superblock, signature_01, signature_02, signature_03, max_buffer_size, set_offsets,
  write_to_buffer, read_from_buffer,
}
use cromfs.Superblock.RoundTrip.{IsPlaceable, set_offsets_sig, read_from_buffer-write_to_buffer}
use cromfs.Inode.{Inode, new_inode, get_inode, encode_inode}
use cromfs.Inode.Layout.{read_header}
use cromfs.Inode.RoundTrip.{IsStorable}
use cromfs.Inode.Special.{get_inode_stored, get_inode_first}
use cromfs.BlockTable.{Block, encode_block_table, decode_block_table}
use cromfs.BlockTable.RoundTrip.{Fits, decode_block_table-encode_block_table}
use cromfs.Cache
use cromfs.Driver.{Fs, Fblock, LzmaDecode, M, done, ◌>>=◌, return, raise}
use cromfs.Driver.Load.{
  long_file_read, do_lzma_loading, forget_blktab, reread_blktab, reread_fblktab,
}
use cromfs.Driver.Scan.{IsChain, fblktab_loop_chain}
use cromfs.Driver.Mount.{
  read_packed_inode, read_special_inode, load_superblock, set_inotab, load_inotab, load_rootdir,
  load_blktab, reread_superblock, initialize,
}
use cromfs.Base.{einval}

-- What the parts of an image hold: the superblock in its first bytes, the inodes of the inode table
-- and of the root directory and the block table in the places that the superblock says, compressed,
-- and the fblocks from `fblktab_offs` up to the end of the file.
module _ (decode : LzmaDecode) (fs : Fs) (sb : Superblock) (inotab rootdir : Inode)
    (blocks : List Block) (tab : List Fblock) where
  abbrev pub placed : Superblock
  placed = set_offsets sb

  abbrev with_superblock : Fs
  with_superblock = record fs {
    storage_opts = 0;
    sblock = placed;
    fblock_cache = Cache.clear fs.fblock_cache;
  }

  abbrev with_inotab : Fs
  with_inotab = record with_superblock { inotab = inotab; storage_opts = inotab.mode }

  -- The state when the image has been loaded.
  abbrev pub mounted : Fs
  mounted = record with_inotab {
    rootdir = record rootdir { mode = 0o040555; uid = 0; gid = 0 };
    blktab = blocks;
    fblktab = tab;
  }

  pub record HoldsImage (buf head inotab_raw rootdir_raw blktab_raw : Bytes) (end : ℕ)
      : Type 0 where
    pub placeable : IsPlaceable sb
    pub buf_size : length buf ≡ max_buffer_size
    pub head_raw : write_to_buffer placed buf ≡ ok head
    pub start : long_file_read fs.image 0 max_buffer_size ≡ ok head
    pub inotab_storable : IsStorable inotab inotab.mode placed.bsize
    pub inotab_encoded : encode_inode inotab inotab.mode ≡ ok inotab_raw
    pub inotab_data :
        do_lzma_loading decode fs.image placed.inotab_offs placed.inotab_size ≡ ok inotab_raw
    pub rootdir_storable : IsStorable rootdir inotab.mode placed.bsize
    pub rootdir_encoded : encode_inode rootdir inotab.mode ≡ ok rootdir_raw
    pub rootdir_data :
        do_lzma_loading decode fs.image placed.rootdir_offs placed.rootdir_size ≡ ok rootdir_raw
    pub blktab_size : length blocks * datalocator_size_bytes inotab.mode < 2 ^ 32
    pub blktab_fits : All (Fits (has_opt inotab.mode opt_packed_blocks) placed.fsize) blocks
    pub blktab_encoded : encode_block_table blocks inotab.mode placed.fsize ≡ ok blktab_raw
    pub blktab_data :
        do_lzma_loading decode fs.image placed.blktab_offs placed.blktab_size ≡ ok blktab_raw
    pub fblocks : IsChain mounted placed.fblktab_offs tab end
    pub last_fblock : length fs.image ≤ end + 17
    pub some_fblock : 0 < length tab

  module _ (buf head inotab_raw rootdir_raw blktab_raw : Bytes) (end : ℕ)
      (holds : HoldsImage buf head inotab_raw rootdir_raw blktab_raw end) where
    sig_03 : placed.sig ≡ signature_03
    sig_03 = set_offsets_sig sb ∙ holds.placeable.new

    head_lem : read_from_buffer head ≡ ok placed
    head_lem =
        ap (λ r. Base.◌>>=◌ r read_from_buffer) (sym holds.head_raw)
        ∙ read_from_buffer-write_to_buffer sb buf holds.buf_size holds.placeable

    superblock_lem : load_superblock fs ≡ done tt with_superblock
    superblock_lem =
        let known : (placed.sig == signature_01)
              || ((placed.sig == signature_02) || (placed.sig == signature_03))
            ≡ true =
          ground (arith, sig_03) in
        unfold load_superblock in rw (load_superblock, ◌>>=◌, holds.start, head_lem, known) refl

    special_step :
        (s : Fs) (offset size : ℕ) (ignore : Bool) (raw : Bytes) (inode : Inode)
        → s.sblock.sig ≡ signature_03
        → (offset == s.sblock.rootdir_offs) || (offset == s.sblock.inotab_offs) ≡ true
        → do_lzma_loading decode s.image offset size ≡ ok raw
        → get_inode raw 0 new_inode s.storage_opts s.sblock.bsize (not ignore) ≡ ok inode
        → read_special_inode decode offset size ignore s ≡ done inode s
    special_step s offset size ignore raw inode sig place loads decodes =
        let new : (s.sblock.sig == signature_01) ≡ false = ground arith in
        unfold read_special_inode read_packed_inode in
        rw (read_special_inode, ◌>>=◌, new, place, read_packed_inode, loads, decodes) refl

    set_inotab_step :
        (s : Fs) (ignore : Bool) (inode : Inode)
        → read_special_inode decode s.sblock.inotab_offs s.sblock.inotab_size ignore s
          ≡ done inode s
        → set_inotab decode ignore s ≡ done tt (record s { inotab = inode })
    set_inotab_step s ignore inode reads = unfold set_inotab in rw (set_inotab, ◌>>=◌, reads) refl

    abbrev first_read : Inode
    first_read = read_header inotab new_inode 0 placed.bsize

    abbrev with_options : Fs
    with_options = record with_superblock { inotab = first_read; storage_opts = inotab.mode }

    inotab_lem : load_inotab decode with_superblock ≡ done tt with_inotab
    inotab_lem =
        let new : not (placed.sig == signature_01) && not (placed.sig == signature_02) ≡ true =
          ground (arith, sig_03) in
        let place : (placed.inotab_offs == placed.rootdir_offs)
              || (placed.inotab_offs == placed.inotab_offs)
            ≡ true =
          ground arith in
        let first : set_inotab decode true with_superblock
            ≡ done tt (record with_superblock { inotab = first_read }) =
          set_inotab_step with_superblock true first_read (
            special_step with_superblock placed.inotab_offs placed.inotab_size true inotab_raw
              first_read sig_03 place holds.inotab_data
              (get_inode_first inotab inotab.mode placed.bsize inotab_raw holds.inotab_storable
                holds.inotab_encoded)) in
        let second : set_inotab decode false with_options ≡ done tt with_inotab =
          set_inotab_step with_options false inotab (
            special_step with_options placed.inotab_offs placed.inotab_size false inotab_raw inotab
              sig_03 place holds.inotab_data
              (get_inode_stored inotab inotab.mode placed.bsize inotab_raw holds.inotab_storable
                holds.inotab_encoded)) in
        unfold load_inotab in rw (load_inotab, ◌>>=◌, new, first, new, second) refl

    abbrev with_rootdir : Fs
    with_rootdir = record with_inotab { rootdir = rootdir }

    rootdir_lem : load_rootdir decode with_inotab ≡ done tt with_rootdir
    rootdir_lem =
        let place : (placed.rootdir_offs == placed.rootdir_offs)
              || (placed.rootdir_offs == placed.inotab_offs)
            ≡ true =
          ground arith in
        let reads =
          special_step with_inotab placed.rootdir_offs placed.rootdir_size false rootdir_raw rootdir
            sig_03 place holds.rootdir_data
            (get_inode_stored rootdir inotab.mode placed.bsize rootdir_raw holds.rootdir_storable
              holds.rootdir_encoded) in
        unfold load_rootdir in rw (load_rootdir, ◌>>=◌, reads) refl

    abbrev patched : Inode
    patched = record rootdir { mode = 0o040555; uid = 0; gid = 0 }

    abbrev with_blktab : Fs
    with_blktab = record with_inotab { rootdir = patched; blktab = blocks }

    blktab_lem : load_blktab decode with_rootdir ≡ done tt with_blktab
    blktab_lem =
        let (data_bytes, encodes, len, decodes) =
          decode_block_table-encode_block_table blocks inotab.mode placed.fsize holds.blktab_size
            holds.blktab_fits in
        let both : ok blktab_raw ≡ ok data_bytes = sym holds.blktab_encoded ∙ encodes in
        let same : blktab_raw ≡ data_bytes = cc in
        let table : decode_block_table blktab_raw placed.fsize inotab.mode ≡ ok blocks =
          ap (λ t. decode_block_table t placed.fsize inotab.mode) same ∙ decodes in
        let new : (placed.sig == signature_01) ≡ false = ground (arith, sig_03) in
        unfold load_blktab forget_blktab reread_blktab in
        rw (load_blktab, ◌>>=◌, forget_blktab, reread_blktab, holds.blktab_data, table, new) refl

    fblktab_lem : reread_fblktab with_blktab ≡ done tt mounted
    fblktab_lem =
        unfold reread_fblktab IsChain in
        fblktab_loop_chain with_blktab (length fs.image + 1) placed.fblktab_offs end [] tab
          (unfold IsChain in holds.fblocks) holds.last_fblock (omega arith) (omega arith)

    found :
        (fblocks : List Fblock)
        → 0 < length fblocks
        → (elim fblocks as (λ _. M (Unit {0})) [ [] ↦ raise einval | f ∷ rest ↦ return tt ]) mounted
          ≡ done tt mounted
    found [] h = absurd (omega arith)
    found (f ∷ rest) h = refl

    -- `Initialize` on an image whose superblock, inode table, root directory and block table are
    -- what the encoders make, in the newest format, whose fblocks go up to the end of the file, loads
    -- all of it: it takes the storage options from the inode table's mode, makes the root directory
    -- a directory of mode 0555 without an owner, and forgets the cached fblocks.
    pub initialize-encoded : initialize decode fs ≡ done tt mounted
    initialize-encoded =
        unfold initialize reread_superblock in
        rw
          (
            initialize, reread_superblock, ◌>>=◌, superblock_lem, inotab_lem, rootdir_lem,
            blktab_lem, fblktab_lem,
          )
          (found tab holds.some_fblock)
