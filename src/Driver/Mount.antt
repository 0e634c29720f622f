-- ===== src/Driver/Mount.antt =====
-- cromfs.cc, `read_special_inode`, `reread_superblock` and `Initialize`: how an image is loaded.
-- The three sections that OpenMP runs at once run here in the order of the text, as they do when
-- the program is built without OpenMP; advice to the kernel about paging is left out.
use cromfs.Base.{ℕ, ◌+◌, ◌*◌, ◌%◌, ◌^◌, Bool, true, false, not, ◌&&◌, ◌||◌, List, [], ◌∷◌}
use cromfs.Base.{◌==◌, if◌then◌else◌, Result, ok, eio, einval}
use cromfs.Base
use cromfs.Base.Bytes.{Bytes}
use cromfs.Superblock.{signature_01, signature_02, signature_03, max_buffer_size, read_from_buffer}
use cromfs.Inode.{Inode, new_inode, calc_size_in_blocks, get_inode, get_inode_header}
use cromfs.Cache
use cromfs.Driver.{Fs, Fblock, LzmaDecode, M, ◌>>=◌, ◌>>◌, return, raise, lift, get, set_state}
use cromfs.Driver.Load.{
  long_file_read, do_lzma_loading, forget_blktab, reread_blktab, reread_fblktab,
}
use cromfs.Driver.InodeBlocks.{get_blocklist}

-- The case of the first version, whose special inodes are not compressed.
unfoldable pub read_plain_inode : Bytes → ℕ → ℕ → Bool → Result Inode
read_plain_inode image offset bsize ignore_blocks =
    Base.◌>>=◌ (long_file_read image offset 0x18) (λ buf.
      Base.◌>>=◌ (get_inode_header buf 0x18 new_inode 0 bsize) (λ inode.
        let with_blocks =
          Base.◌>>=◌ (calc_size_in_blocks inode.bytesize inode.blocksize) (λ nblocks.
            Base.◌>>=◌ (long_file_read image (offset + 0x18) (4 * nblocks)) (λ raw.
              Base.◌>>=◌ (get_blocklist raw 4 nblocks 0)
                (λ blocklist. ok (record inode { blocklist = blocklist })))) in
        if ignore_blocks then ok inode else with_blocks))

-- Up to the call of `fblock_cache.clear()`.
unfoldable pub load_superblock : M (Unit {0})
load_superblock = do
  fs ← get
  buf ← lift (long_file_read fs.image 0 max_buffer_size)
  set_state (record fs { storage_opts = 0 })
  sblock ← lift (read_from_buffer buf)
  set_state (record fs { storage_opts = 0; sblock = sblock })
  if (sblock.sig == signature_01) || ((sblock.sig == signature_02) || (sblock.sig == signature_03))
      then set_state (record fs {
        storage_opts = 0;
        sblock = sblock;
        fblock_cache = Cache.clear fs.fblock_cache;
      })
      else raise einval

-- What the second section does to the root directory: S_IFDIR | 0555, and no owner.
abbrev pub patch_rootdir : ℕ → Inode → Inode
patch_rootdir sig rootdir = record rootdir {
  mode = 0o040555;
  links = if sig == signature_01 then 2 else rootdir.links;
  uid = 0;
  gid = 0;
}

module _ (decode : LzmaDecode) where
  unfoldable pub read_packed_inode : Fs → ℕ → ℕ → Bool → Result Inode
  read_packed_inode fs offset size ignore_blocks =
      Base.◌>>=◌ (do_lzma_loading decode fs.image offset size)
        (λ buf. get_inode buf 0 new_inode fs.storage_opts fs.sblock.bsize (not ignore_blocks))

  unfoldable pub read_special_inode : ℕ → ℕ → Bool → M Inode
  read_special_inode offset size ignore_blocks = do
    fs ← get
    if fs.sblock.sig == signature_01
        then lift (read_plain_inode fs.image offset fs.sblock.bsize ignore_blocks)
        else if (offset == fs.sblock.rootdir_offs) || (offset == fs.sblock.inotab_offs)
        then lift (read_packed_inode fs offset size ignore_blocks)
        else raise eio

  -- `inotab = read_special_inode(sblock.inotab_offs, sblock.inotab_size, ...);`
  unfoldable pub set_inotab : Bool → M (Unit {0})
  set_inotab ignore_blocks = do
    fs ← get
    inotab ← read_special_inode fs.sblock.inotab_offs fs.sblock.inotab_size ignore_blocks
    set_state (record fs { inotab = inotab })

  -- The storage options stand in the mode of the inode table's own inode.
  unfoldable pub load_inotab : M (Unit {0})
  load_inotab = do
    fs ← get
    let need_storage_opts =
        not (fs.sblock.sig == signature_01) && not (fs.sblock.sig == signature_02)
    set_inotab need_storage_opts
    fs' ← get
    set_state (record fs' { storage_opts = if need_storage_opts then fs'.inotab.mode else 0 })
    if need_storage_opts then set_inotab false else return tt

  unfoldable pub load_rootdir : M (Unit {0})
  load_rootdir = do
    fs ← get
    rootdir ← read_special_inode fs.sblock.rootdir_offs fs.sblock.rootdir_size false
    set_state (record fs { rootdir = rootdir })

  unfoldable pub load_blktab : M (Unit {0})
  load_blktab = do
    fs ← get
    set_state (record fs { rootdir = patch_rootdir fs.sblock.sig fs.rootdir })
    forget_blktab decode
    reread_blktab decode

  unfoldable pub reread_superblock : M (Unit {0})
  reread_superblock = do
    load_superblock
    load_inotab
    load_rootdir
    load_blktab
    reread_fblktab
    fs ← get
    let found : List Fblock → M (Unit {0}) =
        λ tab. elim tab [ [] ↦ raise einval | f ∷ fs ↦ return tt ]
    found fs.fblktab

  unfoldable pub initialize : M (Unit {0})
  initialize = reread_superblock
