-- ===== src/Superblock/Layout.antt =====
-- The bytes of a superblock.
use cromfs.Base.{◌≤◌, ◌<◌, ◌^◌, ◌≡◌, refl, sym, ap, length, ok, ◌++◌, [], arith}
use cromfs.Base.{◌>>=◌}
use cromfs.Base.Bytes.{Bytes, le_bytes, write, write_all}
use cromfs.Endian.Get.{get_32_at, get_64_at}
use cromfs.Endian.Put.{put_64-write, put_32_next, put_64_next}
use cromfs.Superblock.{Superblock, read_fixed_part, read_sizes, write_fixed_part, write_sizes}

-- The 0x38 bytes that every superblock has.
abbrev pub fixed_bytes : Superblock → Bytes → Bytes
fixed_bytes sb rest =
    le_bytes 8 sb.sig
    ++ (le_bytes 8 sb.blktab_offs
        ++ (le_bytes 8 sb.fblktab_offs
            ++ (le_bytes 8 sb.inotab_offs
                ++ (le_bytes 8 sb.rootdir_offs
                    ++ (le_bytes 4 sb.fsize
                        ++ (le_bytes 4 sb.bsize ++ (le_bytes 8 sb.bytes_of_files ++ rest)))))))

-- The 0x18 bytes of the extended header.
abbrev pub size_bytes : Superblock → Bytes → Bytes
size_bytes sb rest =
    le_bytes 8 sb.rootdir_size ++ (le_bytes 8 sb.inotab_size ++ (le_bytes 8 sb.blktab_size ++ rest))

pub write_fixed_part_lem :
    (sb : Superblock) (buf : Bytes)
    → 0x38 ≤ length buf
    → write_fixed_part sb buf ≡ ok (write buf 0 (fixed_bytes sb []))
unfolding write_fixed_part
write_fixed_part_lem sb buf h =
    let x1 : Bytes = le_bytes 8 sb.sig in
    let x2 : Bytes = x1 ++ le_bytes 8 sb.blktab_offs in
    let x3 : Bytes = x2 ++ le_bytes 8 sb.fblktab_offs in
    let x4 : Bytes = x3 ++ le_bytes 8 sb.inotab_offs in
    let x5 : Bytes = x4 ++ le_bytes 8 sb.rootdir_offs in
    let x6 : Bytes = x5 ++ le_bytes 4 sb.fsize in
    let x7 : Bytes = x6 ++ le_bytes 4 sb.bsize in
    rw
      (
        put_64-write buf 0x00 sb.sig (omega arith),
        put_64_next buf x1 0x08 sb.blktab_offs refl (omega arith),
        put_64_next buf x2 0x10 sb.fblktab_offs refl (omega arith),
        put_64_next buf x3 0x18 sb.inotab_offs refl (omega arith),
        put_64_next buf x4 0x20 sb.rootdir_offs refl (omega arith),
        put_32_next buf x5 0x28 sb.fsize refl (omega arith),
        put_32_next buf x6 0x2c sb.bsize refl (omega arith),
        put_64_next buf x7 0x30 sb.bytes_of_files refl (omega arith),
      )
      refl

pub write_sizes_lem :
    (sb : Superblock) (buf : Bytes)
    → length buf ≡ 0x50
    → (write_fixed_part sb buf >>= write_sizes sb) ≡ ok (fixed_bytes sb (size_bytes sb []))
unfolding write_sizes
write_sizes_lem sb buf h =
    let x1 : Bytes = fixed_bytes sb [] in
    let x2 : Bytes = x1 ++ le_bytes 8 sb.rootdir_size in
    let x3 : Bytes = x2 ++ le_bytes 8 sb.inotab_size in
    rw
      (
        write_fixed_part_lem sb buf (omega arith),
        put_64_next buf x1 0x38 sb.rootdir_size refl (omega arith),
        put_64_next buf x2 0x40 sb.inotab_size refl (omega arith),
        put_64_next buf x3 0x48 sb.blktab_size refl (omega arith),
      )
      (ap ok (write_all buf (fixed_bytes sb (size_bytes sb [])) (sym h)))

-- The numbers of a superblock fit their fields.
pub record FitsFields (sb : Superblock) : Type 0 where
  pub sig : sb.sig < 2 ^ 64
  pub blktab_offs : sb.blktab_offs < 2 ^ 64
  pub fblktab_offs : sb.fblktab_offs < 2 ^ 64
  pub inotab_offs : sb.inotab_offs < 2 ^ 64
  pub rootdir_offs : sb.rootdir_offs < 2 ^ 64
  pub rootdir_size : sb.rootdir_size < 2 ^ 64
  pub inotab_size : sb.inotab_size < 2 ^ 64
  pub blktab_size : sb.blktab_size < 2 ^ 64
  pub fsize : sb.fsize < 2 ^ 32
  pub bsize : sb.bsize < 2 ^ 32
  pub bytes_of_files : sb.bytes_of_files < 2 ^ 64

-- The object as `read_fixed_part` leaves it.
abbrev pub fixed_part : Superblock → Superblock
fixed_part sb = record sb {
  blktab_size = 0;
  blktab_room = 0;
  inotab_size = 0;
  inotab_room = 0;
  rootdir_size = 0;
  rootdir_room = 0;
}

pub read_fixed_part_lem :
    (sb : Superblock) (rest : Bytes)
    → FitsFields sb
    → read_fixed_part (fixed_bytes sb rest) ≡ ok (fixed_part sb)
unfolding read_fixed_part
read_fixed_part_lem sb rest fits =
    let after_bsize : Bytes = le_bytes 8 sb.bytes_of_files ++ rest in
    let after_fsize : Bytes = le_bytes 4 sb.bsize ++ after_bsize in
    let after_rootdir : Bytes = le_bytes 4 sb.fsize ++ after_fsize in
    let after_inotab : Bytes = le_bytes 8 sb.rootdir_offs ++ after_rootdir in
    let after_fblktab : Bytes = le_bytes 8 sb.inotab_offs ++ after_inotab in
    let after_blktab : Bytes = le_bytes 8 sb.fblktab_offs ++ after_fblktab in
    let x1 : Bytes = le_bytes 8 sb.sig in
    let x2 : Bytes = x1 ++ le_bytes 8 sb.blktab_offs in
    let x3 : Bytes = x2 ++ le_bytes 8 sb.fblktab_offs in
    let x4 : Bytes = x3 ++ le_bytes 8 sb.inotab_offs in
    let x5 : Bytes = x4 ++ le_bytes 8 sb.rootdir_offs in
    let x6 : Bytes = x5 ++ le_bytes 4 sb.fsize in
    let x7 : Bytes = x6 ++ le_bytes 4 sb.bsize in
    rw
      (
        get_64_at [] (le_bytes 8 sb.blktab_offs ++ after_blktab) 0x00 sb.sig refl fits.sig,
        get_64_at x1 after_blktab 0x08 sb.blktab_offs refl fits.blktab_offs,
        get_64_at x2 after_fblktab 0x10 sb.fblktab_offs refl fits.fblktab_offs,
        get_64_at x3 after_inotab 0x18 sb.inotab_offs refl fits.inotab_offs,
        get_64_at x4 after_rootdir 0x20 sb.rootdir_offs refl fits.rootdir_offs,
        get_32_at x5 after_fsize 0x28 sb.fsize refl fits.fsize,
        get_32_at x6 after_bsize 0x2c sb.bsize refl fits.bsize,
        get_64_at x7 rest 0x30 sb.bytes_of_files refl fits.bytes_of_files,
      )
      refl

pub read_sizes_lem :
    (sb other : Superblock)
    → FitsFields sb
    → read_sizes (fixed_bytes sb (size_bytes sb [])) other
      ≡ ok (record other {
        rootdir_size = sb.rootdir_size;
        inotab_size = sb.inotab_size;
        blktab_size = sb.blktab_size;
      })
unfolding read_sizes
read_sizes_lem sb other fits =
    let x1 : Bytes = fixed_bytes sb [] in
    let x2 : Bytes = x1 ++ le_bytes 8 sb.rootdir_size in
    let x3 : Bytes = x2 ++ le_bytes 8 sb.inotab_size in
    rw
      (
        get_64_at x1 (le_bytes 8 sb.inotab_size ++ le_bytes 8 sb.blktab_size) 0x38 sb.rootdir_size
            refl fits.rootdir_size,
        get_64_at x2 (le_bytes 8 sb.blktab_size) 0x40 sb.inotab_size refl fits.inotab_size,
        get_64_at x3 [] 0x48 sb.blktab_size refl fits.blktab_size,
      )
      refl
