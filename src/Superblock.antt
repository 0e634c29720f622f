-- ===== src/Superblock.antt =====
-- cromfs-defs.hh: `cromfs_superblock_internal`, and the signatures. The offsets, sizes and rooms
-- are 64-bit unsigned numbers.
pub mod Layout
pub mod RoundTrip
mod Tests
use cromfs.Base.{ℕ, ◌+◌, ◌-◌, ◌%◌, ◌^◌, Bool, not, ◌||◌, ltb, leb, ◌==◌, if◌then◌else◌}
use cromfs.Base.{Result, ok, ◌>>=◌}
use cromfs.Base.Bytes.{Bytes}
use cromfs.Endian.{get_32, get_64, put_32, put_64}

abbrev pub signature_01 : ℕ
signature_01 = 0x313053464d4f5243

abbrev pub signature_02 : ℕ
signature_02 = 0x323053464d4f5243

abbrev pub signature_03 : ℕ
signature_03 = 0x333053464d4f5243

pub record Superblock : Type 0 where
  pub blktab_offs : ℕ
  pub blktab_size : ℕ
  pub blktab_room : ℕ
  pub fblktab_offs : ℕ
  pub inotab_offs : ℕ
  pub inotab_size : ℕ
  pub inotab_room : ℕ
  pub rootdir_offs : ℕ
  pub rootdir_size : ℕ
  pub rootdir_room : ℕ
  pub fsize : ℕ
  pub bsize : ℕ
  pub bytes_of_files : ℕ
  pub sig : ℕ

abbrev pub max_buffer_size : ℕ
max_buffer_size = 0x50

-- uint64_t sums and differences.
abbrev add_64 : ℕ → ℕ → ℕ
add_64 a b = (a + b) % 2 ^ 64

abbrev sub_64 : ℕ → ℕ → ℕ
sub_64 a b = (a + 2 ^ 64 - b) % 2 ^ 64

pub recalc_room : Superblock → Superblock
recalc_room sb = record sb {
  rootdir_room = sub_64 sb.inotab_offs sb.rootdir_offs;
  inotab_room = sub_64 sb.blktab_offs sb.inotab_offs;
  blktab_room = sub_64 sb.fblktab_offs sb.blktab_offs;
}

unfoldable pub set_offsets_from : ℕ → Superblock → Superblock
set_offsets_from headersize sb =
    let inotab = add_64 headersize sb.rootdir_room in
    let blktab = add_64 inotab sb.inotab_room in
    record sb {
      rootdir_offs = headersize;
      inotab_offs = inotab;
      blktab_offs = blktab;
      fblktab_offs = add_64 blktab sb.blktab_room;
    }

unfoldable pub set_offsets_extended : Bool → Superblock → Superblock
unfolding set_offsets_from
set_offsets_extended extended_header sb =
    set_offsets_from (if extended_header then 0x50 else 0x38) sb

unfoldable pub set_offsets : Superblock → Superblock
unfolding set_offsets_extended
set_offsets sb =
    set_offsets_extended
      (not (sb.rootdir_size == sb.rootdir_room)
        || not (sb.inotab_size == sb.inotab_room)
        || not (sb.blktab_size == sb.blktab_room))
      sb

pub get_size_in_mode : Bool → Superblock → ℕ
get_size_in_mode sparse_mode sb =
    if (sb.sig == signature_01) || (sb.sig == signature_02)
    then 0x38
    else if sparse_mode
    then max_buffer_size
    else 0x38

pub get_size : Superblock → ℕ
unfolding get_size_in_mode
get_size sb = get_size_in_mode (leb 0x50 sb.rootdir_offs) sb

-- The fields read before `RecalcRoom`, in an object whose other fields are not read.
pub read_fixed_part : Bytes → Result Superblock
read_fixed_part buf = do
  sig ← get_64 buf 0x00
  blktab_offs ← get_64 buf 0x08
  fblktab_offs ← get_64 buf 0x10
  inotab_offs ← get_64 buf 0x18
  rootdir_offs ← get_64 buf 0x20
  fsize ← get_32 buf 0x28
  bsize ← get_32 buf 0x2c
  bytes_of_files ← get_64 buf 0x30
  ok (record {
    blktab_offs = blktab_offs;
    blktab_size = 0;
    blktab_room = 0;
    fblktab_offs = fblktab_offs;
    inotab_offs = inotab_offs;
    inotab_size = 0;
    inotab_room = 0;
    rootdir_offs = rootdir_offs;
    rootdir_size = 0;
    rootdir_room = 0;
    fsize = fsize;
    bsize = bsize;
    bytes_of_files = bytes_of_files;
    sig = sig;
  })

pub sizes_from_rooms : Superblock → Superblock
sizes_from_rooms sb = record sb {
  rootdir_size = sb.rootdir_room;
  inotab_size = sb.inotab_room;
  blktab_size = sb.blktab_room;
}

pub read_sizes : Bytes → Superblock → Result Superblock
read_sizes buf sb = do
  rootdir_size ← get_64 buf 0x38
  inotab_size ← get_64 buf 0x40
  blktab_size ← get_64 buf 0x48
  ok (record sb {
    rootdir_size = rootdir_size;
    inotab_size = inotab_size;
    blktab_size = blktab_size;
  })

pub read_from_buffer : Bytes → Result Superblock
unfolding recalc_room sizes_from_rooms get_size
read_from_buffer buf = do
  fixed ← read_fixed_part buf
  let sb = sizes_from_rooms (recalc_room fixed)
  if leb 0x50 (get_size sb) then read_sizes buf sb else ok sb

unfoldable pub write_fixed_part : Superblock → Bytes → Result Bytes
write_fixed_part sb buf = do
  buf ← put_64 buf 0x00 sb.sig
  buf ← put_64 buf 0x08 sb.blktab_offs
  buf ← put_64 buf 0x10 sb.fblktab_offs
  buf ← put_64 buf 0x18 sb.inotab_offs
  buf ← put_64 buf 0x20 sb.rootdir_offs
  buf ← put_32 buf 0x28 sb.fsize
  buf ← put_32 buf 0x2c sb.bsize
  put_64 buf 0x30 sb.bytes_of_files

pub write_sizes : Superblock → Bytes → Result Bytes
write_sizes sb buf = do
  buf ← put_64 buf 0x38 sb.rootdir_size
  buf ← put_64 buf 0x40 sb.inotab_size
  put_64 buf 0x48 sb.blktab_size

unfoldable pub write_to_buffer : Superblock → Bytes → Result Bytes
write_to_buffer sb buf = do
  buf ← write_fixed_part sb buf
  if leb 0x50 sb.rootdir_offs then write_sizes sb buf else ok buf
