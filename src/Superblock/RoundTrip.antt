-- ===== src/Superblock/RoundTrip.antt =====
-- Writing a superblock whose offsets were set, and reading it back.
use cromfs.Base.{◌+◌, ◌<◌, ◌^◌, ◌≡◌, inl, inr, refl, ap, ◌∙◌, Bool-cases, true, false}
use cromfs.Base.{length, drop, leb, ok, if◌then◌else◌, [], arith, ◌>>=◌}
use cromfs.Base.Bytes.{Bytes, write_start}
use cromfs.Superblock.{Superblock, recalc_room, set_offsets, write_to_buffer, read_from_buffer}
use cromfs.Superblock.{signature_03, get_size, max_buffer_size, sizes_from_rooms}
use cromfs.Superblock.Layout.{fixed_bytes, size_bytes, fixed_part, FitsFields, write_fixed_part_lem}
use cromfs.Superblock.Layout.{write_sizes_lem, read_fixed_part_lem, read_sizes_lem}

-- The object after `RecalcRoom` and the three assignments behind it.
rooms_lem :
    (sb : Superblock)
    → recalc_room sb ≡ sb
    → sizes_from_rooms (recalc_room (fixed_part sb)) ≡ sizes_from_rooms sb
rooms_lem sb rooms = same ∙ ap sizes_from_rooms rooms
  where
    same : sizes_from_rooms (recalc_room (fixed_part sb)) ≡ sizes_from_rooms (recalc_room sb)
    same = unfold sizes_from_rooms recalc_room in refl

get_size_lem :
    (sb : Superblock)
    → sb.sig ≡ signature_03
    → get_size (sizes_from_rooms sb) ≡ (if leb 0x50 sb.rootdir_offs then 0x50 else 0x38)
unfolding get_size sizes_from_rooms
get_size_lem sb new = rw new

-- A superblock in the extended form: all sizes are stored.
extended :
    (sb : Superblock) (buf : Bytes)
    → length buf ≡ 0x50
    → FitsFields sb
    → sb.sig ≡ signature_03
    → recalc_room sb ≡ sb
    → leb 0x50 sb.rootdir_offs ≡ true
    → (write_to_buffer sb buf >>= read_from_buffer) ≡ ok sb
unfolding write_to_buffer read_from_buffer
extended sb buf len fits new rooms big = ap (λ r. r >>= read_from_buffer) written ∙ read_back
  where
    written : write_to_buffer sb buf ≡ ok (fixed_bytes sb (size_bytes sb []))
    written = rw big (write_sizes_lem sb buf len)

    read_back : read_from_buffer (fixed_bytes sb (size_bytes sb [])) ≡ ok sb
    read_back =
        rw
          (
            read_fixed_part_lem sb (size_bytes sb []) fits,
            rooms_lem sb rooms,
            get_size_lem sb new,
            big,
            read_sizes_lem sb (sizes_from_rooms sb) fits,
          )
          (unfold sizes_from_rooms in refl)

-- A superblock in the short form: the sizes are the rooms.
short :
    (sb : Superblock) (buf : Bytes)
    → length buf ≡ 0x50
    → FitsFields sb
    → sb.sig ≡ signature_03
    → recalc_room sb ≡ sb
    → leb 0x50 sb.rootdir_offs ≡ false
    → sizes_from_rooms sb ≡ sb
    → (write_to_buffer sb buf >>= read_from_buffer) ≡ ok sb
unfolding write_to_buffer read_from_buffer
short sb buf len fits new rooms small sizes = ap (λ r. r >>= read_from_buffer) written ∙ read_back
  where
    rest : Bytes
    rest = drop 0x38 buf

    written : write_to_buffer sb buf ≡ ok (fixed_bytes sb rest)
    written =
        rw (small, write_fixed_part_lem sb buf (omega arith))
          (ap ok (write_start buf (fixed_bytes sb []) (omega arith)))

    read_back : read_from_buffer (fixed_bytes sb rest) ≡ ok sb
    read_back =
        rw (read_fixed_part_lem sb rest fits, rooms_lem sb rooms, get_size_lem sb new, small)
          (ap ok sizes)

-- What the code that makes a filesystem provides: the rooms of the three tables fit the 64-bit
-- offsets behind the longest header, and the other numbers fit their fields.
pub record IsPlaceable (sb : Superblock) : Type 0 where
  pub total : 0x50 + sb.rootdir_room + sb.inotab_room + sb.blktab_room < 2 ^ 64
  pub rootdir_size : sb.rootdir_size < 2 ^ 64
  pub inotab_size : sb.inotab_size < 2 ^ 64
  pub blktab_size : sb.blktab_size < 2 ^ 64
  pub fsize : sb.fsize < 2 ^ 32
  pub bsize : sb.bsize < 2 ^ 32
  pub bytes_of_files : sb.bytes_of_files < 2 ^ 64
  pub new : sb.sig ≡ signature_03

pub set_offsets_sig : (sb : Superblock) → (set_offsets sb).sig ≡ sb.sig
unfolding set_offsets
set_offsets_sig sb = refl

set_offsets-FitsFields : (sb : Superblock) → IsPlaceable sb → FitsFields (set_offsets sb)
unfolding set_offsets
set_offsets-FitsFields sb h = ground arith

recalc_room-set_offsets :
    (sb : Superblock) → IsPlaceable sb → recalc_room (set_offsets sb) ≡ set_offsets sb
unfolding set_offsets recalc_room
recalc_room-set_offsets sb h = ground arith

set_offsets_short :
    (sb : Superblock)
    → leb 0x50 (set_offsets sb).rootdir_offs ≡ false
    → sizes_from_rooms (set_offsets sb) ≡ set_offsets sb
unfolding set_offsets sizes_from_rooms
set_offsets_short sb small = ground arith

-- For a new superblock whose rooms and other numbers fit, the offsets that `SetOffsets` chooses,
-- with the rooms and the sizes, survive `WriteToBuffer` and `ReadFromBuffer`, in the short header
-- if every size is its room and in the extended one if not.
pub read_from_buffer-write_to_buffer :
    (sb : Superblock) (buf : Bytes)
    → length buf ≡ max_buffer_size
    → IsPlaceable sb
    → (write_to_buffer (set_offsets sb) buf >>= read_from_buffer) ≡ ok (set_offsets sb)
read_from_buffer-write_to_buffer sb buf len h =
    elim (Bool-cases (leb 0x50 (set_offsets sb).rootdir_offs)) [
      | inl big ↦ extended (set_offsets sb) buf len fits new rooms big
      | inr small ↦ short (set_offsets sb) buf len fits new rooms small (set_offsets_short sb small)
    ]
  where
    fits : FitsFields (set_offsets sb)
    fits = set_offsets-FitsFields sb h

    new : (set_offsets sb).sig ≡ signature_03
    new = unfold set_offsets in h.new

    rooms : recalc_room (set_offsets sb) ≡ set_offsets sb
    rooms = recalc_room-set_offsets sb h
