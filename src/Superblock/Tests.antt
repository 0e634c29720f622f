-- ===== src/Superblock/Tests.antt =====
-- A superblock at concrete values.
use cromfs.Base.{◌≡◌, refl, replicate, ok, ◌>>=◌, arith}
use cromfs.Superblock.{Superblock, signature_01, signature_03, set_offsets, get_size}
use cromfs.Superblock.{write_to_buffer, read_from_buffer}
use cromfs.Superblock.RoundTrip.{read_from_buffer-write_to_buffer}
use cromfs.Base.{◌+◌}

-- The root directory has 10 bytes of room to spare, so the header is the extended one.
abbrev sample : Superblock
sample = record {
  blktab_offs = 0;
  blktab_size = 30;
  blktab_room = 30;
  fblktab_offs = 0;
  inotab_offs = 0;
  inotab_size = 100;
  inotab_room = 100;
  rootdir_offs = 0;
  rootdir_size = 50;
  rootdir_room = 60;
  fsize = 2097152;
  bsize = 65536;
  bytes_of_files = 123456;
  sig = signature_03;
}

sample_offsets : (set_offsets sample).fblktab_offs ≡ 0x50 + 60 + 100 + 30
unfolding set_offsets
sample_offsets = refl

old_size : get_size (record sample { sig = signature_01; rootdir_offs = 0x50 }) ≡ 0x38
unfolding get_size
old_size = refl

read_from_buffer-write_to_buffer_example :
    (write_to_buffer (set_offsets sample) (replicate 0x50 7) >>= read_from_buffer)
    ≡ ok (set_offsets sample)
read_from_buffer-write_to_buffer_example =
    read_from_buffer-write_to_buffer sample (replicate 0x50 7) refl (record {
      total = omega arith;
      rootdir_size = omega arith;
      inotab_size = omega arith;
      blktab_size = omega arith;
      fsize = omega arith;
      bsize = omega arith;
      bytes_of_files = omega arith;
      new = refl;
    })
