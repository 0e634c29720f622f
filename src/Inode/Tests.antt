-- ===== src/Inode/Tests.antt =====
-- lib/cromfs-inodefun.cc at concrete inodes.
use cromfs.Base.{
  ◌+◌, ◌*◌, ◌%◌, ◌≤◌, ◌<◌, ◌≡◌, inl, refl, length, ok, throw, eio, [], ◌∷◌, arith, ◌>>=◌, ℕ,
}
use cromfs.Base.{take}
use cromfs.Base.Bytes.{Bytes}
use cromfs.Format.{inode_size_bytes}
use cromfs.Inode.{Inode, new_inode, get_inode_size, get_inode_offset, get_first_free_inode_number}
use cromfs.Inode.{
  calc_size_in_blocks, encode_inode, get_inode_and_blocks, increment_inode_linkcount,
}
use cromfs.Inode.Sizes.{get_inode_size_bounds, get_inode_offset-get_first_free_inode_number}
use cromfs.Inode.Sizes.{calc_size_in_blocks_least}
use cromfs.Inode.Layout.{FitsFields}
use cromfs.Inode.RoundTrip.{IsStorable, get_inode-encode_inode, get_inode_truncated}
use cromfs.Inode.Links.{more_links, increment_inode_linkcount-encode_inode}

-- A file of 5000 bytes in two blocks of 4096, with 16-bit block numbers and stored block sizes.
abbrev file : Inode
file = record {
  mode = 0o100644;
  time = 1300000000;
  links = 2;
  rdev = 0;
  uid = 1000;
  gid = 100;
  bytesize = 5000;
  blocksize = 4096;
  blocklist = 7 ∷ 513 ∷ [];
}

abbrev opts : ℕ
opts = 0xa00

file-FitsFields : FitsFields file
file-FitsFields = omega arith

file-IsStorable : IsStorable file opts 65536
unfolding calc_size_in_blocks inode_size_bytes
file-IsStorable = record {
  fits = file-FitsFields;
  links = λ e. cc;
  rdev = λ e. refl;
  blocksize = λ e. cc;
  nblocks = refl;
  blocks = omega arith;
  size = omega arith;
}

get_inode_size_bounds_example :
    (get_inode_size file opts % 4 ≡ 0)
    × (inode_size_bytes opts 2 ≤ get_inode_size file opts)
    × (get_inode_size file opts < inode_size_bytes opts 2 + 4)
unfolding inode_size_bytes
get_inode_size_bounds_example = get_inode_size_bounds file opts (omega arith)

get_inode_offset-get_first_free_inode_number_example :
    (13 ≤ get_inode_offset (get_first_free_inode_number 13))
    × (get_inode_offset (get_first_free_inode_number 13) < 13 + 4)
    × (get_inode_offset (
          get_first_free_inode_number
            (get_inode_offset (get_first_free_inode_number 13) + get_inode_size file opts))
        ≡ get_inode_offset (get_first_free_inode_number 13) + get_inode_size file opts)
unfolding inode_size_bytes
get_inode_offset-get_first_free_inode_number_example =
    get_inode_offset-get_first_free_inode_number 13 file opts (omega arith)

calc_size_in_blocks_least_example :
    (n : ℕ) × (calc_size_in_blocks 5000 4096 ≡ ok n)
    × (5000 ≤ n * 4096)
    × ((m : ℕ) → 5000 ≤ m * 4096 → n ≤ m)
calc_size_in_blocks_least_example = calc_size_in_blocks_least 5000 4096 (omega arith) (omega arith)

get_inode-encode_inode_example :
    (inodata : Bytes) × (encode_inode file opts ≡ ok inodata)
    × (length inodata ≡ get_inode_size file opts)
    × (get_inode_and_blocks inodata 0 new_inode opts 65536 ≡ ok file)
get_inode-encode_inode_example =
    get_inode-encode_inode file new_inode opts 65536 0 file-IsStorable (inl refl)

get_inode_truncated_example :
    (encode_inode file opts >>= λ inodata.
    get_inode_and_blocks (take 31 inodata) 31 new_inode opts 65536)
    ≡ throw eio
unfolding inode_size_bytes
get_inode_truncated_example =
    get_inode_truncated file new_inode opts 65536 31 file-IsStorable (omega arith) (omega arith)

increment_inode_linkcount-encode_inode_example :
    (encode_inode file opts >>= λ inodata. increment_inode_linkcount inodata 5)
    ≡ encode_inode (more_links file 5) opts
unfolding inode_size_bytes
increment_inode_linkcount-encode_inode_example =
    increment_inode_linkcount-encode_inode file opts 5 file-FitsFields (omega arith)
