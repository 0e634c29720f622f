-- ===== src/Directory/Tests.antt =====
-- lib/cromfs-directoryfun.cc at a small directory.
use cromfs.Base.{ℕ, ◌≡◌, refl, [], ◌∷◌, length, ok, arith}
use cromfs.Base.{◌+◌, ◌*◌, take, drop}
use cromfs.Base.Bytes.{Bytes}
use cromfs.Endian.{get_32, get_64}
use cromfs.Format.{DirInfo}
use cromfs.Directory.Entries.{encode_directory-entry}
use cromfs.Directory.{calc_encoded_directory_size, encode_directory}
use cromfs.Directory.Layout.{directory_bytes, entry_bytes, names, addresses, encode_directory_lem}

-- The names "a" and "bc".
abbrev two_files : DirInfo
two_files = (97 ∷ [], 2) ∷ ((98 ∷ 99 ∷ [], 300) ∷ [])

two_files-length : length (directory_bytes two_files) ≡ 33
unfolding directory_bytes names addresses entry_bytes
two_files-length = refl

encode_directory_lem_example :
    (encode_directory two_files ≡ ok (directory_bytes two_files))
    × (calc_encoded_directory_size two_files ≡ length (directory_bytes two_files))
encode_directory_lem_example = encode_directory_lem two_files (omega (arith, two_files-length))

encode_directory-entry_example :
    (bytes : Bytes) × (offset : ℕ) × (encode_directory two_files ≡ ok bytes)
    × (get_32 bytes (4 + 4 * 1) ≡ ok offset)
    × (get_64 bytes offset ≡ ok 300)
    × (take (2 + 1) (drop (offset + 8) bytes) ≡ 98 ∷ 99 ∷ 0 ∷ [])
encode_directory-entry_example =
    encode_directory-entry ((97 ∷ [], 2) ∷ []) (98 ∷ 99 ∷ []) 300 []
      (omega (arith, two_files-length)) (omega arith)
