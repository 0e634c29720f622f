-- ===== src/Directory.antt =====
-- lib/cromfs-directoryfun.cc: the size and the encoded form of a directory.
pub mod Layout
pub mod Entries
pub mod Names
pub mod Places
mod Tests
use cromfs.Base.{
  ℕ, ◌+◌, ◌-◌, ◌*◌, ◌%◌, ◌^◌, List, [], ◌∷◌, ◌++◌, length, take, replicate, Result, ok, ◌>>=◌,
}
use cromfs.Base.Bytes.{Bytes, memcpy}
use cromfs.Endian.{put_32, put_64}
use cromfs.Format.{DirInfo}

-- The loop of `calc_encoded_directory_size`, on 64 bits.
pub sum_sizes : DirInfo → ℕ → ℕ
sum_sizes [] result = result
sum_sizes ((name, ino) ∷ rest) result =
    sum_sizes rest ((result + (4 + 8 + 1 + length name)) % 2 ^ 64)

pub calc_encoded_directory_size : DirInfo → ℕ
calc_encoded_directory_size dir = sum_sizes dir 4

-- `xs.resize(n)`
pub resize : Bytes → ℕ → Bytes
resize xs n = take n xs ++ replicate (n - length xs) 0

-- A round of `encode_directory`: an address behind `result`, a name behind `entries`. Offsets have
-- 32 bits.
pub put_entry : ℕ → ℕ → Bytes → ℕ → Bytes × Bytes → Result (Bytes × Bytes)
put_entry entrytableoffs diroffset name ino (result, entries) =
    let entryoffs = length entries % 2 ^ 32 in
    let room = resize entries ((entryoffs + 8) % 2 ^ 32 + length name + 1) in
    put_32 result ((4 + diroffset * 4) % 2 ^ 32) ((entrytableoffs + entryoffs) % 2 ^ 32)
    >>= λ result'. put_64 room entryoffs ino >>= λ with_ino.
        memcpy with_ino ((entryoffs + 8) % 2 ^ 32) (name ++ (0 ∷ [])) >>= λ entries'.
        ok (result', entries')

pub put_entries : ℕ → ℕ → DirInfo → Bytes × Bytes → Result (Bytes × Bytes)
put_entries entrytableoffs diroffset [] bufs = ok bufs
put_entries entrytableoffs diroffset ((name, ino) ∷ rest) bufs =
    put_entry entrytableoffs diroffset name ino bufs >>= λ bufs'.
    put_entries entrytableoffs ((diroffset + 1) % 2 ^ 32) rest bufs'

pub encode_directory : DirInfo → Result Bytes
encode_directory dir =
    let size = 4 + 4 * length dir in
    put_32 (replicate size 0) 0 (length dir) >>= λ result.
    put_entries (size % 2 ^ 32) 0 dir (result, []) >>= λ bufs. ok (bufs.0 ++ bufs.1)
