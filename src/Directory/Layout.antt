-- ===== src/Directory/Layout.antt =====
-- The bytes of an encoded directory.
use mathlib.Core.List.{append-nil, append_assoc}
use cromfs.Base.{ℕ, ◌+◌, ◌-◌, ◌*◌, ◌%◌, ◌^◌, ◌≤◌, ◌<◌, ◌≡◌, refl, sym, ap, ◌∙◌, arith}
use cromfs.Base.{[], ◌∷◌, ◌++◌, length, length-append, replicate, length-replicate, ok}
use cromfs.Base.Bytes.{
  Bytes, le_bytes, length-le_bytes, write, length-write, write-write, write-append, write_all,
  memcpy-write,
}
use cromfs.Endian.{put_32}
use cromfs.Endian.Put.{put_32-write, put_64-write}
use cromfs.Format.{DirInfo}
use cromfs.Directory.{
  sum_sizes, calc_encoded_directory_size, resize, put_entry, put_entries, encode_directory,
}
use cromfs.Base.{ap₂}
use cromfs.Base.Access.{take_all}

-- STRUCT ENTRY: the inode number, the name and a nul byte.
unfoldable pub entry_bytes : Bytes → ℕ → Bytes
entry_bytes name ino = le_bytes 8 ino ++ (name ++ (0 ∷ []))

unfoldable pub names : DirInfo → Bytes
names [] = []
names ((name, ino) ∷ rest) = entry_bytes name ino ++ names rest

-- The address of each entry, of which the first stands at `offset`.
unfoldable pub addresses : ℕ → DirInfo → Bytes
addresses offset [] = []
addresses offset ((name, ino) ∷ rest) =
    le_bytes 4 offset ++ addresses (offset + length (entry_bytes name ino)) rest

unfoldable pub directory_bytes : DirInfo → Bytes
directory_bytes dir = le_bytes 4 (length dir) ++ (addresses (4 + 4 * length dir) dir ++ names dir)

pub length-entry_bytes : (name : Bytes) (ino : ℕ) → length (entry_bytes name ino) ≡ 9 + length name
unfolding entry_bytes
length-entry_bytes name ino =
    length-append (le_bytes 8 ino) (name ++ (0 ∷ []))
    ∙ omega (arith, length-append name (0 ∷ []), length-le_bytes 8 ino)

pub length-addresses : (offset : ℕ) (dir : DirInfo) → length (addresses offset dir) ≡ 4 * length dir
unfolding addresses
length-addresses offset [] = omega arith
length-addresses offset ((name, ino) ∷ rest) =
    length-append (le_bytes 4 offset) (addresses (offset + length (entry_bytes name ino)) rest)
    ∙ omega (
      arith,
      length-le_bytes 4 offset,
      length-addresses (offset + length (entry_bytes name ino)) rest,
    )

-- The name buffer after a round.
entry-write :
    (xs zeros bytes : Bytes)
    → length zeros ≡ length bytes
    → write (xs ++ zeros) (length xs) bytes ≡ xs ++ bytes
entry-write xs zeros bytes e =
    let at : length xs ≡ length xs + 0 = omega arith in
    ap (λ t. write (xs ++ zeros) t bytes) at
    ∙ (write-append xs zeros 0 bytes ∙ ap (λ t. xs ++ t) (write_all zeros bytes (sym e)))

put_entry_lem :
    (base d : ℕ) (name : Bytes) (ino : ℕ) (buf done xs : Bytes)
    → length done ≡ 4 + d * 4
    → length done + 4 ≤ length buf
    → length done < 2 ^ 32
    → base + length xs + 9 + length name < 2 ^ 32
    → put_entry base d name ino (write buf 0 done, xs)
      ≡ ok (write buf 0 (done ++ le_bytes 4 (base + length xs)), xs ++ entry_bytes name ino)
put_entry_lem base d name ino buf done xs len room small fits =
    let size = length xs + 8 + length name + 1 in
    let off : length xs % 2 ^ 32 ≡ length xs = omega arith in
    let off8 : (length xs + 8) % 2 ^ 32 ≡ length xs + 8 = omega arith in
    let at : (4 + d * 4) % 2 ^ 32 ≡ length done = omega arith in
    let address : (base + length xs) % 2 ^ 32 ≡ base + length xs = omega arith in
    let zeros : Bytes = replicate (size - length xs) 0 in
    let n_zeros : length zeros ≡ 9 + length name =
      length-replicate (size - length xs) 0 ∙ omega arith in
    let resized : resize xs size ≡ xs ++ zeros =
      unfold resize in ap (λ t. t ++ zeros) (take_all size xs (omega arith)) in
    let room_len : length (xs ++ zeros) ≡ size = length-append xs zeros ∙ omega arith in
    let name_len : length (name ++ (0 ∷ [])) ≡ length name + 1 = length-append name (0 ∷ []) in
    let first : put_32 (write buf 0 done) (length done) (base + length xs)
        ≡ ok (write buf 0 (done ++ le_bytes 4 (base + length xs))) =
      put_32-write (write buf 0 done) (length done) (base + length xs)
        (omega (arith, length-write buf 0 done))
      ∙ ap ok
          (write-write buf 0 (length done) done (le_bytes 4 (base + length xs)) (omega arith)) in
    let second = put_64-write (xs ++ zeros) (length xs) ino (omega arith) in
    let with_ino : Bytes = write (xs ++ zeros) (length xs) (le_bytes 8 ino) in
    let ino_len : length with_ino ≡ size =
      length-write (xs ++ zeros) (length xs) (le_bytes 8 ino) ∙ room_len in
    let third = memcpy-write with_ino (length xs + 8) (name ++ (0 ∷ [])) (omega arith) in
    let fourth : write with_ino (length xs + 8) (name ++ (0 ∷ [])) ≡ xs ++ entry_bytes name ino =
      unfold entry_bytes in
      write-write (xs ++ zeros) (length xs) (length xs + 8) (le_bytes 8 ino) (name ++ (0 ∷ []))
        (omega (arith, length-le_bytes 8 ino))
      ∙ entry-write xs zeros (le_bytes 8 ino ++ (name ++ (0 ∷ [])))
          (n_zeros ∙ sym (length-entry_bytes name ino)) in
    unfold put_entry in
    rw (put_entry, off, off8, at, address, resized, first, second, third, fourth)

put_entries_step :
    (base d : ℕ) (name : Bytes) (ino : ℕ) (rest : DirInfo) (bufs bufs' : Bytes × Bytes)
    → put_entry base d name ino bufs ≡ ok bufs'
    → (d + 1) % 2 ^ 32 ≡ d + 1
    → put_entries base d ((name, ino) ∷ rest) bufs ≡ put_entries base (d + 1) rest bufs'
put_entries_step base d name ino rest bufs bufs' first next =
    unfold put_entries in rw (put_entries, first, next)

put_entries_lem :
    (base d : ℕ) (dir : DirInfo) (buf done xs : Bytes)
    → length done ≡ 4 + d * 4
    → length done + 4 * length dir ≤ length buf
    → length buf < 2 ^ 32
    → base + length xs + length (names dir) < 2 ^ 32
    → put_entries base d dir (write buf 0 done, xs)
      ≡ ok (write buf 0 (done ++ addresses (base + length xs) dir), xs ++ names dir)
put_entries_lem base d [] buf done xs len room small fits =
    unfold put_entries names addresses in
    ap₂ (λ l r. ok (write buf 0 l, r)) (sym (append-nil done)) (sym (append-nil xs))
put_entries_lem base d ((name, ino) ∷ rest) buf done xs len room small fits =
    let names_len : length (names ((name, ino) ∷ rest)) ≡ 9 + length name + length (names rest) =
      unfold names in
      length-append (entry_bytes name ino) (names rest)
      ∙ ap (λ n. n + length (names rest)) (length-entry_bytes name ino) in
    let done' : Bytes = done ++ le_bytes 4 (base + length xs) in
    let xs' : Bytes = xs ++ entry_bytes name ino in
    let len' : length done' ≡ 4 + (d + 1) * 4 =
      length-append done (le_bytes 4 (base + length xs))
      ∙ omega (arith, length-le_bytes 4 (base + length xs)) in
    let xs_len : length xs' ≡ length xs + (9 + length name) =
      length-append xs (entry_bytes name ino)
      ∙ ap (λ n. length xs + n) (length-entry_bytes name ino) in
    let next : base + length xs' ≡ base + length xs + length (entry_bytes name ino) =
      omega (arith, length-append xs (entry_bytes name ino)) in
    let joined_addresses : done' ++ addresses (base + length xs') rest
        ≡ done ++ addresses (base + length xs) ((name, ino) ∷ rest) =
      unfold addresses in
      append_assoc done (le_bytes 4 (base + length xs)) (addresses (base + length xs') rest)
      ∙ ap (λ o. done ++ (le_bytes 4 (base + length xs) ++ addresses o rest)) next in
    let joined_names : xs' ++ names rest ≡ xs ++ names ((name, ino) ∷ rest) =
      unfold names in append_assoc xs (entry_bytes name ino) (names rest) in
    put_entries_step base d name ino rest (write buf 0 done, xs) (write buf 0 done', xs')
      (put_entry_lem base d name ino buf done xs len (omega arith) (omega arith) (omega arith))
      (omega arith)
    ∙ (put_entries_lem base (d + 1) rest buf done' xs' len' (omega arith) small (omega arith)
        ∙ ap₂ (λ l r. ok (write buf 0 l, r)) joined_addresses joined_names)

sum_sizes_step :
    (name : Bytes) (ino : ℕ) (rest : DirInfo) (result : ℕ)
    → sum_sizes ((name, ino) ∷ rest) result
      ≡ sum_sizes rest ((result + (4 + 8 + 1 + length name)) % 2 ^ 64)
unfolding sum_sizes
sum_sizes_step name ino rest result = refl

sum_sizes_lem :
    (dir : DirInfo) (result : ℕ)
    → result + 4 * length dir + length (names dir) < 2 ^ 64
    → sum_sizes dir result ≡ result + 4 * length dir + length (names dir)
sum_sizes_lem [] result fits = unfold sum_sizes names in omega arith
sum_sizes_lem ((name, ino) ∷ rest) result fits =
    let names_len : length (names ((name, ino) ∷ rest)) ≡ 9 + length name + length (names rest) =
      unfold names in
      length-append (entry_bytes name ino) (names rest)
      ∙ ap (λ n. n + length (names rest)) (length-entry_bytes name ino) in
    let more : (result + (4 + 8 + 1 + length name)) % 2 ^ 64 ≡ result + (13 + length name) =
      omega arith in
    sum_sizes_step name ino rest result
    ∙ ap (sum_sizes rest) more
    ∙ (sum_sizes_lem rest (result + (13 + length name)) (omega arith) ∙ omega arith)

pub length-directory_bytes :
    (dir : DirInfo) → length (directory_bytes dir) ≡ 4 + 4 * length dir + length (names dir)
unfolding directory_bytes
length-directory_bytes dir =
    length-append (le_bytes 4 (length dir)) (addresses (4 + 4 * length dir) dir ++ names dir)
    ∙ omega (
      arith,
      length-le_bytes 4 (length dir),
      length-append (addresses (4 + 4 * length dir) dir) (names dir),
      length-addresses (4 + 4 * length dir) dir,
    )

calc_encoded_directory_size_lem :
    (dir : DirInfo)
    → 4 + 4 * length dir + length (names dir) < 2 ^ 64
    → calc_encoded_directory_size dir ≡ 4 + 4 * length dir + length (names dir)
unfolding calc_encoded_directory_size
calc_encoded_directory_size_lem dir fits = sum_sizes_lem dir 4 fits

-- A directory whose encoded form has less than 2 ^ 32 bytes is encoded as the number of its entries,
-- the address of each entry, and the entries: inode number, name, nul byte. No write falls outside
-- a buffer, and `calc_encoded_directory_size` foretells the size.
pub encode_directory_lem :
    (dir : DirInfo)
    → length (directory_bytes dir) < 2 ^ 32
    → (encode_directory dir ≡ ok (directory_bytes dir))
      × (calc_encoded_directory_size dir ≡ length (directory_bytes dir))
encode_directory_lem dir fits =
    let total = length-directory_bytes dir in
    let size = 4 + 4 * length dir in
    let start : Bytes = replicate size 0 in
    let start_len : length start ≡ size = length-replicate size 0 in
    let low : size % 2 ^ 32 ≡ size = omega arith in
    let count : Bytes = le_bytes 4 (length dir) in
    let first = put_32-write start 0 (length dir) (omega arith) in
    let others =
      put_entries_lem size 0 dir start count [] (length-le_bytes 4 (length dir)) (omega arith)
        (omega arith) (omega arith) in
    let base : size + 0 ≡ size = omega arith in
    let whole : write start 0 (count ++ addresses (size + 0) dir) ≡ count ++ addresses size dir =
      ap (λ o. write start 0 (count ++ addresses o dir)) base
      ∙ write_all start (count ++ addresses size dir) (
          length-append count (addresses size dir)
          ∙ omega (arith, length-addresses size dir, length-le_bytes 4 (length dir))) in
    (
      (unfold encode_directory directory_bytes in
          rw (encode_directory, first, low, others, whole)
            (ap ok (append_assoc count (addresses size dir) (names dir)))),
      calc_encoded_directory_size_lem dir (omega arith) ∙ sym total,
    )
