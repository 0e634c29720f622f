-- ===== src/Directory/Entries.antt =====
-- What a reader of an encoded directory finds at the address of an entry.
use mathlib.Core.List.{append_assoc}
use cromfs.Base.{ℕ, ◌+◌, ◌*◌, ◌^◌, ◌≤◌, ◌<◌, ◌≡◌, refl, sym, ap, ◌∙◌, arith}
use cromfs.Base.{[], ◌∷◌, ◌++◌, length, length-append, take, drop, ok}
use cromfs.Base.Bytes.{Bytes, le_bytes, length-le_bytes}
use cromfs.Base.Access.{drop-append, take-append}
use cromfs.Endian.{get_32, get_64}
use cromfs.Endian.Get.{get_32_at, get_64_at}
use cromfs.Format.{DirInfo}
use cromfs.Directory.{encode_directory}
use cromfs.Directory.Layout.{
  entry_bytes, names, addresses, directory_bytes, length-addresses, length-directory_bytes,
  encode_directory_lem,
}

pub names-append : (front back : DirInfo) → names (front ++ back) ≡ names front ++ names back
unfolding names
names-append [] back = refl
names-append ((name, ino) ∷ rest) back =
    ap (λ t. entry_bytes name ino ++ t) (names-append rest back)
    ∙ sym (append_assoc (entry_bytes name ino) (names rest) (names back))

addresses-append :
    (offset : ℕ) (front back : DirInfo)
    → addresses offset (front ++ back)
      ≡ addresses offset front ++ addresses (offset + length (names front)) back
unfolding names addresses
addresses-append offset [] back = ap (λ o. addresses o back) (omega arith)
addresses-append offset ((name, ino) ∷ rest) back =
    let next : offset + length (entry_bytes name ino) + length (names rest)
        ≡ offset + length (entry_bytes name ino ++ names rest) =
      omega (arith, length-append (entry_bytes name ino) (names rest)) in
    ap (λ t. le_bytes 4 offset ++ t)
      (addresses-append (offset + length (entry_bytes name ino)) rest back
        ∙ ap (λ o. addresses (offset + length (entry_bytes name ino)) rest ++ addresses o back)
            next)
    ∙ sym (
        append_assoc (le_bytes 4 offset) (addresses (offset + length (entry_bytes name ino)) rest)
          (addresses (offset + length (entry_bytes name ino ++ names rest)) back))

reassoc_address : (c a l b n : Bytes) → c ++ ((a ++ (l ++ b)) ++ n) ≡ (c ++ a) ++ (l ++ (b ++ n))
reassoc_address c a l b n =
    ap (λ t. c ++ t) (append_assoc a (l ++ b) n ∙ ap (λ t. a ++ t) (append_assoc l b n))
    ∙ sym (append_assoc c a (l ++ (b ++ n)))

reassoc_entry :
    (c a n l m b : Bytes) → c ++ (a ++ (n ++ ((l ++ m) ++ b))) ≡ (c ++ (a ++ n)) ++ (l ++ (m ++ b))
reassoc_entry c a n l m b =
    ap (λ t. c ++ (a ++ (n ++ t))) (append_assoc l m b)
    ∙ (ap (λ t. c ++ t) (sym (append_assoc a n (l ++ (m ++ b))))
        ∙ sym (append_assoc c (a ++ n) (l ++ (m ++ b))))

module _ (front : DirInfo) (name : Bytes) (ino : ℕ) (back : DirInfo) where
  abbrev dir : DirInfo
  dir = front ++ ((name, ino) ∷ back)

  abbrev base : ℕ
  base = 4 + 4 * length dir

  abbrev address : ℕ
  address = base + length (names front)

  abbrev count : Bytes
  count = le_bytes 4 (length dir)

  -- The encoded directory, cut in front of the address of the entry.
  pub cut_address :
      directory_bytes dir
      ≡ (count ++ addresses base front)
        ++ (le_bytes 4 address
            ++ (addresses (address + length (entry_bytes name ino)) back ++ names dir))
  cut_address =
      unfold directory_bytes addresses in
      ap (λ t. count ++ (t ++ names dir)) (addresses-append base front ((name, ino) ∷ back))
      ∙ reassoc_address count (addresses base front) (le_bytes 4 address)
          (addresses (address + length (entry_bytes name ino)) back) (names dir)

  -- The encoded directory, cut in front of the entry.
  pub cut_entry :
      directory_bytes dir
      ≡ (count ++ (addresses base dir ++ names front))
        ++ (le_bytes 8 ino ++ ((name ++ (0 ∷ [])) ++ names back))
  cut_entry =
      unfold directory_bytes names entry_bytes in
      ap (λ t. count ++ (addresses base dir ++ t)) (names-append front ((name, ino) ∷ back))
      ∙ reassoc_entry count (addresses base dir) (names front) (le_bytes 8 ino) (name ++ (0 ∷ []))
          (names back)

  names_bound : length (names front) ≤ length (names dir)
  names_bound = omega (
    arith,
    ap (λ (t : Bytes). length t) (names-append front ((name, ino) ∷ back)),
    length-append (names front) (names ((name, ino) ∷ back)),
  )

  -- In an encoded directory of less than 2 ^ 32 bytes, the address table has at the place of an entry
  -- the position of its inode number, which the name with its nul byte follows.
  pub encode_directory-entry :
      length (directory_bytes (front ++ ((name, ino) ∷ back))) < 2 ^ 32
      → ino < 2 ^ 64
      → (bytes : Bytes) × (offset : ℕ) × (encode_directory (front ++ ((name, ino) ∷ back))
          ≡ ok bytes)
        × (get_32 bytes (4 + 4 * length front) ≡ ok offset)
        × (get_64 bytes offset ≡ ok ino)
        × (take (length name + 1) (drop (offset + 8) bytes) ≡ name ++ (0 ∷ []))
  encode_directory-entry fits low =
      let total = length-directory_bytes dir in
      let pre : Bytes = count ++ addresses base front in
      let pre_len : 4 + 4 * length front ≡ length pre = omega (
        arith,
        length-append count (addresses base front),
        length-le_bytes 4 (length dir),
        length-addresses base front,
      ) in
      let pre' : Bytes = count ++ (addresses base dir ++ names front) in
      let pre_len' : address ≡ length pre' = omega (
        arith,
        length-append count (addresses base dir ++ names front),
        length-append (addresses base dir) (names front),
        length-le_bytes 4 (length dir),
        length-addresses base dir,
      ) in
      let small : address < 2 ^ 32 = omega (arith, names_bound) in
      let behind : Bytes = addresses (address + length (entry_bytes name ino)) back ++ names dir in
      let at_name : drop (address + 8) (directory_bytes dir) ≡ (name ++ (0 ∷ [])) ++ names back =
        ap (drop (address + 8))
          (cut_entry ∙ sym (append_assoc pre' (le_bytes 8 ino) ((name ++ (0 ∷ [])) ++ names back)))
        ∙ drop-append (pre' ++ le_bytes 8 ino) ((name ++ (0 ∷ [])) ++ names back) (address + 8)
            (omega (arith, length-append pre' (le_bytes 8 ino), length-le_bytes 8 ino)) in
      (
        directory_bytes dir,
        address,
        (encode_directory_lem dir fits).0,
        ap (λ t. get_32 t (4 + 4 * length front)) cut_address
            ∙ get_32_at pre behind (4 + 4 * length front) address pre_len small,
        ap (λ t. get_64 t address) cut_entry
            ∙ get_64_at pre' ((name ++ (0 ∷ [])) ++ names back) address ino pre_len' low,
        ap (take (length name + 1)) at_name
            ∙ take-append (name ++ (0 ∷ [])) (names back) (length name + 1)
                (omega (arith, length-append name (0 ∷ []))),
      )
