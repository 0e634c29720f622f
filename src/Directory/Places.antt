-- ===== src/Directory/Places.antt =====
-- The addresses of the entries of an encoded directory, by the index of the entry.
use mathlib.Core.List.{append_assoc}
use cromfs.Base.{ℕ, zero, suc, ◌+◌, ◌*◌, ◌^◌, ◌≤◌, ◌<◌, ◌≡◌, refl, sym, ap, ◌∙◌, subst, arith, some}
use cromfs.Base.{
  [], ◌∷◌, ◌++◌, length, length-append, take, drop, get_elem?, drop_step, take-append-drop,
  length-take_le, ok,
}
use cromfs.Base.Access.{cut, get_elem?-some}
use cromfs.Base.Bytes.{Bytes, le_bytes, length-le_bytes}
use cromfs.Endian.{get_32}
use cromfs.Endian.Get.{get_32_at}
use cromfs.Format.{DirInfo}
use cromfs.Directory.Layout.{
  entry_bytes, names, addresses, directory_bytes, length-addresses, length-directory_bytes,
  length-entry_bytes,
}
use cromfs.Directory.Entries.{names-append, cut_address, cut_entry}

-- Where an entry stands; for the number of entries, where the last one ends.
abbrev pub address : DirInfo → ℕ → ℕ
address dir i = 4 + 4 * length dir + length (names (take i dir))

module _ (front : DirInfo) (name : Bytes) (ino : ℕ) (back : DirInfo) where
  abbrev whole : DirInfo
  whole = front ++ ((name, ino) ∷ back)

  abbrev base : ℕ
  base = 4 + 4 * length whole

  get_32-front :
      length (directory_bytes whole) < 2 ^ 32
      → get_32 (directory_bytes whole) (4 + 4 * length front) ≡ ok (base + length (names front))
  get_32-front fits =
      let here = base + length (names front) in
      let pre : Bytes = le_bytes 4 (length whole) ++ addresses base front in
      let behind : Bytes = addresses (here + length (entry_bytes name ino)) back ++ names whole in
      let total : length (names whole)
          ≡ length (names front) + length (names ((name, ino) ∷ back)) =
        ap (λ (t : Bytes). length t) (names-append front ((name, ino) ∷ back))
        ∙ length-append (names front) (names ((name, ino) ∷ back)) in
      ap (λ t. get_32 t (4 + 4 * length front)) (cut_address front name ino back)
      ∙ get_32_at pre behind (4 + 4 * length front) here
          (omega (
            arith,
            length-append (le_bytes 4 (length whole)) (addresses base front),
            length-le_bytes 4 (length whole),
            length-addresses base front,
          ))
          (omega (arith, length-directory_bytes whole))

  entry-front :
      take (9 + length name) (drop (base + length (names front)) (directory_bytes whole))
      ≡ entry_bytes name ino
  entry-front =
      let pre : Bytes = le_bytes 4 (length whole) ++ (addresses base whole ++ names front) in
      let start : base + length (names front) ≡ length pre = omega (
        arith,
        length-append (le_bytes 4 (length whole)) (addresses base whole ++ names front),
        length-append (addresses base whole) (names front),
        length-le_bytes 4 (length whole),
        length-addresses base whole,
      ) in
      let split : directory_bytes whole ≡ pre ++ (entry_bytes name ino ++ names back) =
        unfold entry_bytes in
        cut_entry front name ino back
        ∙ ap (λ t. pre ++ t)
            (sym (append_assoc (le_bytes 8 ino) (name ++ (0 ∷ [])) (names back))) in
      ap (λ t. take (9 + length name) (drop (base + length (names front)) t)) split
      ∙ cut pre (entry_bytes name ino) (names back) (base + length (names front)) (9 + length name)
          start (sym (length-entry_bytes name ino))

module _ (dir : DirInfo) (i : ℕ) (name : Bytes) (ino : ℕ) where
  split_at :
      get_elem? dir i ≡ some (name, ino) → take i dir ++ ((name, ino) ∷ drop (suc i) dir) ≡ dir
  split_at at =
      ap (λ t. take i dir ++ t) (sym (drop_step dir i (name, ino) at)) ∙ take-append-drop i dir

  -- The address table holds the address of the entry.
  pub get_32-address :
      length (directory_bytes dir) < 2 ^ 32
      → get_elem? dir i ≡ some (name, ino)
      → get_32 (directory_bytes dir) (4 + 4 * i) ≡ ok (address dir i)
  get_32-address fits at =
      let n : length (take i dir) ≡ i =
        length-take_le i dir (omega (arith, get_elem?-some dir i (name, ino) at)) in
      let general : length (directory_bytes (take i dir ++ ((name, ino) ∷ drop (suc i) dir)))
            < 2 ^ 32
          → get_32 (directory_bytes (take i dir ++ ((name, ino) ∷ drop (suc i) dir)))
              (4 + 4 * length (take i dir))
            ≡ ok (
                4
                + 4 * length (take i dir ++ ((name, ino) ∷ drop (suc i) dir))
                + length (names (take i dir))) =
        get_32-front (take i dir) name ino (drop (suc i) dir) in
      let moved : length (directory_bytes dir) < 2 ^ 32
          → get_32 (directory_bytes dir) (4 + 4 * length (take i dir)) ≡ ok (address dir i) =
        subst
          (λ d.
            length (directory_bytes d) < 2 ^ 32
            → get_32 (directory_bytes d) (4 + 4 * length (take i dir))
              ≡ ok (4 + 4 * length d + length (names (take i dir))))
          (split_at at) general in
      ap (λ k. get_32 (directory_bytes dir) (4 + 4 * k)) (sym n) ∙ moved fits

  -- The entry stands at its address.
  pub entry_at_address :
      get_elem? dir i ≡ some (name, ino)
      → take (9 + length name) (drop (address dir i) (directory_bytes dir)) ≡ entry_bytes name ino
  entry_at_address at =
      subst
        (λ d.
          take (9 + length name)
            (drop (4 + 4 * length d + length (names (take i dir))) (directory_bytes d))
          ≡ entry_bytes name ino)
        (split_at at) (entry-front (take i dir) name ino (drop (suc i) dir))

take-suc :
    (dir : DirInfo) (i : ℕ) (e : Bytes × ℕ)
    → get_elem? dir i ≡ some e
    → take (suc i) dir ≡ take i dir ++ (e ∷ [])
take-suc [] i e at = cc
take-suc (x ∷ rest) zero e at = let same : x ≡ e = cc in ap (λ t. t ∷ []) same
take-suc (x ∷ rest) (suc i) e at = ap (λ t. x ∷ t) (take-suc rest i e at)

-- The next address is where the entry ends.
pub address-suc :
    (dir : DirInfo) (i : ℕ) (name : Bytes) (ino : ℕ)
    → get_elem? dir i ≡ some (name, ino)
    → address dir (suc i) ≡ address dir i + (9 + length name)
address-suc dir i name ino at =
    let one : length (names ((name, ino) ∷ [])) ≡ 9 + length name =
      unfold names in
      length-append (entry_bytes name ino) [] ∙ omega (arith, length-entry_bytes name ino) in
    let longer : length (names (take (suc i) dir))
        ≡ length (names (take i dir)) + length (names ((name, ino) ∷ [])) =
      ap (λ d. length (names d)) (take-suc dir i (name, ino) at)
      ∙ (ap (λ (t : Bytes). length t) (names-append (take i dir) ((name, ino) ∷ []))
          ∙ length-append (names (take i dir)) (names ((name, ino) ∷ []))) in
    omega arith

pub address-le : (dir : DirInfo) (i : ℕ) → address dir i ≤ length (directory_bytes dir)
address-le dir i =
    let total : length (names dir) ≡ length (names (take i dir)) + length (names (drop i dir)) =
      ap (λ d. length (names d)) (sym (take-append-drop i dir))
      ∙ (ap (λ (t : Bytes). length t) (names-append (take i dir) (drop i dir))
          ∙ length-append (names (take i dir)) (names (drop i dir))) in
    omega (arith, length-directory_bytes dir)

take-length : (dir : DirInfo) → take (length dir) dir ≡ dir
take-length [] = refl
take-length (x ∷ rest) = ap (λ t. x ∷ t) (take-length rest)

pub address-length : (dir : DirInfo) → address dir (length dir) ≡ length (directory_bytes dir)
address-length dir =
    let all : length (names (take (length dir) dir)) ≡ length (names dir) =
      ap (λ d. length (names d)) (take-length dir) in
    omega (arith, length-directory_bytes dir)
