-- ===== src/Driver/ReadDir/Region.antt =====
-- cromfs.cc, `read_dir`: the entries in a part of the name region.
use mathlib.Core.List.{append-nil, append_assoc}
use cromfs.Base.{
  ℕ, zero, suc, ◌+◌, ◌-◌, ◌%◌, ◌^◌, ◌≤◌, ◌<◌, ◌≡◌, refl, sym, ap, ◌∙◌, subst, arith, List, [], ◌∷◌,
  ◌++◌, length, length-append, get_elem?, get_elem?_lt, take, drop, drop_step, drop-drop, All,
  All-get_elem?, take-append-drop, length-take_le, length-drop,
}
use cromfs.Base.{false, some, ltb, leb, ◌||◌, ok}
use cromfs.Base.Access.{drop-append}
use cromfs.Base.Bytes.{Bytes, le_bytes, length-le_bytes}
use cromfs.Endian.{get_64}
use cromfs.Endian.Get.{get_64_at}
use cromfs.Endian.Window.{window, get_64-window}
use cromfs.Format.{DirInfo}
use cromfs.Directory.Names.{less, compare, insert_name, insert_name_last, IsSorted}
use cromfs.Directory.Layout.{entry_bytes, directory_bytes}
use cromfs.Directory.Places.{address, address-suc, address-le, entry_at_address}
use cromfs.Driver.Lookup.{c_string}
use cromfs.Driver.Lookup.Entry.{IsEntry, c_string-append}
use cromfs.Driver.ReadDir.{read_name, read_names}
use cromfs.Base.{get_elem?-append}
use cromfs.Base.Access.{take_all}

take-take : (n m : ℕ) (xs : Bytes) → n ≤ m → take n (take m xs) ≡ take n xs
take-take zero m xs h = refl
take-take (suc n) zero xs h = absurd (omega arith)
take-take (suc n) (suc m) [] h = refl
take-take (suc n) (suc m) (x ∷ xs) h = ap (λ t. x ∷ t) (take-take n m xs (omega arith))

-- A part of a part that is long enough.
take-drop-take :
    (n d m : ℕ) (xs : Bytes) → d + n ≤ m → take n (drop d (take m xs)) ≡ take n (drop d xs)
take-drop-take n zero m xs h = take-take n m xs (omega arith)
take-drop-take n (suc d) zero xs h = absurd (omega arith)
take-drop-take n (suc d) (suc m) [] h = refl
take-drop-take n (suc d) (suc m) (x ∷ xs) h = take-drop-take n d m xs (omega arith)

IsSorted-append :
    (acc : DirInfo) (e : Bytes × ℕ) (rest : DirInfo)
    → IsSorted (acc ++ (e ∷ rest))
    → All (λ x. compare x.0 e.0 ≡ less) acc
unfolding IsSorted
IsSorted-append [] e rest sorted = tt
IsSorted-append ((name, ino) ∷ acc) e rest (first, sorted) = (
  All-get_elem? (λ x. compare name x.0 ≡ less) (acc ++ (e ∷ rest)) (length acc + 0) e first
      (get_elem?-append acc (e ∷ rest) 0),
  IsSorted-append acc e rest sorted,
)

-- The addresses of the entries from an index on.
abbrev pub places : DirInfo → ℕ → ℕ → List ℕ
places dir i zero = []
places dir i (suc m) = address dir i ∷ places dir (suc i) m

module _ (dir : DirInfo) (fits : length (directory_bytes dir) < 2 ^ 31) (entries : All IsEntry dir)
    (start size : ℕ) where
  abbrev name_buf : Bytes
  name_buf = window (directory_bytes dir) start size

  read_name_step :
      (offs ino : ℕ) (name : Bytes)
      → get_64 name_buf offs ≡ ok ino
      → c_string (drop (offs + 8) name_buf) ≡ some name
      → read_name name_buf offs ≡ ok (name, ino)
  read_name_step offs ino name number text = unfold read_name in rw (read_name, number, text) refl

  module _ (i : ℕ) (name : Bytes) (ino : ℕ) (at : get_elem? dir i ≡ some (name, ino))
      (low : start ≤ address dir i) (high : address dir (suc i) ≤ start + size) where
    abbrev offs : ℕ
    offs = address dir i - start

    number : ino < 2 ^ 64 → get_64 name_buf offs ≡ ok ino
    number small =
        let next = address-suc dir i name ino at in
        get_64-window (directory_bytes dir) start size offs (address dir i) (omega arith)
          (omega arith)
        ∙ (sym (
              get_64-window (directory_bytes dir) (address dir i) (9 + length name) 0
                (address dir i) (omega arith) (omega arith))
            ∙ (ap (λ t. get_64 t 0) (entry_at_address dir i name ino at)
                ∙ (unfold entry_bytes in get_64_at [] (name ++ (0 ∷ [])) 0 ino refl small)))

    abbrev text : Bytes
    text = name ++ (0 ∷ [])

    text_there : take (length name + 1) (drop (offs + 8) name_buf) ≡ text
    text_there =
        let next = address-suc dir i name ino at in
        let place : start + (offs + 8) ≡ address dir i + 8 = omega arith in
        let content : Bytes = directory_bytes dir in
        let entry : take (9 + length name) (drop (address dir i) content) ≡ le_bytes 8 ino ++ text =
          entry_at_address dir i name ino at ∙ (unfold entry_bytes in refl) in
        take-drop-take (length name + 1) (offs + 8) size (drop start content) (omega arith)
        ∙ (ap (take (length name + 1)) (drop-drop start (offs + 8) content)
            ∙ (ap (λ p. take (length name + 1) (drop p content)) place
                ∙ (sym (ap (take (length name + 1)) (drop-drop (address dir i) 8 content))
                    ∙ (sym (
                          take-drop-take (length name + 1) 8 (9 + length name)
                            (drop (address dir i) content) (omega arith))
                        ∙ (ap (λ t. take (length name + 1) (drop 8 t)) entry
                            ∙ (ap (take (length name + 1)) (
                                  drop-append (le_bytes 8 ino) text 8 (sym (length-le_bytes 8 ino)))
                                ∙ take_all (length name + 1) text
                                    (omega (arith, length-append name (0 ∷ [])))))))))

    read_name_lem : IsEntry (name, ino) → read_name name_buf offs ≡ ok (name, ino)
    read_name_lem (some_name, no_nul, small) =
        let rest : Bytes = drop (length name + 1) (drop (offs + 8) name_buf) in
        let split : drop (offs + 8) name_buf ≡ name ++ (0 ∷ rest) =
          sym (take-append-drop (length name + 1) (drop (offs + 8) name_buf))
          ∙ (ap (λ t. t ++ rest) text_there ∙ append_assoc name (0 ∷ []) rest) in
        read_name_step offs ino name (number small)
          (ap c_string split ∙ c_string-append name rest no_nul)

pub address_grows :
    (dir : DirInfo) (i k : ℕ) → i + k ≤ length dir → address dir i ≤ address dir (i + k)
address_grows dir i zero h =
    let same : i + 0 ≡ i = omega arith in
    subst (λ j. address dir i ≤ address dir j) (sym same) (omega arith)
address_grows dir i (suc k) h =
    let ((name, ino), at) = get_elem?_lt dir (i + k) (omega arith) in
    let next = address-suc dir (i + k) name ino at in
    let same : i + suc k ≡ suc (i + k) = omega arith in
    let before = address_grows dir i k (omega arith) in
    subst (λ j. address dir i ≤ address dir j) (sym same) (omega arith)

module _ (dir : DirInfo) (fits : length (directory_bytes dir) < 2 ^ 31) (entries : All IsEntry dir)
    (start size : ℕ) where
  read_names_step :
      (previous offs place ino : ℕ) (name : Bytes) (rest : List ℕ) (acc : DirInfo)
      → (place + 2 ^ 32 - start) % 2 ^ 32 ≡ offs
      → leb (2 ^ 31) offs
          || (leb (length (name_buf dir fits entries start size)) ((offs + 9) % 2 ^ 32)
              || ltb place previous)
        ≡ false
      → read_name (name_buf dir fits entries start size) offs ≡ ok (name, ino)
      → insert_name name ino acc ≡ acc ++ ((name, ino) ∷ [])
      → read_names (name_buf dir fits entries start size) start previous (place ∷ rest) acc
        ≡ read_names
            (name_buf dir fits entries start size)
            start
            place
            rest
            (acc ++ ((name, ino) ∷ []))
  read_names_step previous offs place ino name rest acc at valid reads last =
      unfold read_names in rw (read_names, at, valid, reads, last) refl

  -- The loop gives the entries in the order in which they stand.
  pub read_names_lem :
      (previous i m : ℕ) (acc : DirInfo)
      → start + size ≤ length (directory_bytes dir)
      → start ≤ address dir i
      → previous ≤ address dir i
      → i + m ≤ length dir
      → address dir (i + m) ≤ start + size
      → IsSorted (acc ++ take m (drop i dir))
      → read_names (window (directory_bytes dir) start size) start previous (places dir i m) acc
        ≡ ok (acc ++ take m (drop i dir))
  read_names_lem previous i zero acc room low order inside high sorted =
      unfold read_names in ap ok (sym (append-nil acc))
  read_names_lem previous i (suc m) acc room low order inside high sorted =
      let ((name, ino), at) = get_elem?_lt dir i (omega arith) in
      let next = address-suc dir i name ino at in
      let same : i + suc m ≡ suc i + m = omega arith in
      let grows : address dir (suc i) ≤ address dir (i + suc m) =
        subst (λ j. address dir (suc i) ≤ address dir j) (sym same)
          (address_grows dir (suc i) m (omega arith)) in
      let last = address-le dir (suc i) in
      let entry = All-get_elem? IsEntry dir i (name, ino) entries at in
      let (some_name, no_nul, small) = entry in
      let len : length (window (directory_bytes dir) start size) ≡ size =
        length-take_le size (drop start (directory_bytes dir))
          (omega (arith, length-drop start (directory_bytes dir))) in
      let head : take (suc m) (drop i dir) ≡ (name, ino) ∷ take m (drop (suc i) dir) =
        ap (take (suc m)) (drop_step dir i (name, ino) at) in
      let sorted' : IsSorted (acc ++ ((name, ino) ∷ take m (drop (suc i) dir))) =
        subst (λ t. IsSorted (acc ++ t)) head sorted in
      let joined : (acc ++ ((name, ino) ∷ [])) ++ take m (drop (suc i) dir)
          ≡ acc ++ ((name, ino) ∷ take m (drop (suc i) dir)) =
        append_assoc acc ((name, ino) ∷ []) (take m (drop (suc i) dir)) in
      let offs : ℕ = address dir i - start in
      let valid : leb (2 ^ 31) offs
            || (leb (length (window (directory_bytes dir) start size)) ((offs + 9) % 2 ^ 32)
                || ltb (address dir i) previous)
          ≡ false =
        ground arith in
      read_names_step previous offs (address dir i) ino name (places dir (suc i) m) acc
        (omega arith) valid
        (read_name_lem dir fits entries start size i name ino at low (omega arith) entry)
        (insert_name_last name ino acc
          (IsSorted-append acc (name, ino) (take m (drop (suc i) dir)) sorted'))
      ∙ (read_names_lem (address dir i) (suc i) m (acc ++ ((name, ino) ∷ [])) room (omega arith)
            (omega arith) (omega arith) (subst (λ j. address dir j ≤ start + size) same high)
            (subst IsSorted (sym joined) sorted')
          ∙ ap ok (joined ∙ ap (λ t. acc ++ t) (sym head)))
