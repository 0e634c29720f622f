-- ===== src/Directory/Names.antt =====
-- Names of directory entries: `std::string::compare`, and the operations of `std::map` that
-- cromfs.cc uses on a `cromfs_dirinfo`.
use cromfs.Base.{ℕ, zero, suc, ◌<◌, ◌≡◌, ◌≢◌, refl, sym, ap, ◌∙◌, arith}
use cromfs.Base.{Option, none, some, [], ◌∷◌, get_elem?, All, All-get_elem?, inl, inr}
use cromfs.Base.{ltb, ◌==◌, if◌then◌else◌}
use cromfs.Base.Bytes.{Bytes}
use cromfs.Format.{DirInfo}
use cromfs.Base.{subst, ◌++◌}
use cromfs.Base.{◌⊎◌}
use cromfs.Base.{take, drop}

-- The sign of what `compare` returns.
pub data Comparison : Type 0 where
  less equal greater : Comparison

pub Comparison-cases : (c : Comparison) → (c ≡ less) ⊎ ((c ≡ equal) ⊎ (c ≡ greater))
Comparison-cases less = inl refl
Comparison-cases equal = inr (inl refl)
Comparison-cases greater = inr (inr refl)

-- Byte by byte, as `memcmp`, and a name comes behind its beginnings.
unfoldable pub compare : Bytes → Bytes → Comparison
compare [] [] = equal
compare [] (y ∷ ys) = less
compare (x ∷ xs) [] = greater
compare (x ∷ xs) (y ∷ ys) =
    let rest = compare xs ys in if ltb x y then less else if x == y then rest else greater

-- `info.find(name)`
unfoldable pub find_name : Bytes → DirInfo → Option ℕ
find_name name [] = none
find_name name ((other, ino) ∷ rest) =
    let later = find_name name rest in
    elim (compare name other) [ less ↦ later | equal ↦ some ino | greater ↦ later ]

-- `result[name] = ino;`
unfoldable pub insert_name : Bytes → ℕ → DirInfo → DirInfo
insert_name name ino [] = (name, ino) ∷ []
insert_name name ino ((other, old) ∷ rest) =
    let later = insert_name name ino rest in
    elim (compare name other) [
      | less ↦ (name, ino) ∷ ((other, old) ∷ rest)
      | equal ↦ (other, ino) ∷ rest
      | greater ↦ (other, old) ∷ later
    ]

-- The entries stand in the order of their names, and no name occurs twice.
unfoldable pub IsSorted : DirInfo → Type 0
IsSorted [] = Unit {0}
IsSorted ((name, ino) ∷ rest) = All (λ e. compare name e.0 ≡ less) rest × IsSorted rest

pub compare_self : (xs : Bytes) → compare xs xs ≡ equal
unfolding compare
compare_self [] = refl
compare_self (x ∷ xs) = ground (arith, compare_self xs)

pub compare-equal : (xs ys : Bytes) → compare xs ys ≡ equal → xs ≡ ys
unfolding compare
compare-equal [] [] h = refl
compare-equal [] (y ∷ ys) h = cc
compare-equal (x ∷ xs) [] h = cc
compare-equal (x ∷ xs) (y ∷ ys) h = ground (arith, compare-equal xs ys)

pub compare-less_trans :
    (xs ys zs : Bytes) → compare xs ys ≡ less → compare ys zs ≡ less → compare xs zs ≡ less
unfolding compare
compare-less_trans [] [] zs h k = cc
compare-less_trans [] (y ∷ ys) [] h k = cc
compare-less_trans [] (y ∷ ys) (z ∷ zs) h k = refl
compare-less_trans (x ∷ xs) [] zs h k = cc
compare-less_trans (x ∷ xs) (y ∷ ys) [] h k = cc
compare-less_trans (x ∷ xs) (y ∷ ys) (z ∷ zs) h k = ground (arith, compare-less_trans xs ys zs)

pub compare-greater : (xs ys : Bytes) → compare xs ys ≡ greater → compare ys xs ≡ less
unfolding compare
compare-greater [] [] h = cc
compare-greater [] (y ∷ ys) h = cc
compare-greater (x ∷ xs) [] h = refl
compare-greater (x ∷ xs) (y ∷ ys) h = ground (arith, compare-greater xs ys)

pub compare-less : (xs ys : Bytes) → compare xs ys ≡ less → compare ys xs ≡ greater
unfolding compare
compare-less [] [] h = cc
compare-less [] (y ∷ ys) h = refl
compare-less (x ∷ xs) [] h = cc
compare-less (x ∷ xs) (y ∷ ys) h = ground (arith, compare-less xs ys)

pub IsSorted-less :
    (dir : DirInfo) (i j : ℕ) (a b : Bytes × ℕ)
    → IsSorted dir
    → get_elem? dir i ≡ some a
    → get_elem? dir j ≡ some b
    → i < j
    → compare a.0 b.0 ≡ less
unfolding IsSorted
IsSorted-less [] i j a b sorted at_i at_j h = cc
IsSorted-less (e ∷ rest) i zero a b sorted at_i at_j h = absurd (omega arith)
IsSorted-less ((name, ino) ∷ rest) zero (suc j) a b (first, sorted) at_i at_j h =
    let same : (name, ino) ≡ a = cc in
    subst (λ e. compare e.0 b.0 ≡ less) same
      (All-get_elem? (λ e. compare name e.0 ≡ less) rest j b first at_j)
IsSorted-less (e ∷ rest) (suc i) (suc j) a b (first, sorted) at_i at_j h =
    IsSorted-less rest i j a b sorted at_i at_j (omega arith)

find_name_other :
    (name other : Bytes) (ino : ℕ) (rest : DirInfo)
    → compare name other ≢ equal
    → find_name name ((other, ino) ∷ rest) ≡ find_name name rest
unfolding find_name
find_name_other name other ino rest differs = ground arith

-- In a sorted directory the entry at any index is what a search for its name finds.
pub find_name_at :
    (dir : DirInfo) (i : ℕ) (name : Bytes) (ino : ℕ)
    → IsSorted dir
    → get_elem? dir i ≡ some (name, ino)
    → find_name name dir ≡ some ino
unfolding IsSorted
find_name_at [] i name ino sorted at = cc
find_name_at ((other, old) ∷ rest) zero name ino (first, sorted) at =
    let same : ◌≡◌ {A = Bytes × ℕ} (other, old) (name, ino) = cc in
    let here : find_name other ((other, old) ∷ rest) ≡ some old =
      unfold find_name in rw (find_name, compare_self other) in
    subst (λ (e : Bytes × ℕ). find_name e.0 ((other, old) ∷ rest) ≡ some e.1) same here
find_name_at ((other, old) ∷ rest) (suc i) name ino (first, sorted) at =
    let smaller : compare other name ≡ less =
      All-get_elem? (λ e. compare other e.0 ≡ less) rest i (name, ino) first at in
    let differs : compare name other ≢ equal =
      λ e. let e' : equal ≡ greater = sym e ∙ compare-less other name smaller in cc in
    find_name_other name other old rest differs ∙ find_name_at rest i name ino sorted at

pub find_name_absent :
    (name : Bytes) (dir : DirInfo)
    → ((i : ℕ) (e : Bytes × ℕ) → get_elem? dir i ≡ some e → compare name e.0 ≢ equal)
    → find_name name dir ≡ none
find_name_absent name [] absent = unfold find_name in refl
find_name_absent name ((other, ino) ∷ rest) absent =
    find_name_other name other ino rest (absent 0 (other, ino) refl)
    ∙ find_name_absent name rest (λ i e at. absent (suc i) e at)

-- A name behind all others takes the last place.
pub insert_name_last :
    (name : Bytes) (ino : ℕ) (dir : DirInfo)
    → All (λ e. compare e.0 name ≡ less) dir
    → insert_name name ino dir ≡ dir ++ ((name, ino) ∷ [])
unfolding insert_name
insert_name_last name ino [] smaller = refl
insert_name_last name ino ((other, old) ∷ rest) (here, smaller) =
    rw (insert_name, compare-less other name here)
      (ap (λ t. (other, old) ∷ t) (insert_name_last name ino rest smaller))

All-take : (P : Bytes × ℕ → Type 0) (m : ℕ) (dir : DirInfo) → All P dir → All P (take m dir)
All-take P zero dir all = tt
All-take P (suc m) [] all = tt
All-take P (suc m) (e ∷ rest) (first, all) = (first, All-take P m rest all)

IsSorted-take : (m : ℕ) (dir : DirInfo) → IsSorted dir → IsSorted (take m dir)
unfolding IsSorted
IsSorted-take zero dir sorted = tt
IsSorted-take (suc m) [] sorted = tt
IsSorted-take (suc m) ((name, ino) ∷ rest) (first, sorted) =
    (All-take (λ e. compare name e.0 ≡ less) m rest first, IsSorted-take m rest sorted)

-- A part of a sorted directory is sorted.
pub IsSorted-part : (dir : DirInfo) (o m : ℕ) → IsSorted dir → IsSorted (take m (drop o dir))
unfolding IsSorted
IsSorted-part dir zero m sorted = IsSorted-take m dir sorted
IsSorted-part [] (suc o) m sorted = IsSorted-take m [] sorted
IsSorted-part ((name, ino) ∷ rest) (suc o) m (first, sorted) = IsSorted-part rest o m sorted
