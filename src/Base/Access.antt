-- ===== src/Base/Access.antt =====
-- What an index finds in a list after `set`, `take`, `drop` and a run of writes.
use Prim.Native.Nat.{◌-◌}
use Prim.Native.Nat.{ℕ, zero, suc, ◌+◌, ◌≤◌, ◌<◌}
use mathlib.Core.Path.{◌≡◌, refl, ap, ◌∙◌}
use mathlib.Core.Logic.{◌⊎◌, inl, inr}
use mathlib.Core.List.{List, [], ◌∷◌, ◌++◌}
use mathlib.Core.Option.{none, some}
use native.Mathlib.Omega.{arith}
use cromfs.Base.Tests.{◌==◌, if◌then◌else◌}
use cromfs.Base.Lists.{length, get_elem?, set, take, drop, length-set}
use cromfs.Base.Bytes.{Bytes, write}

module _ {ℓ} {A : Type ℓ} where
  pub get_elem?-set :
      (xs : List A) (i j : ℕ) (v : A)
      → i < length xs
      → get_elem? (set xs i v) j ≡ (if i == j then some v else get_elem? xs j)
  get_elem?-set [] i j v h = absurd (omega arith)
  get_elem?-set (x ∷ xs) zero zero v h = refl
  get_elem?-set (x ∷ xs) zero (suc j) v h = ground arith
  get_elem?-set (x ∷ xs) (suc i) zero v h = ground arith
  get_elem?-set (x ∷ xs) (suc i) (suc j) v h = ground (arith, get_elem?-set xs i j v (omega arith))

  pub get_elem?-drop :
      (n : ℕ) (xs : List A) (i : ℕ) → get_elem? (drop n xs) i ≡ get_elem? xs (n + i)
  get_elem?-drop zero xs i = ap (get_elem? xs) (omega arith)
  get_elem?-drop (suc n) [] i = refl
  get_elem?-drop (suc n) (x ∷ xs) i =
      let e : suc n + i ≡ suc (n + i) = omega arith in rw e (get_elem?-drop n xs i)

  pub get_elem?-take :
      (n : ℕ) (xs : List A) (i : ℕ) → i < n → get_elem? (take n xs) i ≡ get_elem? xs i
  get_elem?-take zero xs i h = absurd (omega arith)
  get_elem?-take (suc n) [] i h = refl
  get_elem?-take (suc n) (x ∷ xs) zero h = refl
  get_elem?-take (suc n) (x ∷ xs) (suc i) h = get_elem?-take n xs i (omega arith)

  pub get_elem?-none : (xs : List A) (i : ℕ) → length xs ≤ i → get_elem? xs i ≡ none
  get_elem?-none [] i h = refl
  get_elem?-none (x ∷ xs) zero h = absurd (omega arith)
  get_elem?-none (x ∷ xs) (suc i) h = get_elem?-none xs i (omega arith)

  pub get_elem?-some : (xs : List A) (i : ℕ) (x : A) → get_elem? xs i ≡ some x → i < length xs
  get_elem?-some [] i x h = cc
  get_elem?-some (y ∷ xs) zero x h = omega arith
  get_elem?-some (y ∷ xs) (suc i) x h = omega (arith, get_elem?-some xs i x h)

-- A run of writes changes the places that it covers, and no other.
pub get_elem?-write_outside :
    (buf : Bytes) (p : ℕ) (xs : Bytes) (i : ℕ)
    → p + length xs ≤ length buf
    → (i < p) ⊎ (p + length xs ≤ i)
    → get_elem? (write buf p xs) i ≡ get_elem? buf i
unfolding write
get_elem?-write_outside buf p [] i fits out = refl
get_elem?-write_outside buf p (x ∷ xs) i fits out =
    get_elem?-write_outside (set buf p x) (suc p) xs i (omega (arith, length-set buf p x))
      (aside out)
    ∙ ground (arith, get_elem?-set buf p i x (omega arith))
  where
    aside : (i < p) ⊎ (p + length (x ∷ xs) ≤ i) → (i < suc p) ⊎ (suc p + length xs ≤ i)
    aside (inl h) = inl (omega arith)
    aside (inr h) = inr (omega arith)

pub get_elem?-write_inside :
    (buf : Bytes) (p : ℕ) (xs : Bytes) (j : ℕ)
    → p + length xs ≤ length buf
    → j < length xs
    → get_elem? (write buf p xs) (p + j) ≡ get_elem? xs j
unfolding write
get_elem?-write_inside buf p [] j fits h = absurd (omega arith)
get_elem?-write_inside buf p (x ∷ xs) zero fits h =
    get_elem?-write_outside (set buf p x) (suc p) xs (p + 0) (omega (arith, length-set buf p x))
      (inl (omega arith))
    ∙ ground (arith, get_elem?-set buf p (p + 0) x (omega arith))
get_elem?-write_inside buf p (x ∷ xs) (suc j) fits h =
    let e : p + suc j ≡ suc p + j = omega arith in
    rw e (
      get_elem?-write_inside (set buf p x) (suc p) xs j (omega (arith, length-set buf p x))
        (omega arith))

pub drop-append : (pre post : Bytes) (n : ℕ) → n ≡ length pre → drop n (pre ++ post) ≡ post
drop-append [] post zero e = refl
drop-append [] post (suc n) e = absurd (omega arith)
drop-append (x ∷ pre) post zero e = absurd (omega arith)
drop-append (x ∷ pre) post (suc n) e = drop-append pre post n (omega arith)

pub take-append : (pre post : Bytes) (n : ℕ) → n ≡ length pre → take n (pre ++ post) ≡ pre
take-append [] post zero e = refl
take-append [] post (suc n) e = absurd (omega arith)
take-append (x ∷ pre) post zero e = absurd (omega arith)
take-append (x ∷ pre) post (suc n) e = ap (λ t. x ∷ t) (take-append pre post n (omega arith))

-- The bytes between two others.
pub cut :
    (pre x post : Bytes) (p n : ℕ)
    → p ≡ length pre
    → n ≡ length x
    → take n (drop p (pre ++ (x ++ post))) ≡ x
cut pre x post p n at len =
    ap (take n) (drop-append pre (x ++ post) p at) ∙ take-append x post n len

pub get_elem?-append_left :
    (xs ys : Bytes) (j : ℕ) → j < length xs → get_elem? (xs ++ ys) j ≡ get_elem? xs j
get_elem?-append_left [] ys j h = absurd (omega arith)
get_elem?-append_left (x ∷ xs) ys zero h = refl
get_elem?-append_left (x ∷ xs) ys (suc j) h = get_elem?-append_left xs ys j (omega arith)

pub take_all {ℓ} : {A : Type ℓ} → (n : ℕ) (xs : List A) → length xs ≤ n → take n xs ≡ xs
take_all zero [] h = refl
take_all zero (x ∷ xs) h = absurd (omega arith)
take_all (suc n) [] h = refl
take_all (suc n) (x ∷ xs) h = ap (λ t. x ∷ t) (take_all n xs (omega arith))

pub take-behind :
    (pre post : Bytes) (n : ℕ)
    → length pre ≤ n
    → take n (pre ++ post) ≡ pre ++ take (n - length pre) post
take-behind [] post n h = let e : n - 0 ≡ n = omega arith in rw e
take-behind (x ∷ pre) post zero h = absurd (omega arith)
take-behind (x ∷ pre) post (suc n) h =
    let e : suc n - length (x ∷ pre) ≡ n - length pre = omega arith in
    rw e (ap (λ t. x ∷ t) (take-behind pre post n (omega arith)))
