-- ===== src/Base/Lists.antt =====
-- Lists measured and indexed by native numbers, under the library's names.
use Prim.Native.Nat.{ℕ, zero, suc, ◌+◌, ◌-◌, ◌≤◌, ◌<◌}
use mathlib.Core.Path.{◌≡◌, refl, ap, subst}
use mathlib.Core.Logic.{◌≢◌}
use mathlib.Core.List.{List, [], ◌∷◌, ◌++◌}
use mathlib.Core.Option.{Option, none, some}
use native.Mathlib.Omega.{arith}

module _ {ℓ} {A : Type ℓ} where
  abbrev pub length : List A → ℕ
  length [] = 0
  length (x ∷ xs) = suc (length xs)

  abbrev pub get_elem? : List A → ℕ → Option A
  get_elem? [] i = none
  get_elem? (x ∷ xs) zero = some x
  get_elem? (x ∷ xs) (suc i) = get_elem? xs i

  -- A write out of bounds changes nothing.
  abbrev pub set : List A → ℕ → A → List A
  set [] i v = []
  set (x ∷ xs) zero v = v ∷ xs
  set (x ∷ xs) (suc i) v = x ∷ set xs i v

  abbrev pub take : ℕ → List A → List A
  take zero xs = []
  take (suc n) [] = []
  take (suc n) (x ∷ xs) = x ∷ take n xs

  abbrev pub drop : ℕ → List A → List A
  drop zero xs = xs
  drop (suc n) [] = []
  drop (suc n) (x ∷ xs) = drop n xs

  abbrev pub replicate : ℕ → A → List A
  replicate zero a = []
  replicate (suc n) a = a ∷ replicate n a

  -- Every element satisfies `P`.
  abbrev pub All {κ} : (A → Type κ) → List A → Type κ
  All P [] = Unit {κ}
  All P (x ∷ xs) = P x × All P xs

module _ {ℓ} {A : Type ℓ} where
  pub length-append : (xs ys : List A) → length (xs ++ ys) ≡ length xs + length ys
  length-append [] ys = omega arith
  length-append (x ∷ xs) ys = omega (arith, length-append xs ys)

  pub length-set : (xs : List A) (i : ℕ) (v : A) → length (set xs i v) ≡ length xs
  length-set [] i v = refl
  length-set (x ∷ xs) zero v = refl
  length-set (x ∷ xs) (suc i) v = ap suc (length-set xs i v)

  pub set-set_comm :
      (xs : List A) (i j : ℕ) (v w : A) → i ≢ j → set (set xs i v) j w ≡ set (set xs j w) i v
  set-set_comm [] i j v w h = refl
  set-set_comm (x ∷ xs) zero zero v w h = absurd (h refl)
  set-set_comm (x ∷ xs) zero (suc j) v w h = refl
  set-set_comm (x ∷ xs) (suc i) zero v w h = refl
  set-set_comm (x ∷ xs) (suc i) (suc j) v w h =
      ap (λ t. x ∷ t) (set-set_comm xs i j v w (λ e. h (ap suc e)))

  pub length-replicate : (n : ℕ) (a : A) → length (replicate n a) ≡ n
  length-replicate zero a = refl
  length-replicate (suc n) a = ap suc (length-replicate n a)

  pub take-append-drop : (n : ℕ) (xs : List A) → take n xs ++ drop n xs ≡ xs
  take-append-drop zero xs = refl
  take-append-drop (suc n) [] = refl
  take-append-drop (suc n) (x ∷ xs) = ap (λ t. x ∷ t) (take-append-drop n xs)

  pub length-take_le : (n : ℕ) (xs : List A) → n ≤ length xs → length (take n xs) ≡ n
  length-take_le zero xs h = refl
  length-take_le (suc n) [] h = absurd (omega arith)
  length-take_le (suc n) (x ∷ xs) h = ap suc (length-take_le n xs (omega arith))

  pub drop-drop : (m n : ℕ) (xs : List A) → drop n (drop m xs) ≡ drop (m + n) xs
  drop-drop zero n xs = ap (λ t. drop t xs) (omega arith)
  drop-drop (suc m) zero [] = let e : suc m + 0 ≡ suc m = omega arith in rw e
  drop-drop (suc m) (suc n) [] = let e : suc m + suc n ≡ suc (m + suc n) = omega arith in rw e
  drop-drop (suc m) n (x ∷ xs) =
      let e : suc m + n ≡ suc (m + n) = omega arith in rw e (drop-drop m n xs)

  pub length-drop : (n : ℕ) (xs : List A) → length (drop n xs) ≡ length xs - n
  length-drop zero xs = omega arith
  length-drop (suc n) [] = omega arith
  length-drop (suc n) (x ∷ xs) = omega (arith, length-drop n xs)

  pub drop-length : (n : ℕ) (xs : List A) → length xs ≤ n → drop n xs ≡ []
  drop-length zero [] h = refl
  drop-length (suc n) [] h = refl
  drop-length zero (x ∷ xs) h = absurd (omega arith)
  drop-length (suc n) (x ∷ xs) h = drop-length n xs (omega arith)

  pub append-cancel_length : (xs : List A) → length xs ≡ 0 → xs ≡ []
  append-cancel_length [] h = refl
  append-cancel_length (x ∷ xs) h = absurd (omega arith)

  -- An index behind a prefix is an index into the rest.
  pub get_elem?-append :
      (xs ys : List A) (j : ℕ) → get_elem? (xs ++ ys) (length xs + j) ≡ get_elem? ys j
  get_elem?-append [] ys j = ap (get_elem? ys) (omega arith)
  get_elem?-append (x ∷ xs) ys j =
      let e : length (x ∷ xs) + j ≡ suc (length xs + j) = omega arith in
      rw e (get_elem?-append xs ys j)

  pub set-append :
      (xs ys : List A) (j : ℕ) (v : A) → set (xs ++ ys) (length xs + j) v ≡ xs ++ set ys j v
  set-append [] ys j v = ap (λ i. set ys i v) (omega arith)
  set-append (x ∷ xs) ys j v =
      let e : length (x ∷ xs) + j ≡ suc (length xs + j) = omega arith in
      rw e (ap (λ t. x ∷ t) (set-append xs ys j v))

  pub get_elem?_lt : (xs : List A) (i : ℕ) → i < length xs → (x : A) × (get_elem? xs i ≡ some x)
  get_elem?_lt [] i h = absurd (omega arith)
  get_elem?_lt (x ∷ xs) zero h = (x, refl)
  get_elem?_lt (x ∷ xs) (suc i) h = get_elem?_lt xs i (omega arith)

  pub drop_step :
      (xs : List A) (i : ℕ) (x : A) → get_elem? xs i ≡ some x → drop i xs ≡ x ∷ drop (suc i) xs
  drop_step [] i x h = cc
  drop_step (y ∷ ys) zero x h = let e : y ≡ x = cc in ap (λ t. t ∷ ys) e
  drop_step (y ∷ ys) (suc i) x h = drop_step ys i x h

  pub get_elem?-set_self :
      (xs : List A) (i : ℕ) (v : A) → i < length xs → get_elem? (set xs i v) i ≡ some v
  get_elem?-set_self [] i v h = absurd (omega arith)
  get_elem?-set_self (x ∷ xs) zero v h = refl
  get_elem?-set_self (x ∷ xs) (suc i) v h = get_elem?-set_self xs i v (omega arith)

  pub drop-set : (xs : List A) (i j : ℕ) (v : A) → i < j → drop j (set xs i v) ≡ drop j xs
  drop-set [] i j v h = refl
  drop-set (x ∷ xs) zero zero v h = absurd (omega arith)
  drop-set (x ∷ xs) zero (suc j) v h = refl
  drop-set (x ∷ xs) (suc i) zero v h = absurd (omega arith)
  drop-set (x ∷ xs) (suc i) (suc j) v h = drop-set xs i j v (omega arith)

module _ {ℓ κ} {A : Type ℓ} (P : A → Type κ) where
  pub All-get_elem? : (xs : List A) (i : ℕ) (x : A) → All P xs → get_elem? xs i ≡ some x → P x
  All-get_elem? [] i x h e = cc
  All-get_elem? (y ∷ ys) zero x (h, hs) e = let e' : y ≡ x = cc in subst P e' h
  All-get_elem? (y ∷ ys) (suc i) x (h, hs) e = All-get_elem? ys i x hs e
