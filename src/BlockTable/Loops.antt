-- ===== src/BlockTable/Loops.antt =====
-- The loops, for any way to store and read a locator of `onesize` bytes.
use mathlib.Core.List.{append-nil, append_assoc}
use cromfs.Base.{ℕ, suc, ◌+◌, ◌*◌, ◌%◌, ◌^◌, ◌≤◌, ◌<◌, ◌≡◌, refl, sym, ap, ◌∙◌, ok, Result, arith}
use cromfs.Base.{List, [], ◌∷◌, ◌++◌, length, length-append, All}
use cromfs.Base.Bytes.{Bytes, write, write-write, length-write}
use cromfs.BlockTable.{Block, put_locators, get_locators}

module _ (bytes : Block → Bytes) where
  abbrev pub table_bytes : List Block → Bytes
  table_bytes [] = []
  table_bytes (x ∷ xs) = bytes x ++ table_bytes xs

  pub length-table_bytes :
      (onesize : ℕ)
      → ((x : Block) → length (bytes x) ≡ onesize)
      → (xs : List Block) → length (table_bytes xs) ≡ length xs * onesize
  length-table_bytes onesize size [] = omega arith
  length-table_bytes onesize size (x ∷ xs) =
      length-append (bytes x) (table_bytes xs)
      ∙ omega (arith, size x, length-table_bytes onesize size xs)

module _ (bytes : Block → Bytes) (onesize : ℕ) (size : (x : Block) → length (bytes x) ≡ onesize)
    (put : Bytes → ℕ → Block → Result Bytes)
    (puts : (raw : Bytes) (p : ℕ) (x : Block)
      → p + onesize ≤ length raw
      → put raw p x ≡ ok (write raw p (bytes x))) where
  pub put_locators_lem :
      (raw done : Bytes) (a : ℕ) (xs : List Block)
      → length done ≡ a * onesize
      → (a + length xs) * onesize ≤ length raw
      → length raw < 2 ^ 32
      → put_locators put onesize (write raw 0 done) a xs
        ≡ ok (write raw 0 (done ++ table_bytes bytes xs))
  unfolding put_locators
  put_locators_lem raw done a [] len fits short =
      ap (λ t. ok (write raw 0 t)) (sym (append-nil done))
  put_locators_lem raw done a (x ∷ xs) len fits short =
      rw
        (
          position,
          puts (write raw 0 done) (a * onesize) x (omega (arith, length-write raw 0 done)),
          write-write raw 0 (a * onesize) done (bytes x) (omega arith),
        )
        (put_locators_lem raw (done ++ bytes x) (a + 1) xs longer (omega arith) short
          ∙ ap (λ t. ok (write raw 0 t)) (append_assoc done (bytes x) (table_bytes bytes xs)))
    where
      position : a * onesize % 2 ^ 32 ≡ a * onesize
      position = omega arith

      longer : length (done ++ bytes x) ≡ (a + 1) * onesize
      longer = length-append done (bytes x) ∙ omega (arith, size x)

module _ (bytes : Block → Bytes) (onesize : ℕ) (size : (x : Block) → length (bytes x) ≡ onesize)
    (Stored : Block → Type 0) (get : Bytes → ℕ → Result Block)
    (gets : (pre post : Bytes) (p : ℕ) (x : Block)
      → Stored x
      → p ≡ length pre
      → get (pre ++ (bytes x ++ post)) p ≡ ok x) where
  get_locators_step :
      (raw : Bytes) (n a : ℕ) (x : Block) (xs : List Block)
      → get raw (a * onesize) ≡ ok x
      → get_locators get onesize raw n (a + 1) ≡ ok xs
      → get_locators get onesize raw (suc n) a ≡ ok (x ∷ xs)
  get_locators_step raw n a x xs first others = unfold get_locators in rw (first, others)

  pub get_locators_lem :
      (pre : Bytes) (a : ℕ) (xs : List Block)
      → All Stored xs
      → length pre ≡ a * onesize
      → get_locators get onesize (pre ++ table_bytes bytes xs) (length xs) a ≡ ok xs
  get_locators_lem pre a [] stored len = unfold get_locators in refl
  get_locators_lem pre a (x ∷ xs) (here, rest) len =
      get_locators_step (pre ++ table_bytes bytes (x ∷ xs)) (length xs) a x xs
        (gets pre (table_bytes bytes xs) (a * onesize) x here (sym len))
        (ap (λ t. get_locators get onesize t (length xs) (a + 1)) moved
          ∙ get_locators_lem (pre ++ bytes x) (a + 1) xs rest longer)
    where
      moved : pre ++ (bytes x ++ table_bytes bytes xs) ≡ (pre ++ bytes x) ++ table_bytes bytes xs
      moved = sym (append_assoc pre (bytes x) (table_bytes bytes xs))

      longer : length (pre ++ bytes x) ≡ (a + 1) * onesize
      longer = length-append pre (bytes x) ∙ omega (arith, size x)
