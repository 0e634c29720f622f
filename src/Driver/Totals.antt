-- ===== src/Driver/Totals.antt =====
-- Bytes counted once for each listed fblock.
use cromfs.Base.{ℕ, zero, suc, ◌+◌, ◌<◌, ◌≤◌, ◌≡◌, refl, ap, arith}
use cromfs.Base.{List, [], ◌∷◌, some, Bool-cases, inl, inr}
use cromfs.Base.{Bool, true, false, ◌||◌, ◌==◌, if◌then◌else◌}
use cromfs.Inode.{Inode}
use cromfs.BlockTable.{Block}
use cromfs.Driver.Content.{block_at}
use cromfs.Driver.Chunks.{is_in_fblock, count_in_fblock, count_in_fblock-suc}
use cromfs.Driver.Needed.{occurs}

module _ (inode : Inode) (blktab : List Block) where
  unfoldable pub is_in_any : List ℕ → ℕ → Bool
  is_in_any [] i = false
  is_in_any (a ∷ xs) i = is_in_fblock inode blktab a i || is_in_any xs i

  unfoldable pub total : List ℕ → ℕ → ℕ → ℕ
  total [] i n = 0
  total (a ∷ xs) i n = count_in_fblock inode blktab a i n + total xs i n

  pub total-zero : (xs : List ℕ) (i : ℕ) → total xs i 0 ≡ 0
  unfolding total count_in_fblock
  total-zero [] i = refl
  total-zero (a ∷ xs) i = omega (arith, total-zero xs i)

  pub total-suc :
      (xs : List ℕ) (i n : ℕ) (block : Block)
      → block_at inode blktab i ≡ some block
      → total xs i (suc n) ≡ occurs block.fblocknum xs + total xs (i + 1) n
  unfolding total occurs
  total-suc [] i n block found = refl
  total-suc (a ∷ xs) i n block found =
      let inn : is_in_fblock inode blktab a i ≡ (block.fblocknum == a) =
        unfold is_in_fblock in rw (is_in_fblock, found) in
      omega (
        arith,
        count_in_fblock-suc inode blktab a i n,
        ap {B = ℕ} (λ (b : Bool). if b then 1 else 0) inn,
        total-suc xs i n block found,
      )

  pub is_in_any-occurs :
      (xs : List ℕ) (i : ℕ) (block : Block)
      → block_at inode blktab i ≡ some block
      → 0 < occurs block.fblocknum xs
      → is_in_any xs i ≡ true
  unfolding is_in_any occurs
  is_in_any-occurs [] i block found h = absurd (omega arith)
  is_in_any-occurs (a ∷ xs) i block found h =
      let inn : is_in_fblock inode blktab a i ≡ (block.fblocknum == a) =
        unfold is_in_fblock in rw (is_in_fblock, found) in
      elim (Bool-cases (block.fblocknum == a)) [
        | inl e ↦ rw (inn, e) refl
        | inr e ↦ rw (inn, e) (is_in_any-occurs xs i block found (ground arith))
      ]

  -- Every byte is counted for exactly one of the listed fblocks.
  pub total-all :
      (xs : List ℕ) (i n : ℕ)
      → ((k : ℕ)
          → i ≤ k
          → k < i + n
          → (block : Block) × (block_at inode blktab k ≡ some block)
            × (occurs block.fblocknum xs ≡ 1))
      → total xs i n ≡ n
  total-all xs i zero once = total-zero xs i
  total-all xs i (suc n) once =
      let (block, found, here) = once i (omega arith) (omega arith) in
      omega (
        arith,
        total-suc xs i n block found,
        total-all xs (i + 1) n (λ k low high. once k (omega arith) (omega arith)),
      )
