-- ===== src/Driver/Chunks.antt =====
-- The parts that a read is split into: each lies in one block.
use cromfs.Base.{ℕ, zero, suc, ◌+◌, ◌-◌, ◌/◌, ◌%◌, ◌<◌, ◌≤◌, ◌≡◌, sym, ◌∙◌, min, arith}
use cromfs.Base.{List, none, some, get_elem?, ok, Option-cases, inl, inr}
use cromfs.Base.{Bool, false, ◌==◌, if◌then◌else◌}
use cromfs.Inode.{Inode}
use cromfs.BlockTable.{Block}
use cromfs.Driver.Read.{chunk_of, next_chunk}
use cromfs.Driver.Content.{block_at}

-- Is byte number `i` of a file in fblock `a`?
unfoldable pub is_in_fblock : Inode → List Block → ℕ → ℕ → Bool
is_in_fblock inode blktab a i = elim (block_at inode blktab i) [
  | none ↦ false
  | some block ↦ block.fblocknum == a
]

-- The number of bytes from byte `i` on, `n` bytes long, that are in fblock `a`.
unfoldable pub count_in_fblock : Inode → List Block → ℕ → ℕ → ℕ → ℕ
count_in_fblock inode blktab a i zero = 0
count_in_fblock inode blktab a i (suc n) =
    let rest = count_in_fblock inode blktab a (i + 1) n in
    if is_in_fblock inode blktab a i then 1 + rest else rest

pub count_in_fblock-suc :
    (inode : Inode) (blktab : List Block) (a i n : ℕ)
    → count_in_fblock inode blktab a i (suc n)
      ≡ (if is_in_fblock inode blktab a i then 1 else 0) + count_in_fblock inode blktab a (i + 1) n
unfolding count_in_fblock
count_in_fblock-suc inode blktab a i n = ground arith

abbrev pub chunk_size : Inode → ℕ → ℕ → ℕ
chunk_size inode pos endpos = min (endpos - pos) (inode.blocksize - pos % inode.blocksize)

module _ (inode : Inode) (blktab : List Block) (some_size : 0 < inode.blocksize) where
  pub next_chunk_found :
      (pos endpos : ℕ) (block : Block)
      → block_at inode blktab pos ≡ some block
      → (blocknum : ℕ) × (next_chunk inode blktab pos endpos
          ≡ ok (some (chunk_of inode pos endpos blocknum block)))
        × (get_elem? blktab blocknum ≡ some block)
  unfolding block_at
  next_chunk_found pos endpos block found =
      elim (Option-cases (get_elem? inode.blocklist (pos / inode.blocksize))) [
        | inl e ↦
            let none_there : block_at inode blktab pos ≡ none = rw (block_at, e) in absurd (cc)
        | inr (blocknum, e) ↦
            let there : block_at inode blktab pos ≡ get_elem? blktab blocknum = rw (block_at, e) in
            let at : get_elem? blktab blocknum ≡ some block = sym there ∙ found in
            let nonzero : (inode.blocksize == 0) ≡ false = ground arith in
            (blocknum, (unfold next_chunk in rw (next_chunk, nonzero, e, at)), at)
      ]

  pub chunk_pos : (pos endpos : ℕ) → pos < endpos → 0 < chunk_size inode pos endpos
  chunk_pos pos endpos h = grind arith

  -- The bytes of a chunk are in the same block, one after the other.
  pub same_block :
      (pos k : ℕ)
      → k < inode.blocksize - pos % inode.blocksize
      → ((pos + k) / inode.blocksize ≡ pos / inode.blocksize)
        × ((pos + k) % inode.blocksize ≡ pos % inode.blocksize + k)
  same_block pos k h = (grind arith, grind arith)

  pub chunk_inside :
      (pos endpos : ℕ) → chunk_size inode pos endpos ≤ inode.blocksize - pos % inode.blocksize
  chunk_inside pos endpos = omega arith

  pub block_at-chunk :
      (pos k : ℕ)
      → k < inode.blocksize - pos % inode.blocksize
      → block_at inode blktab (pos + k) ≡ block_at inode blktab pos
  unfolding block_at
  block_at-chunk pos k h = rw (block_at, (same_block pos k h).0)

  pub is_in_fblock-chunk :
      (a pos k : ℕ)
      → k < inode.blocksize - pos % inode.blocksize
      → is_in_fblock inode blktab a (pos + k) ≡ is_in_fblock inode blktab a pos
  is_in_fblock-chunk a pos k h = unfold is_in_fblock in rw (is_in_fblock, block_at-chunk pos k h)

  -- A chunk counts as a whole or not at all.
  pub count_in_fblock-chunk :
      (a pos n k rest : ℕ)
      → k + n ≤ inode.blocksize - pos % inode.blocksize
      → count_in_fblock inode blktab a (pos + k) (n + rest)
        ≡ (if is_in_fblock inode blktab a pos then n else 0)
          + count_in_fblock inode blktab a (pos + k + n) rest
  count_in_fblock-chunk a pos zero k rest h =
      let e : pos + k + 0 ≡ pos + k = omega arith in
      let e' : 0 + rest ≡ rest = omega arith in rw (e, e') (ground arith)
  count_in_fblock-chunk a pos (suc n) k rest h =
      let e : suc n + rest ≡ suc (n + rest) = omega arith in
      let e' : pos + k + suc n ≡ pos + (k + 1) + n = omega arith in
      let next : pos + k + 1 ≡ pos + (k + 1) = omega arith in
      rw
        (
          e,
          e',
          count_in_fblock-suc inode blktab a (pos + k) (n + rest),
          is_in_fblock-chunk a pos k (omega arith),
          next,
          count_in_fblock-chunk a pos n (k + 1) rest (omega arith),
        )
        (ground arith)
