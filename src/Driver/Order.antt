-- ===== src/Driver/Order.antt =====
-- The two parallel loops of `read_file_data`: the fblocks in another order.
use cromfs.Base.{
  ℕ, zero, suc, ◌+◌, ◌-◌, ◌%◌, ◌^◌, ◌<◌, ◌≤◌, ◌≡◌, refl, sym, ap, ap₂, ◌∙◌, min, arith,
}
use cromfs.Base.{List, [], ◌∷◌, some, get_elem?, length, Bool-cases, inl, inr}
use cromfs.Base.{not, ◌&&◌, ltb, leb, ◌==◌, if◌then◌else◌}
use cromfs.Base.Bytes.{Bytes}
use cromfs.Inode.{Inode}
use cromfs.BlockTable.{Block}
use cromfs.Cache.{Cache}
use cromfs.Driver.{Fs, LzmaDecode, done}
use cromfs.Driver.Read.{read_fblocks}
use cromfs.Driver.Content.{block_at, file_byte, IsReadable, IsCoherent, moved}
use cromfs.Driver.Chunks.{is_in_fblock}
use cromfs.Driver.Needed.{occurs}
use cromfs.Driver.Totals.{is_in_any, total, total-zero, total-suc}
use cromfs.Driver.Fblocks.{read_fblocks-Fills}

-- Lists of the same length with the same elements at all places are equal.
pub same_elements :
    (xs ys : Bytes) → length xs ≡ length ys → ((j : ℕ) → get_elem? xs j ≡ get_elem? ys j) → xs ≡ ys
same_elements [] [] len same = refl
same_elements [] (y ∷ ys) len same = absurd (omega arith)
same_elements (x ∷ xs) [] len same = absurd (omega arith)
same_elements (x ∷ xs) (y ∷ ys) len same =
    let first : some x ≡ some y = same 0 in
    let at : x ≡ y = cc in
    ap₂ (λ z zs. z ∷ zs) at (same_elements xs ys (omega arith) (λ j. same (suc j)))

module _ (inode : Inode) (blktab : List Block) where
  is_in_any-test :
      (xs : List ℕ) (i : ℕ) (block : Block)
      → block_at inode blktab i ≡ some block
      → is_in_any inode blktab xs i ≡ not (occurs block.fblocknum xs == 0)
  unfolding is_in_any occurs
  is_in_any-test [] i block found = refl
  is_in_any-test (a ∷ xs) i block found =
      let inn : is_in_fblock inode blktab a i ≡ (block.fblocknum == a) =
        unfold is_in_fblock in rw (is_in_fblock, found) in
      let plus_zero : occurs block.fblocknum xs ≡ 0 + occurs block.fblocknum xs = omega arith in
      elim (Bool-cases (block.fblocknum == a)) [
        | inl e ↦ rw (inn, e) (ground arith)
        | inr e ↦ rw (inn, e) (is_in_any-test xs i block found ∙ ap (λ n. not (n == 0)) plus_zero)
      ]

  module _ (xs ys : List ℕ) (same : (n : ℕ) → occurs n xs ≡ occurs n ys) where
    same_covers :
        (i : ℕ) (block : Block)
        → block_at inode blktab i ≡ some block
        → is_in_any inode blktab xs i ≡ is_in_any inode blktab ys i
    same_covers i block found =
        is_in_any-test xs i block found
        ∙ (ap (λ n. not (n == 0)) (same block.fblocknum) ∙ sym (is_in_any-test ys i block found))

    same_total :
        (i n : ℕ)
        → ((k : ℕ) → i ≤ k → k < i + n → (block : Block) × (block_at inode blktab k ≡ some block))
        → total inode blktab xs i n ≡ total inode blktab ys i n
    same_total i zero there = total-zero inode blktab xs i ∙ sym (total-zero inode blktab ys i)
    same_total i (suc n) there =
        let (block, found) = there i (omega arith) (omega arith) in
        omega (
          arith,
          total-suc inode blktab xs i n block found,
          total-suc inode blktab ys i n block found,
          same block.fblocknum,
          same_total (i + 1) n (λ k low high. there k (omega arith) (omega arith)),
        )

module _ (decode : LzmaDecode) (fs0 : Fs) (inode : Inode) (offset size : ℕ)
    (some_size : 0 < inode.blocksize) where
  abbrev from : ℕ
  from = min inode.bytesize offset

  abbrev stop : ℕ
  stop = min inode.bytesize ((offset + size) % 2 ^ 64)

  module _ (readable : (i : ℕ) → from ≤ i → i < stop → IsReadable decode fs0 inode i) where
    block_there :
        (k : ℕ) → from ≤ k → k < stop → (block : Block) × (block_at inode fs0.blktab k ≡ some block)
    unfolding IsReadable
    block_there k low high =
        let (block, bytes, found, loads, inside, bit) = readable k low high in (block, found)

    same_mask :
        (xs ys : List ℕ)
        → ((n : ℕ) → occurs n xs ≡ occurs n ys)
        → (i : ℕ)
        → (leb from i && (ltb i stop && is_in_any inode fs0.blktab xs i))
          ≡ (leb from i && (ltb i stop && is_in_any inode fs0.blktab ys i))
    same_mask xs ys same i = elim (Bool-cases (leb from i)) [
      | inr before ↦ rw before refl
      | inl low ↦ elim (Bool-cases (ltb i stop)) [
        | inr behind ↦ rw (low, behind) refl
        | inl high ↦
            let (block, found) = block_there i (ground arith) (ground arith) in
            rw (low, high) (same_covers inode fs0.blktab xs ys same i block found)
      ]
    ]

    -- The loops over the needed fblocks end with the same bytes in the target and the same number of
    -- bytes whatever the order of the fblocks is: for any two lists that have the same fblocks
    -- equally often. Only the cache and the clock can differ. Each byte to read is readable, the
    -- cache is coherent, the block size is not 0 and the target reaches to the end of the read.
    pub read_fblocks_order :
        (xs ys : List ℕ) (t : Bytes) (r : ℕ) (cache : Cache Bytes) (ticks : ℕ)
        → ((n : ℕ) → occurs n xs ≡ occurs n ys)
        → stop ≤ offset + length t
        → IsCoherent decode (moved fs0 cache ticks)
        → (t' : Bytes) × (result : ℕ) × (cache1 : Cache Bytes) × (ticks1 : ℕ) × (cache2 : Cache
            Bytes)
          × (ticks2 : ℕ) × (read_fblocks decode xs inode offset t size r (moved fs0 cache ticks)
              ≡ done (t', result) (moved fs0 cache1 ticks1))
          × (read_fblocks decode ys inode offset t size r (moved fs0 cache ticks)
              ≡ done (t', result) (moved fs0 cache2 ticks2))
    read_fblocks_order xs ys t r cache ticks same fits coherent =
        let (t1, c1, k1, run1, coherent1, len1, content1) =
          read_fblocks-Fills decode fs0 inode offset size some_size xs t r cache ticks fits readable
            coherent in
        let (t2, c2, k2, run2, coherent2, len2, content2) =
          read_fblocks-Fills decode fs0 inode offset size some_size ys t r cache ticks fits readable
            coherent in
        let target : t2 ≡ t1 = same_elements t2 t1 (len2 ∙ sym len1) (λ j.
          content2 j
          ∙ (ap (λ b. if b then file_byte decode fs0 inode (offset + j) else get_elem? t j)
                (sym (same_mask xs ys same (offset + j)))
              ∙ sym (content1 j))) in
        let number : r + total inode fs0.blktab ys from (stop - from)
            ≡ r + total inode fs0.blktab xs from (stop - from) =
          ap (λ n. r + n)
            (sym (
              same_total inode fs0.blktab xs ys same from (stop - from)
                (λ k low high. block_there k low (omega arith)))) in
        (
          t1,
          r + total inode fs0.blktab xs from (stop - from),
          c1,
          k1,
          c2,
          k2,
          run1,
          run2 ∙ ap₂ (λ z n. done (z, n) (moved fs0 c2 k2)) target number,
        )
