-- ===== src/Driver/Collect.antt =====
-- The first loop of `read_file_data`, run to its end.
use cromfs.Base.{
  ℕ, zero, suc, ◌+◌, ◌-◌, ◌*◌, ◌/◌, ◌%◌, ◌<◌, ◌≤◌, ◌≡◌, refl, sym, ap, subst, ◌∙◌, arith,
}
use cromfs.Base.{
  List, [], ◌∷◌, ◌++◌, Option, none, some, get_elem?, length, Result, ok, throw, Option-cases,
  Bool-cases, inl, inr, replicate, length-replicate,
}
use cromfs.Base.{Bool, true, false, ltb, leb, ◌==◌, if◌then◌else◌, lt→ltb, le→ltb}
use cromfs.Base
use cromfs.Base.Access.{get_elem?-some}
use cromfs.Base.BitSet.{digit_zero}
use cromfs.Base.Bytes.{Bytes}
use cromfs.Inode.{Inode}
use cromfs.BlockTable.{Block}
use cromfs.Driver.{Fs, Fblock, LzmaDecode}
use cromfs.Driver.Load.{load_fblock}
use cromfs.Driver.Read.{Required, require, collect, bitset_bitness, Chunk, chunk_of, next_chunk}
use cromfs.Driver.Content.{block_at, IsReadable}
use cromfs.Driver.Chunks.{chunk_size, next_chunk_found, chunk_pos, block_at-chunk}
use cromfs.Driver.Needed.{occurs, all_needed, IsTracked, Keeps, require_lists, bit_of}
use cromfs.Base.BitSet.{digit}

-- An fblock that loads is in the table.
load_fblock_known :
    (decode : LzmaDecode) (image : Bytes) (fblktab : List Fblock) (n : ℕ) (bytes : Bytes)
    → load_fblock decode image fblktab n ≡ ok bytes
    → n < length fblktab
load_fblock_known decode image fblktab n bytes loads = elim (Option-cases (get_elem? fblktab n)) [
  | inl e ↦
      let missing : load_fblock decode image fblktab n ≡ throw Base.enodata =
        unfold load_fblock in rw (load_fblock, e) in
      absurd (cc)
  | inr (fblock, e) ↦ get_elem?-some fblktab n fblock e
]

module _ (decode : LzmaDecode) (fs : Fs) (inode : Inode) (endpos : ℕ)
    (some_size : 0 < inode.blocksize) where
  collect_end :
      (fuel p : ℕ) (req : Required) → endpos ≤ p → collect fs inode fuel p endpos req ≡ ok req
  collect_end zero p req h = unfold collect in rw (collect, le→ltb p endpos h)
  collect_end (suc fuel) p req h = unfold collect in rw (collect, le→ltb p endpos h)

  collect_round :
      (fuel p : ℕ) (req req' : Required) (c : Chunk)
      → p < endpos
      → next_chunk inode fs.blktab p endpos ≡ ok (some c)
      → require fs c.fblocknum req ≡ ok req'
      → collect fs inode (suc fuel) p endpos req ≡ collect fs inode fuel (p + c.bytes) endpos req'
  collect_round fuel p req req' c h found needs =
      unfold collect in rw (collect, lt→ltb p endpos h, found, needs)

  -- Every byte from `p` on has its fblock in the list, once.
  abbrev pub Covers : ℕ → Required → Type 0
  Covers p req =
      (i : ℕ) (block : Block)
      → p ≤ i
      → i < endpos
      → block_at inode fs.blktab i ≡ some block
      → occurs block.fblocknum (all_needed req) ≡ 1

  abbrev pub Collects : ℕ → ℕ → Required → Type 0
  Collects fuel p req =
      (req' : Required) × (collect fs inode fuel p endpos req ≡ ok req')
      × Covers p req'
      × Keeps fs req req'

  pub collect_lists :
      (fuel p : ℕ) (req : Required)
      → endpos - p ≤ fuel
      → ((i : ℕ) → p ≤ i → i < endpos → IsReadable decode fs inode i)
      → IsTracked fs req
      → Collects fuel p req
  unfolding IsReadable
  collect_lists zero p req enough readable tracked = (
    req,
    collect_end zero p req (omega arith),
    λ i b low high. absurd (omega arith),
    λ n once. once,
  )
  collect_lists (suc fuel) p req enough readable tracked = elim (Bool-cases (ltb p endpos)) [
    | inr stop ↦
        let at_end : endpos ≤ p = ground arith in
        (
          req,
          collect_end (suc fuel) p req at_end,
          λ i b low high. absurd (omega arith),
          λ n once. once,
        )
    | inl go ↦
        let h : p < endpos = ground arith in
        let n = chunk_size inode p endpos in
        let n_pos : 0 < n = chunk_pos inode fs.blktab some_size p endpos h in
        let (block, bytes, found, loads, inside, low) = readable p (omega arith) h in
        let known : block.fblocknum < length fs.fblktab =
          load_fblock_known decode fs.image fs.fblktab block.fblocknum bytes loads in
        let (blocknum, chunk, at) =
          next_chunk_found inode fs.blktab some_size p endpos block found in
        let (req1, needs, tracked1, once, kept) =
          require_lists fs block.fblocknum req tracked known low in
        let (req', run, covers, kept') =
          collect_lists fuel (p + n) req1 (omega arith) (λ i from to. readable i (omega arith) to)
            tracked1 in
        (
          req',
          collect_round fuel p req req1 (chunk_of inode p endpos blocknum block) h chunk needs
              ∙ run,
          λ i b from to b_at. elim (Bool-cases (leb (p + n) i)) [
            | inl behind ↦ covers i b (ground arith) to b_at
            | inr within ↦
                let back : p + (i - p) ≡ i = omega arith in
                let i_in : i - p < inode.blocksize - p % inode.blocksize = ground arith in
                let same_at : block_at inode fs.blktab i ≡ block_at inode fs.blktab p =
                  subst (λ q. block_at inode fs.blktab q ≡ block_at inode fs.blktab p) back
                    (block_at-chunk inode fs.blktab some_size p (i - p) i_in) in
                let same_some : some block ≡ some b = sym found ∙ (sym same_at ∙ b_at) in
                let same : block ≡ b = cc in
                subst (λ (q : Block). occurs q.fblocknum (all_needed req') ≡ 1) same
                  (kept' block.fblocknum once)
          ],
          λ m m_once. kept' m (kept m m_once),
        )
  ]

get_elem?-replicate : (k i w : ℕ) → get_elem? (replicate k 0) i ≡ some w → w ≡ 0
get_elem?-replicate zero i w h = cc
get_elem?-replicate (suc k) zero w h = let e : 0 ≡ w = cc in sym e
get_elem?-replicate (suc k) (suc i) w h = get_elem?-replicate k i w h

bit_of-none : (k n : ℕ) → bit_of (replicate k 0) n ≡ 0
bit_of-none k n =
    unfold bit_of in
    elim (Option-cases {A = ℕ} (get_elem? (replicate k 0) (n / 64))) [
      | inl e ↦ rw (bit_of, e) refl
      | inr (w, e) ↦
          rw (bit_of, e)
            (ap (digit (n % 64)) (get_elem?-replicate k (n / 64) w e) ∙ digit_zero (n % 64))
    ]

-- The empty bit set.
pub none_needed :
    (fs : Fs)
    → IsTracked fs (record {
      bits = replicate ((length fs.fblktab + bitset_bitness - 1) / bitset_bitness) 0;
      cached = [];
      uncached = [];
    })
unfolding occurs
none_needed fs = (
  length-replicate ((length fs.fblktab + bitset_bitness - 1) / bitset_bitness) 0,
  λ n known low. sym (bit_of-none ((length fs.fblktab + bitset_bitness - 1) / bitset_bitness) n),
)
