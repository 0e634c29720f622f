-- ===== src/Driver/OneFblock/Loop.antt =====
-- The loop to its end: the bytes that it fills in and the number that it returns.
use cromfs.Base.{ℕ, zero, suc, ◌+◌, ◌-◌, ◌%◌, ◌<◌, ◌≤◌, ◌≡◌, refl, ap, ◌∙◌, arith}
use cromfs.Base.{get_elem?, length, Bool-cases, inl, inr, ◌⊎◌}
use cromfs.Base.{ltb, ◌==◌}
use cromfs.Base.Bytes.{Bytes, write, length-write}
use cromfs.Inode.{Inode}
use cromfs.Cache.{Cache}
use cromfs.Driver.{Fs, LzmaDecode, done}
use cromfs.Driver.Read.{Chunk, chunk_of, one_fblock_loop}
use cromfs.Driver.Content.{file_byte, IsReadable, IsCoherent, moved}
use cromfs.Driver.Fetch.{read_block_inside}
use cromfs.Driver.Chunks.{is_in_fblock, count_in_fblock, chunk_size, next_chunk_found, chunk_pos}
use cromfs.Driver.OneFblock.{if_same, if_not, Fills, covers_from, loop_end, loop_skip, loop_take}
use cromfs.Driver.OneFblock.Round.{Copied, copied, count_at_chunk, slice}
use cromfs.Driver.OneFblock.Merge.{
  covers_skip, merge_chunk, nothing_left, counted_skip, counted_take,
}

module _ (decode : LzmaDecode) (fs0 : Fs) (inode : Inode) (offset endpos : ℕ)
    (some_size : 0 < inode.blocksize) where
  not_behind : {p : ℕ} → p < endpos → (offset ≤ p) ⊎ (endpos ≤ p) → offset ≤ p
  not_behind h (inl off) = off
  not_behind h (inr stop) = absurd (omega arith)

  -- What the loop does from position `p` on, with `fuel` rounds left.
  abbrev LoopFills : ℕ → ℕ → Type 0
  LoopFills a fuel =
      (p : ℕ) (t : Bytes) (r : ℕ) (cache : Cache Bytes) (ticks : ℕ)
      → endpos - p ≤ fuel
      → (offset ≤ p) ⊎ (endpos ≤ p)
      → endpos ≤ offset + length t
      → ((i : ℕ) → p ≤ i → i < endpos → IsReadable decode fs0 inode i)
      → IsCoherent decode (moved fs0 cache ticks)
      → Fills decode fs0 inode offset endpos
          (one_fblock_loop decode fuel inode offset a p endpos t r (moved fs0 cache ticks))
          (r + count_in_fblock inode fs0.blktab a p (endpos - p))
          (covers_from decode fs0 inode offset endpos a p) t

  another_round :
      (a fuel p : ℕ) (t : Bytes) (r : ℕ) (cache : Cache Bytes) (ticks : ℕ)
      → LoopFills a fuel
      → endpos - p ≤ suc fuel
      → p < endpos
      → offset ≤ p
      → endpos ≤ offset + length t
      → ((i : ℕ) → p ≤ i → i < endpos → IsReadable decode fs0 inode i)
      → IsCoherent decode (moved fs0 cache ticks)
      → Fills decode fs0 inode offset endpos
          (one_fblock_loop decode (suc fuel) inode offset a p endpos t r (moved fs0 cache ticks))
          (r + count_in_fblock inode fs0.blktab a p (endpos - p))
          (covers_from decode fs0 inode offset endpos a p)
          t
  another_round a fuel p t r cache ticks others fuel_ok h off fits readable coherent =
      let n = chunk_size inode p endpos in
      let n_pos : 0 < n = chunk_pos inode fs0.blktab some_size p endpos h in
      let n_in : p + n ≤ endpos = omega arith in
      let c : Copied decode fs0 inode offset endpos some_size p =
        copied decode fs0 inode offset endpos some_size p h readable in
      let (blocknum, chunk, at) =
        next_chunk_found inode fs0.blktab some_size p endpos c.block c.found in
      let ch : Chunk = chunk_of inode p endpos blocknum c.block in
      let inn : is_in_fblock inode fs0.blktab a p ≡ (c.block.fblocknum == a) =
        unfold is_in_fblock in rw (is_in_fblock, c.found) in
      let count = count_at_chunk decode fs0 inode offset endpos some_size a p h in
      let readable' : (i : ℕ) → p + n ≤ i → i < endpos → IsReadable decode fs0 inode i =
        λ i low high. readable i (omega arith) high in
      elim (Bool-cases (c.block.fblocknum == a)) [
        | inr other ↦
            let (t', cache', ticks', run, coherent', len, content) =
              others (p + n) t r cache ticks (omega arith) (inl (omega arith)) fits readable'
                coherent in
            (
              t',
              cache',
              ticks',
              loop_skip decode fs0 inode offset endpos a fuel p t r (moved fs0 cache ticks) ch h
                    chunk other
                  ∙ (run
                      ∙ ap (λ q. done (t', q) (moved fs0 cache' ticks'))
                          (counted_skip decode fs0 inode offset endpos some_size a p r h
                            (inn ∙ other))),
              coherent',
              len,
              λ j.
                  content j
                  ∙ if_same (covers_from decode fs0 inode offset endpos a (p + n) (offset + j))
                      (covers_from decode fs0 inode offset endpos a p (offset + j))
                      (file_byte decode fs0 inode (offset + j)) (get_elem? t j) (get_elem? t j)
                      (covers_skip decode fs0 inode offset endpos some_size a p (offset + j) h
                        (inn ∙ other))
                      refl,
            )
        | inl same ↦
            let t1 : Bytes =
              write t (p - offset) (slice decode fs0 inode offset endpos some_size p c) in
            let len1 : length t1 ≡ length t =
              length-write t (p - offset) (slice decode fs0 inode offset endpos some_size p c) in
            let (cache1, ticks1, reads, coherent1) =
              read_block_inside decode blocknum (p % inode.blocksize) t (p - offset) n
                (moved fs0 cache ticks) c.block c.bytes coherent at c.loads n_pos c.inside
                (omega arith) in
            let (t', cache', ticks', run, coherent', len, content) =
              others (p + n) t1 (r + n) cache1 ticks1 (omega arith) (inl (omega arith))
                (omega arith) readable' coherent1 in
            (
              t',
              cache',
              ticks',
              loop_take decode fs0 inode offset endpos a fuel p t t1 r (moved fs0 cache ticks)
                    (moved fs0 cache1 ticks1) ch h chunk same reads
                  ∙ (run
                      ∙ ap (λ q. done (t', q) (moved fs0 cache' ticks'))
                          (counted_take decode fs0 inode offset endpos some_size a p r h
                            (inn ∙ same))),
              coherent',
              len ∙ len1,
              λ j.
                  content j
                  ∙ merge_chunk decode fs0 inode offset endpos some_size a p t c j h off fits
                      (inn ∙ same),
            )
      ]

  pub one_fblock_loop-Fills : (a fuel : ℕ) → LoopFills a fuel
  one_fblock_loop-Fills a zero p t r cache ticks fuel off fits readable coherent = (
    t,
    cache,
    ticks,
    loop_end decode fs0 inode offset endpos a 0 p t r (moved fs0 cache ticks) (omega arith)
        ∙ ap (λ q. done (t, q) (moved fs0 cache ticks))
            (nothing_left decode fs0 inode offset endpos some_size a p r (omega arith)),
    coherent,
    refl,
    λ j.
        if_not (covers_from decode fs0 inode offset endpos a p (offset + j))
          (file_byte decode fs0 inode (offset + j)) (get_elem? t j) (ground arith),
  )
  one_fblock_loop-Fills a (suc fuel) p t r cache ticks fuel_ok off fits readable coherent =
      elim (Bool-cases (ltb p endpos)) [
        | inr stop ↦ (
          t,
          cache,
          ticks,
          loop_end decode fs0 inode offset endpos a (suc fuel) p t r (moved fs0 cache ticks)
                (ground arith)
              ∙ ap (λ q. done (t, q) (moved fs0 cache ticks))
                  (nothing_left decode fs0 inode offset endpos some_size a p r (ground arith)),
          coherent,
          refl,
          λ j.
              if_not (covers_from decode fs0 inode offset endpos a p (offset + j))
                (file_byte decode fs0 inode (offset + j)) (get_elem? t j) (ground arith),
        )
        | inl go ↦
            another_round a fuel p t r cache ticks (one_fblock_loop-Fills a fuel) fuel_ok
              (ground arith) (not_behind (ground arith) off) fits readable coherent
      ]
