-- ===== src/Driver/OneFblock/Round.antt =====
-- What one round of the loop copies, and what it counts.
use cromfs.Base.{ℕ, ◌+◌, ◌-◌, ◌%◌, ◌<◌, ◌≤◌, ◌≡◌, sym, ap, ◌∙◌, arith}
use cromfs.Base.{some, get_elem?, length, take, drop, ok}
use cromfs.Base.{if◌then◌else◌}
use cromfs.Base.{length-take_le, length-drop}
use cromfs.Base.Access.{get_elem?-take, get_elem?-drop}
use cromfs.Base.Bytes.{Bytes}
use cromfs.Inode.{Inode}
use cromfs.BlockTable.{Block}
use cromfs.Driver.{Fs, LzmaDecode}
use cromfs.Driver.Load.{read_fblock_uncached}
use cromfs.Driver.Content.{block_at, file_byte, IsReadable}
use cromfs.Driver.Chunks.{
  is_in_fblock, count_in_fblock, chunk_size, chunk_pos, chunk_inside, same_block, block_at-chunk,
  is_in_fblock-chunk, count_in_fblock-chunk,
}
use cromfs.Base.{subst}

module _ (decode : LzmaDecode) (fs0 : Fs) (inode : Inode) (offset endpos : ℕ)
    (some_size : 0 < inode.blocksize) where
  -- What a chunk of readable bytes copies.
  pub record Copied (p : ℕ) : Type 0 where
    pub block : Block
    pub bytes : Bytes
    pub found : block_at inode fs0.blktab p ≡ some block
    pub loads : read_fblock_uncached decode block.fblocknum fs0 ≡ ok bytes
    pub inside : block.startoffs + p % inode.blocksize + chunk_size inode p endpos ≤ length bytes
    pub content :
        (k : ℕ)
        → k < chunk_size inode p endpos
        → file_byte decode fs0 inode (p + k)
          ≡ get_elem? bytes (block.startoffs + p % inode.blocksize + k)

  pub file_byte_at :
      (i : ℕ) (block : Block) (bytes : Bytes)
      → block_at inode fs0.blktab i ≡ some block
      → read_fblock_uncached decode block.fblocknum fs0 ≡ ok bytes
      → file_byte decode fs0 inode i ≡ get_elem? bytes (block.startoffs + i % inode.blocksize)
  file_byte_at i block bytes found loads = unfold file_byte in rw (file_byte, found, loads)

  pub copied :
      (p : ℕ)
      → p < endpos
      → ((i : ℕ) → p ≤ i → i < endpos → IsReadable decode fs0 inode i)
      → Copied p
  unfolding IsReadable
  copied p h readable =
      let n = chunk_size inode p endpos in
      let n_pos : 0 < n = chunk_pos inode fs0.blktab some_size p endpos h in
      let n_in = chunk_inside inode fs0.blktab some_size p endpos in
      let (block, bytes, found, loads, inside, low) = readable p (omega arith) h in
      let (block', bytes', found', loads', inside', low') =
        readable (p + (n - 1)) (omega arith) (omega arith) in
      let at : some block' ≡ some block =
        sym found' ∙ (block_at-chunk inode fs0.blktab some_size p (n - 1) (omega arith) ∙ found) in
      let same_b : block' ≡ block = cc in
      let same_data : ok bytes' ≡ ok bytes =
        sym loads'
        ∙ (ap (λ (b : Block). read_fblock_uncached decode b.fblocknum fs0) same_b ∙ loads) in
      let same_bytes : bytes' ≡ bytes = cc in
      let same_start : block'.startoffs ≡ block.startoffs =
        ap (λ (b : Block). b.startoffs) same_b in
      let same_length : length bytes' ≡ length bytes = ap (λ (xs : Bytes). length xs) same_bytes in
      let last_in = (same_block inode fs0.blktab some_size p (n - 1) (omega arith)).1 in
      record {
        block = block;
        bytes = bytes;
        found = found;
        loads = loads;
        inside = omega arith;
        content = λ k k_in.
            file_byte_at (p + k) block bytes
              (block_at-chunk inode fs0.blktab some_size p k (omega arith) ∙ found) loads
            ∙ ap (get_elem? bytes)
                (omega (arith, (same_block inode fs0.blktab some_size p k (omega arith)).1));
      }

  pub count_at_chunk :
      (a p : ℕ)
      → p < endpos
      → count_in_fblock inode fs0.blktab a p (endpos - p)
        ≡ (if is_in_fblock inode fs0.blktab a p then chunk_size inode p endpos else 0)
          + count_in_fblock inode fs0.blktab a
              (p + chunk_size inode p endpos)
              (endpos - (p + chunk_size inode p endpos))
  count_at_chunk a p h =
      let n = chunk_size inode p endpos in
      let e : endpos - p ≡ n + (endpos - (p + n)) = omega arith in
      let start : p + 0 ≡ p = omega arith in
      ap (λ m. count_in_fblock inode fs0.blktab a p m) e
      ∙ subst
          (λ q.
            count_in_fblock inode fs0.blktab a q (n + (endpos - (p + n)))
            ≡ (if is_in_fblock inode fs0.blktab a p then n else 0)
              + count_in_fblock inode fs0.blktab a (q + n) (endpos - (p + n)))
          start
          (count_in_fblock-chunk inode fs0.blktab some_size a p n 0 (endpos - (p + n))
            (omega arith))

  pub in_chunk :
      (a p i : ℕ)
      → p ≤ i
      → i < p + chunk_size inode p endpos
      → is_in_fblock inode fs0.blktab a i ≡ is_in_fblock inode fs0.blktab a p
  in_chunk a p i low high =
      let e : p + (i - p) ≡ i = omega arith in
      subst (λ q. is_in_fblock inode fs0.blktab a q ≡ is_in_fblock inode fs0.blktab a p) e
        (is_in_fblock-chunk inode fs0.blktab some_size a p (i - p) (omega arith))

  -- The bytes of one chunk, copied to their place in the target.
  abbrev pub slice : (p : ℕ) → Copied p → Bytes
  slice p c =
      take (chunk_size inode p endpos) (drop (c.block.startoffs + p % inode.blocksize) c.bytes)

  pub length-slice : (p : ℕ) (c : Copied p) → length (slice p c) ≡ chunk_size inode p endpos
  length-slice p c =
      length-take_le (chunk_size inode p endpos)
        (drop (c.block.startoffs + p % inode.blocksize) c.bytes)
        (omega (arith, c.inside, length-drop (c.block.startoffs + p % inode.blocksize) c.bytes))

  pub slice-content :
      (p k : ℕ) (c : Copied p)
      → k < chunk_size inode p endpos
      → get_elem? (slice p c) k ≡ file_byte decode fs0 inode (p + k)
  slice-content p k c h =
      get_elem?-take (chunk_size inode p endpos)
        (drop (c.block.startoffs + p % inode.blocksize) c.bytes) k h
      ∙ (get_elem?-drop (c.block.startoffs + p % inode.blocksize) c.bytes k ∙ sym (c.content k h))
