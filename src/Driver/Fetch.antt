-- ===== src/Driver/Fetch.antt =====
-- `read_fblock` and `read_block`: what the cache does to a read.
use cromfs.Base.{
  ℕ, ◌+◌, ◌-◌, ◌<◌, ◌≤◌, ◌≡◌, refl, List, [], ◌∷◌, none, some, get_elem?, Result, ok, throw, fault,
  length, arith,
}
use cromfs.Base.{true, leb, Option-cases, inl, inr, take, drop, length-take_le, length-drop, lt→ltb}
use cromfs.Base.Bytes.{Bytes, write}
use cromfs.BlockTable.{Block}
use cromfs.Cache.{put, Cache, Entry, find_entry, insert_entry}
use cromfs.Cache.Held.{max_size-put, All-put, find_hit, find_miss, All-find_entry, All-insert_entry}
use cromfs.Cache.Lookup.{find_entry-key}
use cromfs.Driver.{◌>>=◌, Fs, LzmaDecode, lift, done}
use cromfs.Driver.Load.{read_fblock_uncached}
use cromfs.Driver.Read.{read_fblock, read_found, read_block, copy_block, ensure_blktab}
use cromfs.Driver.Content.{IsCoherent, moved}
use cromfs.Base.{subst, ap, ◌∙◌, sym}
use cromfs.Base.{min}
use cromfs.Driver.Read.{fill_blktab}
use cromfs.Driver.{◌>>◌}
use cromfs.Base.Bytes.{memcpy}

module _ (decode : LzmaDecode) where
  read_fblock_hit :
      (fblocknum : ℕ) (fs : Fs) (e : Entry Bytes)
      → find_entry fblocknum fs.fblock_cache.entries ≡ some e
      → read_fblock decode fblocknum fs
        ≡ done e.value (
            moved fs
              (record fs.fblock_cache {
                entries =
                    insert_entry (record e { stamp = fs.clock fs.ticks }) fs.fblock_cache.entries;
              })
              (fs.ticks + 1))
  read_fblock_hit fblocknum fs e hit =
      unfold read_fblock read_found in
      ap (λ r. read_found decode fblocknum fs r fs)
        (find_hit (fs.clock fs.ticks) fblocknum fs.fblock_cache e hit)

  read_fblock_miss :
      (fblocknum : ℕ) (fs : Fs)
      → find_entry fblocknum fs.fblock_cache.entries ≡ none
      → read_fblock decode fblocknum fs
        ≡ (lift (read_fblock_uncached decode fblocknum fs) >>= λ b fs'.
              done b (
                moved fs' (put (fs'.clock fs'.ticks) fblocknum b fs'.fblock_cache) (fs'.ticks + 1)))
            fs
  read_fblock_miss fblocknum fs miss =
      unfold read_fblock read_found in
      ap (λ r. read_found decode fblocknum fs r fs)
        (find_miss (fs.clock fs.ticks) fblocknum fs.fblock_cache miss)

  -- A read of an fblock through a coherent cache ends the way that loading the fblock does, in its
  -- data and in its errors alike, and leaves the cache coherent. The cache and the clock are all
  -- that it changes.
  pub read_fblock-refine :
      (fblocknum : ℕ) (fs : Fs)
      → IsCoherent decode fs
      → (cache : Cache Bytes) × (ticks : ℕ) × (read_fblock decode fblocknum fs
          ≡ lift (read_fblock_uncached decode fblocknum fs) (moved fs cache ticks))
        × IsCoherent decode (moved fs cache ticks)
  read_fblock-refine fblocknum fs coherent =
      elim (Option-cases (find_entry fblocknum fs.fblock_cache.entries)) [
        | inl miss ↦ loaded (read_fblock_uncached decode fblocknum fs) refl miss
        | inr (e, hit) ↦ cached e hit
      ]
    where
      now : ℕ
      now = fs.clock fs.ticks

      Outcome : Result Bytes → Type 0
      Outcome r =
          (cache : Cache Bytes) × (ticks : ℕ) × (read_fblock decode fblocknum fs
            ≡ lift r (moved fs cache ticks))
          × IsCoherent decode (moved fs cache ticks)

      Loaded : Entry Bytes → Type 0
      Loaded e = read_fblock_uncached decode e.key fs ≡ ok e.value

      loaded :
          (r : Result Bytes)
          → read_fblock_uncached decode fblocknum fs ≡ r
          → find_entry fblocknum fs.fblock_cache.entries ≡ none
          → Outcome (read_fblock_uncached decode fblocknum fs)
      loaded (ok b) e miss = rw e (
        put now fblocknum b fs.fblock_cache,
        fs.ticks + 1,
        read_fblock_miss fblocknum fs miss ∙ rw e,
        (
          subst (λ n. 0 < n) (sym (max_size-put now fblocknum b fs.fblock_cache)) coherent.0,
          All-put Loaded now fblocknum b fs.fblock_cache e coherent.1,
        ),
      )
      loaded (throw err) e miss =
          rw e (fs.fblock_cache, fs.ticks, read_fblock_miss fblocknum fs miss ∙ rw e, coherent)
      loaded fault e miss =
          rw e (fs.fblock_cache, fs.ticks, read_fblock_miss fblocknum fs miss ∙ rw e, coherent)

      cached :
          (e : Entry Bytes)
          → find_entry fblocknum fs.fblock_cache.entries ≡ some e
          → Outcome (read_fblock_uncached decode fblocknum fs)
      cached e hit =
          let here : Loaded e =
            All-find_entry Loaded fblocknum fs.fblock_cache.entries e coherent.1 hit in
          let at : read_fblock_uncached decode fblocknum fs ≡ ok e.value =
            subst (λ k. read_fblock_uncached decode k fs ≡ ok e.value)
              (find_entry-key fblocknum fs.fblock_cache.entries e hit) here in
          rw at (
            record fs.fblock_cache {
              entries = insert_entry (record e { stamp = now }) fs.fblock_cache.entries;
            },
            fs.ticks + 1,
            read_fblock_hit fblocknum fs e hit,
            (
              coherent.0,
              All-insert_entry Loaded (record e { stamp = now }) fs.fblock_cache.entries here
                  coherent.1,
            ),
          )

module _ (decode : LzmaDecode) where
  fill_blktab_filled :
      (blktab : List Block) (fs : Fs) (ind : ℕ) (block : Block)
      → get_elem? blktab ind ≡ some block
      → fill_blktab decode blktab fs ≡ done tt fs
  unfolding fill_blktab
  fill_blktab_filled [] fs ind block found = cc
  fill_blktab_filled (b ∷ bs) fs ind block found = refl

  -- A block table with a block in it is not read again.
  pub ensure_blktab_filled :
      (fs : Fs) (ind : ℕ) (block : Block)
      → get_elem? fs.blktab ind ≡ some block
      → ensure_blktab decode fs ≡ done tt fs
  unfolding ensure_blktab
  ensure_blktab_filled fs ind block found = fill_blktab_filled fs.blktab fs ind block found

copy_block_inside :
    (fblock : Bytes) (startoffs : ℕ) (target : Bytes) (pos size : ℕ)
    → 0 < size
    → startoffs + size ≤ length fblock
    → pos + size ≤ length target
    → copy_block fblock startoffs target pos size
      ≡ ok (write target pos (take size (drop startoffs fblock)))
copy_block_inside fblock startoffs target pos size some_bytes inside fits =
    let n : min (length fblock - startoffs) size ≡ size = omega arith in
    let len : length (take size (drop startoffs fblock)) ≡ size =
      length-take_le size (drop startoffs fblock) (omega (arith, length-drop startoffs fblock)) in
    let room : leb (pos + length (take size (drop startoffs fblock))) (length target) ≡ true =
      ground arith in
    unfold copy_block memcpy in
    rw (copy_block, lt→ltb startoffs (length fblock) (omega arith), n, memcpy, room)

module _ (decode : LzmaDecode) where
  -- The bytes of a block's part that lies within its fblock.
  pub read_block_inside :
      (ind offset : ℕ) (target : Bytes) (pos size : ℕ) (fs : Fs) (block : Block) (bytes : Bytes)
      → IsCoherent decode fs
      → get_elem? fs.blktab ind ≡ some block
      → read_fblock_uncached decode block.fblocknum fs ≡ ok bytes
      → 0 < size
      → block.startoffs + offset + size ≤ length bytes
      → pos + size ≤ length target
      → (cache : Cache Bytes) × (ticks : ℕ) × (read_block decode ind offset target pos size fs
          ≡ done
              (write target pos (take size (drop (block.startoffs + offset) bytes)))
              (moved fs cache ticks))
        × IsCoherent decode (moved fs cache ticks)
  read_block_inside ind offset target pos size fs block bytes coherent found loads some_bytes inside
        fits =
      let (cache, ticks, reads, coherent') =
        read_fblock-refine decode block.fblocknum fs coherent in
      let filled : ensure_blktab decode fs ≡ done tt fs =
        ensure_blktab_filled decode fs ind block found in
      (
        cache,
        ticks,
        unfold read_block in
            rw (
              read_block,
              ◌>>◌,
              ◌>>=◌,
              filled,
              found,
              reads,
              loads,
              copy_block_inside bytes (block.startoffs + offset) target pos size some_bytes inside
                  fits,
            ),
        coherent',
      )
