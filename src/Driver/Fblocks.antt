-- ===== src/Driver/Fblocks.antt =====
-- The loops over the needed fblocks.
use cromfs.Base.{ℕ, ◌+◌, ◌-◌, ◌%◌, ◌^◌, ◌<◌, ◌≤◌, ◌≡◌, refl, ap, ◌∙◌, min, arith}
use cromfs.Base.{List, [], ◌∷◌, get_elem?, length, Bool-cases, inl, inr, ◌⊎◌}
use cromfs.Base.{Bool, true, false, ◌&&◌, ◌||◌, ltb, leb, if◌then◌else◌}
use cromfs.Base.Bytes.{Bytes}
use cromfs.Inode.{Inode}
use cromfs.Cache.{Cache}
use cromfs.Driver.{Fs, LzmaDecode, done, ◌>>=◌}
use cromfs.Driver.Read.{read_fblocks, read_file_data_from_one_fblock_only}
use cromfs.Driver.Content.{file_byte, IsReadable, IsCoherent, moved}
use cromfs.Driver.Chunks.{is_in_fblock, count_in_fblock}
use cromfs.Driver.OneFblock.{Fills}
use cromfs.Driver.OneFblock.Loop.{one_fblock_loop-Fills}
use cromfs.Driver.Read.{one_fblock_loop}
use cromfs.Driver.Totals.{is_in_any, total}

module _ (decode : LzmaDecode) (fs0 : Fs) (inode : Inode) (offset size : ℕ)
    (some_size : 0 < inode.blocksize) where
  abbrev pub start : ℕ
  start = min inode.bytesize offset

  abbrev pub end : ℕ
  end = min inode.bytesize ((offset + size) % 2 ^ 64)

  abbrev pub covers_any : List ℕ → ℕ → Bool
  covers_any xs i = leb start i && (ltb i end && is_in_any inode fs0.blktab xs i)

  -- The target after the bytes of fblock `a` and then those of the fblocks `xs`.
  merge :
      {A : Type 0} (l h b c : Bool) (x y : A)
      → (if l && (h && c) then x else (if l && (h && b) then x else y))
        ≡ (if l && (h && (b || c)) then x else y)
  merge true true true true x y = refl
  merge true true true false x y = refl
  merge true true false c x y = refl
  merge true false b c x y = refl
  merge false h b c x y = refl

  nothing_covered : {A : Type 0} (l h : Bool) (x y : A) → y ≡ (if l && (h && false) then x else y)
  nothing_covered true true x y = refl
  nothing_covered true false x y = refl
  nothing_covered false h x y = refl

  one_only :
      (a : ℕ) (t t1 : Bytes) (n : ℕ) (fs fs1 : Fs)
      → one_fblock_loop decode (end - start) inode offset a start end t 0 fs ≡ done (t1, n) fs1
      → read_file_data_from_one_fblock_only decode inode offset t size a fs ≡ done (t1, n) fs1
  one_only a t t1 n fs fs1 e = unfold read_file_data_from_one_fblock_only in e

  read_fblocks_cons :
      (a : ℕ) (xs : List ℕ) (t t1 : Bytes) (r n : ℕ) (fs fs1 : Fs)
      → read_file_data_from_one_fblock_only decode inode offset t size a fs ≡ done (t1, n) fs1
      → read_fblocks decode (a ∷ xs) inode offset t size r fs
        ≡ read_fblocks decode xs inode offset t1 size (r + n) fs1
  read_fblocks_cons a xs t t1 r n fs fs1 e = unfold read_fblocks in rw (read_fblocks, ◌>>=◌, e)

  pub read_fblocks-Fills :
      (xs : List ℕ) (t : Bytes) (r : ℕ) (cache : Cache Bytes) (ticks : ℕ)
      → end ≤ offset + length t
      → ((i : ℕ) → start ≤ i → i < end → IsReadable decode fs0 inode i)
      → IsCoherent decode (moved fs0 cache ticks)
      → Fills decode fs0 inode offset end
          (read_fblocks decode xs inode offset t size r (moved fs0 cache ticks))
          (r + total inode fs0.blktab xs start (end - start))
          (covers_any xs)
          t
  unfolding total is_in_any
  read_fblocks-Fills [] t r cache ticks fits readable coherent =
      let plus_zero : r ≡ r + 0 = omega arith in
      (
        t,
        cache,
        ticks,
        (unfold read_fblocks in (ap (λ q. done (t, q) (moved fs0 cache ticks)) plus_zero)),
        coherent,
        refl,
        λ j.
            nothing_covered (leb start (offset + j)) (ltb (offset + j) end)
              (file_byte decode fs0 inode (offset + j)) (get_elem? t j),
      )
  read_fblocks-Fills (a ∷ xs) t r cache ticks fits readable coherent =
      let off : (offset ≤ start) ⊎ (end ≤ start) = elim (Bool-cases (leb offset inode.bytesize)) [
        | inl e ↦ inl (ground arith)
        | inr e ↦ inr (ground arith)
      ] in
      let (t1, cache1, ticks1, run1, coherent1, len1, content1) =
        one_fblock_loop-Fills decode fs0 inode offset end some_size a (end - start) start t 0 cache
          ticks (omega arith) off fits readable coherent in
      let (t', cache', ticks', run', coherent', len', content') =
        read_fblocks-Fills xs t1 (r + (0 + count_in_fblock inode fs0.blktab a start (end - start)))
          cache1 ticks1 (omega arith) readable coherent1 in
      (
        t',
        cache',
        ticks',
        read_fblocks_cons a xs t t1 r (0 + count_in_fblock inode fs0.blktab a start (end - start))
              (moved fs0 cache ticks) (moved fs0 cache1 ticks1)
              (one_only a t t1 (0 + count_in_fblock inode fs0.blktab a start (end - start))
                (moved fs0 cache ticks) (moved fs0 cache1 ticks1) run1)
            ∙ (run' ∙ ap (λ q. done (t', q) (moved fs0 cache' ticks')) (omega arith)),
        coherent',
        len' ∙ len1,
        λ j.
            content' j
            ∙ (ap
                  (λ z.
                    if covers_any xs (offset + j)
                    then file_byte decode fs0 inode (offset + j)
                    else z)
                  (content1 j)
                ∙ merge (leb start (offset + j)) (ltb (offset + j) end)
                    (is_in_fblock inode fs0.blktab a (offset + j))
                    (is_in_any inode fs0.blktab xs (offset + j))
                    (file_byte decode fs0 inode (offset + j)) (get_elem? t j)),
      )
