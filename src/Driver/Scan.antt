-- ===== src/Driver/Scan.antt =====
-- `reread_fblktab`: the scan over the fblocks of an image.
use cromfs.Base.{ℕ, zero, suc, ◌+◌, ◌<◌, ◌≤◌, ◌≡◌, sym, ap, ◌∙◌, arith}
use cromfs.Base.{
  List, [], ◌∷◌, ◌++◌, Option, length, take, drop, ok, Bool-cases, inl, inr, ◌⊎◌, einval,
}
use cromfs.Base.{true, false, leb}
use cromfs.Base.Bytes.{Bytes}
use cromfs.Endian.{get_8, get_16, get_32}
use cromfs.Format.{has_opt, opt_sparse_fblocks}
use cromfs.Driver.{Fs, Fblock, Run, done, threw, ◌>>=◌}
use cromfs.Driver.Load.{long_file_read, fblktab_loop}
use cromfs.Driver.Load.{fblock_room}
use cromfs.Base.{lt→ltb, le→ltb}
use cromfs.Base.Access.{get_elem?-take, get_elem?-drop}
use cromfs.Base.{or_fault}
use mathlib.Core.List.{append-nil, append_assoc}

get_8_mapped :
    (image : Bytes) (p n k : ℕ) → k < n → get_8 (take n (drop p image)) k ≡ get_8 image (p + k)
unfolding get_8
get_8_mapped image p n k h =
    ap (λ (o : Option ℕ). or_fault o)
      (get_elem?-take n (drop p image) k h ∙ get_elem?-drop p image k)

get_16_mapped :
    (image : Bytes) (p n k : ℕ)
    → k + 1 < n
    → get_16 (take n (drop p image)) k ≡ get_16 image (p + k)
get_16_mapped image p n k h =
    let next : p + (k + 1) ≡ p + k + 1 = omega arith in
    let lo = get_8_mapped image p n k (omega arith) in
    let hi : get_8 (take n (drop p image)) (k + 1) ≡ get_8 image (p + k + 1) =
      get_8_mapped image p n (k + 1) h ∙ ap (get_8 image) next in
    unfold get_16 in rw (get_16, lo, hi)

-- The header of an fblock in the image, as the scan reads it.
get_32_mapped :
    (image : Bytes) (p n : ℕ)
    → 3 < n
    → p + n ≤ length image
    → get_32 (take n (drop p image)) 0 ≡ get_32 image p
get_32_mapped image p n h fits =
    let at : p + 0 ≡ p = omega arith in
    let next : p + (0 + 2) ≡ p + 2 = omega arith in
    let lo : get_16 (take n (drop p image)) 0 ≡ get_16 image p =
      get_16_mapped image p n 0 (omega arith) ∙ ap (get_16 image) at in
    let hi : get_16 (take n (drop p image)) (0 + 2) ≡ get_16 image (p + 2) =
      get_16_mapped image p n (0 + 2) (omega arith) ∙ ap (get_16 image) next in
    unfold get_32 in rw (get_32, lo, hi)

-- The fblocks from position `pos` up to position `end`: each has its size in front of it, more than
-- an LZMA header, and the next one follows at the distance that the options say.
unfoldable pub IsChain : Fs → ℕ → List Fblock → ℕ → Type 0
IsChain fs pos [] end = pos ≡ end
IsChain fs pos (f ∷ tab) end =
    (pos + 17 < length fs.image)
    × (f.filepos ≡ pos + 4)
    × (get_32 fs.image pos ≡ ok f.length)
    × (13 < f.length)
    × IsChain fs (pos + fblock_room fs f.length) tab end

abbrev with_fblktab : Fs → List Fblock → Fs
with_fblktab fs tab = record fs { fblktab = tab }

-- How the scan ends: behind the last fblock, or with EINVAL at one that is too short.
abbrev pub ScanEnds : Fs → Run (Unit {0}) → List Fblock → ℕ → Type 0
ScanEnds fs run tab end =
    ((run ≡ done tt (record fs { fblktab = tab })) × (length fs.image ≤ end + 17))
    ⊎ ((size : ℕ) × (run ≡ threw einval (record fs { fblktab = tab }))
        × (end + 17 < length fs.image)
        × (get_32 fs.image end ≡ ok size)
        × (size ≤ 13))

module _ (fs : Fs) where
  loop_stop :
      (fuel pos : ℕ) (tab : List Fblock)
      → length fs.image ≤ pos + 17
      → fblktab_loop (suc fuel) pos (with_fblktab fs tab) ≡ done tt (with_fblktab fs tab)
  loop_stop fuel pos tab h =
      unfold fblktab_loop in rw (fblktab_loop, ◌>>=◌, le→ltb (pos + 17) (length fs.image) h)

  loop_next :
      (fuel pos size : ℕ) (tab : List Fblock)
      → pos + 17 < length fs.image
      → get_32 fs.image pos ≡ ok size
      → 13 < size
      → fblktab_loop (suc fuel) pos (with_fblktab fs tab)
        ≡ fblktab_loop fuel
            (pos + fblock_room fs size)
            (with_fblktab fs (tab ++ (record { filepos = pos + 4; length = size } ∷ [])))
  loop_next fuel pos size tab h at long =
      let fits : leb (pos + 17) (length fs.image) ≡ true = ground arith in
      let is_long : leb size 13 ≡ false = ground arith in
      let got : get_32 (take 17 (drop pos fs.image)) 0 ≡ ok size =
        get_32_mapped fs.image pos 17 (omega arith) (omega arith) ∙ at in
      unfold fblktab_loop long_file_read in
      rw (
        fblktab_loop,
        ◌>>=◌,
        lt→ltb (pos + 17) (length fs.image) h,
        long_file_read,
        fits,
        got,
        is_long,
      )

  room_pos : (size : ℕ) → 4 ≤ fblock_room fs size
  room_pos size = elim (Bool-cases (has_opt fs.storage_opts opt_sparse_fblocks)) [
    | inl e ↦ rw e (omega arith)
    | inr e ↦ rw e (omega arith)
  ]

  -- Where a chain goes up to the end of the file, the scan finds all of it.
  pub fblktab_loop_chain :
      (fuel pos end : ℕ) (before tab : List Fblock)
      → IsChain fs pos tab end
      → length fs.image ≤ end + 17
      → 0 < fuel
      → length fs.image < fuel + pos
      → fblktab_loop fuel pos (with_fblktab fs before) ≡ done tt (with_fblktab fs (before ++ tab))
  unfolding IsChain
  fblktab_loop_chain zero pos end before tab chain last some_fuel enough = absurd (omega arith)
  fblktab_loop_chain (suc fuel) pos end before [] chain last some_fuel enough =
      loop_stop fuel pos before (omega arith)
      ∙ ap (λ t. done tt (with_fblktab fs t)) (sym (append-nil before))
  fblktab_loop_chain (suc fuel) pos end before (f ∷ tab) (h, place, at, long, chain) last some_fuel
        enough =
      let further : 4 ≤ fblock_room fs f.length = room_pos f.length in
      let found : Fblock = record { filepos = pos + 4; length = f.length } in
      let same : found ≡ f = λ i. record { filepos = sym place i; length = f.length } in
      loop_next fuel pos f.length before h at long
      ∙ (fblktab_loop_chain fuel (pos + fblock_room fs f.length) end (before ++ (found ∷ [])) tab
            chain last (omega arith) (omega arith)
          ∙ ap (λ t. done tt (with_fblktab fs t))
              (append_assoc before (found ∷ []) tab ∙ ap (λ g. before ++ (g ∷ tab)) same))
