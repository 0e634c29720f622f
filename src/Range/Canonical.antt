-- ===== src/Range/Canonical.antt =====
-- lib/range.tcc: a `rangecollection` has no changepoint too many, so that equal maps are equal
-- functions, and `find` finds what the function has.
use cromfs.Base.{
  ℕ, ◌<◌, ◌≡◌, refl, sym, ap, ◌∙◌, subst, arith, true, false, [], ◌∷◌, ◌++◌, Bool-cases, inl, inr,
}
use cromfs.Base.{◌==◌}
use cromfs.Range.{Valueholder, Changepoints, keys_below, keys_from, erase, set_range}
use cromfs.Range.Normal.{IsAscending, last_value, IsAscending-append, outside, tail_of, start_of}
use cromfs.Range.Values.{
  cut_lem, IsAscending-a, IsAscending-m, IsAscending-b, IsAscending-start, below_a, below_m,
  below_a_m, set_range_cut, erase_cut,
}

module _ {V : Type 0} (H : Valueholder V) where
  -- No changepoint repeats the value in front of it.
  unfoldable pub IsCompact : V → Changepoints V → Type 0
  IsCompact c [] = Unit {0}
  IsCompact c ((k, x) ∷ rest) = (H.same c x ≡ false) × IsCompact x rest

  -- What the class keeps: ascending keys, no repetition, and nil behind the last changepoint.
  pub record IsCollection (d : Changepoints V) : Type 0 where
    pub ascending : IsAscending 0 d
    pub compact : IsCompact H.nil d
    pub ends : last_value H.nil d ≡ H.nil

  differs : (x y : V) → H.same x y ≡ false → H.same y x ≡ false
  differs x y e = elim (Bool-cases (H.same y x)) [
    | inl e' ↦
        let at : y ≡ x = H.same_only y x e' in
        let wrong : false ≡ true = sym e ∙ (ap (H.same x) at ∙ H.same_self x) in absurd cc
    | inr e' ↦ e'
  ]

  pub not_same : (x y : V) → H.same x y ≡ false → x ≡ y → ⊥
  not_same x y e at =
      let wrong : false ≡ true = sym e ∙ (ap (H.same x) (sym at) ∙ H.same_self x) in cc

  IsCompact-append :
      (c : V) (a x : Changepoints V)
      → IsCompact c a
      → IsCompact (last_value c a) x
      → IsCompact c (a ++ x)
  unfolding IsCompact
  IsCompact-append c [] x compact compact' = compact'
  IsCompact-append c ((k, y) ∷ a) x (first, compact) compact' =
      (first, IsCompact-append y a x compact compact')

  IsCompact-parts :
      (c : V) (a x : Changepoints V)
      → IsCompact c (a ++ x)
      → IsCompact c a × IsCompact (last_value c a) x
  unfolding IsCompact
  IsCompact-parts c [] x compact = (tt, compact)
  IsCompact-parts c ((k, y) ∷ a) x (first, compact) =
      let (front, back) = IsCompact-parts y a x compact in ((first, front), back)

  IsCompact-tail_of :
      (up : ℕ) (new old : V) (b : Changepoints V)
      → IsCompact old b
      → IsCompact new (tail_of H up new old b)
  unfolding IsCompact tail_of
  IsCompact-tail_of up new old [] compact = elim (Bool-cases (H.same old new)) [
    | inl e ↦ rw e tt
    | inr e ↦ rw e (differs old new e, tt)
  ]
  IsCompact-tail_of up new old ((k, x) ∷ rest) (first, compact) = elim (Bool-cases (k == up)) [
    | inl e ↦ elim (Bool-cases (H.same x new)) [
      | inl e' ↦ rw (e, e') (subst (λ c. IsCompact c rest) (H.same_only x new e') compact)
      | inr e' ↦ rw (e, e') (differs x new e', compact)
    ]
    | inr e ↦ elim (Bool-cases (H.same old new)) [
      | inl e' ↦
          rw (e, e') (subst (λ c. H.same c x ≡ false) (H.same_only old new e') first, compact)
      | inr e' ↦ rw (e, e') (differs old new e', (first, compact))
    ]
  ]

  IsCompact-start_of :
      (lo : ℕ) (new old : V) (t : Changepoints V)
      → IsCompact new t
      → IsCompact old (start_of H lo new old t)
  unfolding IsCompact start_of
  IsCompact-start_of lo new old t compact = elim (Bool-cases (H.same old new)) [
    | inl e ↦ rw e (subst (λ c. IsCompact c t) (sym (H.same_only old new e)) compact)
    | inr e ↦ rw e (e, compact)
  ]

  last_value-append :
      (c : V) (a x : Changepoints V) → last_value c (a ++ x) ≡ last_value (last_value c a) x
  last_value-append c [] x = refl
  last_value-append c ((k, y) ∷ a) x = last_value-append y a x

  last_value-tail_of :
      (up : ℕ) (new old : V) (b : Changepoints V)
      → last_value new (tail_of H up new old b) ≡ last_value old b
  unfolding tail_of
  last_value-tail_of up new old [] = elim (Bool-cases (H.same old new)) [
    | inl e ↦ rw e (sym (H.same_only old new e))
    | inr e ↦ rw e refl
  ]
  last_value-tail_of up new old ((k, x) ∷ rest) = elim (Bool-cases (k == up)) [
    | inl e ↦ elim (Bool-cases (H.same x new)) [
      | inl e' ↦ rw (e, e') (ap (λ c. last_value c rest) (sym (H.same_only x new e')))
      | inr e' ↦ rw (e, e') refl
    ]
    | inr e ↦ elim (Bool-cases (H.same old new)) [
      | inl e' ↦ rw (e, e') refl
      | inr e' ↦ rw (e, e') refl
    ]
  ]

  last_value-start_of :
      (lo : ℕ) (new old : V) (t : Changepoints V)
      → last_value old (start_of H lo new old t) ≡ last_value new t
  unfolding start_of
  last_value-start_of lo new old t = elim (Bool-cases (H.same old new)) [
    | inl e ↦ rw e (ap (λ c. last_value c t) (H.same_only old new e))
    | inr e ↦ rw e refl
  ]

  module _ (lo up : ℕ) (d : Changepoints V) (low : lo < up) (holds : IsCollection d) where
    abbrev a : Changepoints V
    a = keys_below lo d

    abbrev m : Changepoints V
    m = keys_below up (keys_from lo d)

    abbrev b : Changepoints V
    b = keys_from up (keys_from lo d)

    outside-IsCollection : (new : V) → IsCollection (outside H lo up new a m b)
    outside-IsCollection new =
        let whole : (a ++ m) ++ b ≡ d = cut_lem H lo up d low holds.ascending in
        let (front, back) =
          IsCompact-parts H.nil (a ++ m) b (subst (IsCompact H.nil) (sym whole) holds.compact) in
        let (front_a, front_m) = IsCompact-parts H.nil a m front in
        let old : V = last_value H.nil (a ++ m) in
        let t : Changepoints V = tail_of H up new old b in
        let q : V = last_value H.nil a in
        record {
          ascending =
              IsAscending-append 0 lo a (start_of H lo new q t) (omega arith)
                (IsAscending-a H lo up d low holds.ascending)
                (below_a H lo up d low holds.ascending)
                (IsAscending-start H lo up new a m b low (below_a H lo up d low holds.ascending)
                  (below_m H lo up d low holds.ascending) (below_a_m H lo up d low holds.ascending)
                  (IsAscending-m H lo up d low holds.ascending)
                  (IsAscending-b H lo up d low holds.ascending));
          compact =
              IsCompact-append H.nil a (start_of H lo new q t) front_a
                (IsCompact-start_of lo new q t (IsCompact-tail_of up new old b back));
          ends =
              last_value-append H.nil a (start_of H lo new q t)
              ∙ (last_value-start_of lo new q t
                  ∙ (last_value-tail_of up new old b
                      ∙ (sym (last_value-append H.nil (a ++ m) b)
                          ∙ (ap (last_value H.nil) whole ∙ holds.ends))));
        }

    -- On a collection, with `lo` below `up`, `set` with a value that is not nil and `erase` keep the
    -- keys ascending, repeat no value, and leave nil behind the last changepoint.
    pub set_range-erase-IsCollection :
        (new : V)
        → H.is_nil new ≡ false
        → IsCollection (set_range H lo up new d) × IsCollection ((erase H lo up d).0)
    set_range-erase-IsCollection new filled = (
      subst IsCollection (sym (set_range_cut H lo up d low holds.ascending new filled))
          (outside-IsCollection new),
      subst IsCollection (sym (erase_cut H lo up d low holds.ascending))
          (outside-IsCollection H.nil),
    )
