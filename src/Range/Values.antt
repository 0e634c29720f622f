-- ===== src/Range/Values.antt =====
-- lib/range.tcc: the values that a `rangecollection` stands for, before and after `set` and `erase`.
use mathlib.Core.List.{append_assoc}
use cromfs.Base.{
  ℕ, suc, ◌≤◌, ◌<◌, ◌≡◌, refl, sym, ap, ◌∙◌, arith, true, false, [], ◌∷◌, ◌++◌, ◌&&◌, Bool-cases,
  inl, inr,
}
use cromfs.Base.{ltb, leb, ◌==◌, if◌then◌else◌}
use cromfs.Range.{Valueholder, Changepoints, keys_below, keys_from, erase, set_range}
use cromfs.Range.Normal.{
  IsAscending, IsAscending-more, AreBelow, last_value, below-from, AreBelow-keys_below,
  IsAscending-keys_below, IsAscending-keys_from, IsAscending-append, IsAscending-tail_of, outside,
  tail_of, start_of, set_range_lem, erase_lem,
}
use cromfs.Range.Normal.{AreBelow-append, AreBelow_more}

module _ {V : Type 0} where
  -- The value at `v`, where `c` holds in front of the changepoints.
  unfoldable pub look : ℕ → V → Changepoints V → V
  look v c [] = c
  look v c ((k, x) ∷ rest) = let later = look v x rest in if leb k v then later else c

  pub look_behind :
      (v k : ℕ) (c : V) (a x : Changepoints V)
      → AreBelow k a
      → k ≤ v
      → look v c (a ++ x) ≡ look v (last_value c a) x
  unfolding look
  look_behind v k c [] x below h = refl
  look_behind v k c ((j, y) ∷ a) x (here, below) h =
      let e : leb j v ≡ true = ground arith in rw e (look_behind v k y a x below h)

  pub look_stop : (v k : ℕ) (c : V) (x : Changepoints V) → IsAscending k x → v < k → look v c x ≡ c
  unfolding look IsAscending
  look_stop v k c [] asc h = refl
  look_stop v k c ((j, y) ∷ x) (first, asc) h = let e : leb j v ≡ false = ground arith in rw e refl

  look_before :
      (v k : ℕ) (c : V) (a x : Changepoints V)
      → IsAscending k x
      → v < k
      → look v c (a ++ x) ≡ look v c a
  unfolding look
  look_before v k c [] x asc h = look_stop v k c x asc h
  look_before v k c ((j, y) ∷ a) x asc h = elim (Bool-cases (leb j v)) [
    | inl e ↦ rw e (look_before v k y a x asc h)
    | inr e ↦ rw e refl
  ]

module _ {V : Type 0} (H : Valueholder V) where
  look-tail_of :
      (v up : ℕ) (new old : V) (b : Changepoints V)
      → up ≤ v
      → IsAscending up b
      → look v new (tail_of H up new old b) ≡ look v old b
  unfolding look tail_of
  look-tail_of v up new old [] h asc = elim (Bool-cases (H.same old new)) [
    | inl e ↦ rw e (sym (H.same_only old new e))
    | inr e ↦ let at : leb up v ≡ true = ground arith in rw (e, at) refl
  ]
  look-tail_of v up new old ((k, x) ∷ rest) h asc = elim (Bool-cases (k == up)) [
    | inl e ↦
        let at : leb k v ≡ true = ground arith in
        elim (Bool-cases (H.same x new)) [
          | inl e' ↦ rw (e, e', at) (ap (λ c. look v c rest) (sym (H.same_only x new e')))
          | inr e' ↦ rw (e, e', at) refl
        ]
    | inr e ↦ elim (Bool-cases (H.same old new)) [
      | inl e' ↦ rw (e, e') (ap (λ c. look v c ((k, x) ∷ rest)) (sym (H.same_only old new e')))
      | inr e' ↦ let at : leb up v ≡ true = ground arith in rw (e, e', at) refl
    ]
  ]

  look-start_of :
      (v lo : ℕ) (new old : V) (t : Changepoints V)
      → lo ≤ v
      → look v old (start_of H lo new old t) ≡ look v new t
  unfolding look start_of
  look-start_of v lo new old t h = elim (Bool-cases (H.same old new)) [
    | inl e ↦ rw e (ap (λ c. look v c t) (H.same_only old new e))
    | inr e ↦ let at : leb lo v ≡ true = ground arith in rw (e, at) refl
  ]

  -- The value that a collection has at a key.
  abbrev pub value_at : ℕ → Changepoints V → V
  value_at v entries = look v H.nil entries

  module _ (lo up : ℕ) (new : V) (a m b : Changepoints V) (low : lo < up) (below : AreBelow lo a)
      (inside : AreBelow up m) (front : AreBelow up (a ++ m)) (middle : IsAscending lo m)
      (above : IsAscending up b) where
    abbrev tail : Changepoints V
    tail = tail_of H up new (last_value H.nil (a ++ m)) b

    pub IsAscending-start : IsAscending lo (start_of H lo new (last_value H.nil a) tail)
    unfolding start_of IsAscending
    IsAscending-start =
        let asc = IsAscending-tail_of H up new (last_value H.nil (a ++ m)) b above in
        elim (Bool-cases (H.same (last_value H.nil a) new)) [
          | inl e ↦ rw e (IsAscending-more lo up tail (omega arith) asc)
          | inr e ↦ rw e (omega arith, IsAscending-more (suc lo) up tail low asc)
        ]

    in_front :
        (v : ℕ) → v < lo → value_at v (outside H lo up new a m b) ≡ value_at v ((a ++ m) ++ b)
    in_front v h =
        look_before v lo H.nil a (start_of H lo new (last_value H.nil a) tail) IsAscending-start h
        ∙ sym (
            ap (look v H.nil) (append_assoc a m b)
            ∙ look_before v lo H.nil a (m ++ b)
                (IsAscending-append lo up m b (omega arith) middle inside above) h)

    from_start : (v : ℕ) → lo ≤ v → value_at v (outside H lo up new a m b) ≡ look v new tail
    from_start v h =
        look_behind v lo H.nil a (start_of H lo new (last_value H.nil a) tail) below h
        ∙ look-start_of v lo new (last_value H.nil a) tail h

    within : (v : ℕ) → lo ≤ v → v < up → value_at v (outside H lo up new a m b) ≡ new
    within v h h' =
        from_start v h
        ∙ look_stop v up new tail (IsAscending-tail_of H up new (last_value H.nil (a ++ m)) b above)
            h'

    behind : (v : ℕ) → up ≤ v → value_at v (outside H lo up new a m b) ≡ value_at v ((a ++ m) ++ b)
    behind v h =
        from_start v (omega arith)
        ∙ (look-tail_of v up new (last_value H.nil (a ++ m)) b h above
            ∙ sym (look_behind v up H.nil (a ++ m) b front h))

    outside_lem :
        (v : ℕ)
        → value_at v (outside H lo up new a m b)
          ≡ (if leb lo v && ltb v up then new else value_at v ((a ++ m) ++ b))
    outside_lem v = elim (Bool-cases (leb lo v)) [
      | inr e ↦ rw e (in_front v (ground arith))
      | inl e ↦ elim (Bool-cases (ltb v up)) [
        | inl e' ↦ rw (e, e') (within v (ground arith) (ground arith))
        | inr e' ↦ rw (e, e') (behind v (ground arith))
      ]
    ]

  -- A map with ascending keys, cut at `lo` and at `up`.
  module _ (lo up : ℕ) (d : Changepoints V) (low : lo < up) (asc : IsAscending 0 d) where
    abbrev a : Changepoints V
    a = keys_below lo d

    abbrev m : Changepoints V
    m = keys_below up (keys_from lo d)

    abbrev b : Changepoints V
    b = keys_from up (keys_from lo d)

    pub cut_lem : (a ++ m) ++ b ≡ d
    cut_lem =
        append_assoc a m b ∙ (ap (λ t. a ++ t) (below-from up (keys_from lo d)) ∙ below-from lo d)

    pub IsAscending-a : IsAscending 0 a
    IsAscending-a = IsAscending-keys_below 0 lo d asc

    pub IsAscending-m : IsAscending lo m
    IsAscending-m = IsAscending-keys_below lo up (keys_from lo d) (IsAscending-keys_from 0 lo d asc)

    pub IsAscending-b : IsAscending up b
    IsAscending-b = IsAscending-keys_from lo up (keys_from lo d) (IsAscending-keys_from 0 lo d asc)

    pub below_a : AreBelow lo a
    below_a = AreBelow-keys_below lo d

    pub below_m : AreBelow up m
    below_m = AreBelow-keys_below up (keys_from lo d)

    pub below_a_m : AreBelow up (a ++ m)
    below_a_m = AreBelow-append up a m (AreBelow_more lo up a (omega arith) below_a) below_m

    pub set_range_cut :
        (new : V) → H.is_nil new ≡ false → set_range H lo up new d ≡ outside H lo up new a m b
    set_range_cut new filled =
        ap (set_range H lo up new) (sym cut_lem)
        ∙ set_range_lem H lo up a m b (omega arith) below_a below_m IsAscending-m IsAscending-b new
            filled

    pub erase_cut : (erase H lo up d).0 ≡ outside H lo up H.nil a m b
    erase_cut =
        ap (λ t. (erase H lo up t).0) (sym cut_lem)
        ∙ erase_lem H lo up a m b (omega arith) below_a below_m IsAscending-m IsAscending-b

    pub outside_cut :
        (new : V) (v : ℕ)
        → value_at v (outside H lo up new a m b)
          ≡ (if leb lo v && ltb v up then new else value_at v d)
    outside_cut new v =
        outside_lem lo up new a m b low below_a below_m below_a_m IsAscending-m IsAscending-b v
        ∙ ap (λ t. if leb lo v && ltb v up then new else value_at v t) cut_lem

    -- `set` gives the keys from `lo` to `up` the new value, which is not nil, and `erase` makes them
    -- nil; no other key's value changes.
    pub set_range-erase_values :
        (new : V)
        → H.is_nil new ≡ false
        → (v : ℕ)
        → (value_at v (set_range H lo up new d)
            ≡ (if leb lo v && ltb v up then new else value_at v d))
          × (value_at v (erase H lo up d).0
              ≡ (if leb lo v && ltb v up then H.nil else value_at v d))
    set_range-erase_values new filled v = (
      ap (value_at v) (set_range_cut new filled) ∙ outside_cut new v,
      ap (value_at v) erase_cut ∙ outside_cut H.nil v,
    )
