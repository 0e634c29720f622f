-- ===== src/Range/Unique.antt =====
-- lib/range.hh, `operator==` and `find`: the map as a function.
use mathlib.Core.List.{append-nil}
use cromfs.Base.{
  ℕ, suc, ◌≤◌, ◌≡◌, refl, sym, ap, ◌∙◌, subst, arith, true, [], ◌∷◌, ◌++◌, Bool-cases, inl, inr,
  Option, none, some, ◌<◌, Bool, false, ◌&&◌,
}
use cromfs.Base.{ltb, leb, if◌then◌else◌}
use cromfs.Range.{
  Valueholder, Changepoints, keys_below, keys_from, last_of, find_at, find_range, set_range, erase,
}
use cromfs.Range.Normal.{
  IsAscending, last_value, below-from, AreBelow-keys_below, IsAscending-keys_from,
  last_of-last_value,
}
use cromfs.Range.Values.{
  look, look_stop, look_behind, value_at, set_range-erase_values, erase_cut, outside_cut,
}
use cromfs.Range.Canonical.{IsCompact, IsCollection, not_same, set_range-erase-IsCollection}

module _ {V : Type 0} (H : Valueholder V) where
  look_first :
      (k : ℕ) (c x : V) (rest : Changepoints V)
      → IsAscending (suc k) rest
      → look k c ((k, x) ∷ rest) ≡ x
  look_first k c x rest asc =
      let e : leb k k ≡ true = ground arith in
      let stops = look_stop k (suc k) x rest asc (omega arith) in unfold look in rw (look, e) stops

  look_later :
      (v k : ℕ) (c x : V) (rest : Changepoints V)
      → suc k ≤ v
      → look v c ((k, x) ∷ rest) ≡ look v x rest
  look_later v k c x rest h =
      let e : leb k v ≡ true = ground arith in unfold look in rw (look, e) refl

  -- Two lists of changepoints of the same function from `i` on.
  same_changepoints :
      (i : ℕ) (c : V) (d d' : Changepoints V)
      → IsAscending i d
      → IsAscending i d'
      → IsCompact H c d
      → IsCompact H c d'
      → ((v : ℕ) → i ≤ v → look v c d ≡ look v c d')
      → d ≡ d'
  unfolding IsAscending IsCompact look
  same_changepoints i c [] [] asc asc' compact compact' eq = refl
  same_changepoints i c [] ((k, x) ∷ r) asc (low, asc') compact (new, compact') eq =
      absurd (not_same H c x new (eq k low ∙ look_first k c x r asc'))
  same_changepoints i c ((k, x) ∷ r) [] (low, asc) asc' (new, compact) compact' eq =
      absurd (not_same H c x new (sym (eq k low) ∙ look_first k c x r asc))
  same_changepoints i c ((k, x) ∷ r) ((k', x') ∷ r') (low, asc) (low', asc') (new, compact)
        (new', compact') eq =
      elim (Bool-cases (ltb k k')) [
        | inl e ↦
            let stop = look_stop k k' c ((k', x') ∷ r') (omega arith, asc') (ground arith) in
            absurd (not_same H c x new (sym stop ∙ (sym (eq k low) ∙ look_first k c x r asc)))
        | inr e ↦ elim (Bool-cases (ltb k' k)) [
          | inl e' ↦
              let stop = look_stop k' k c ((k, x) ∷ r) (omega arith, asc) (ground arith) in
              absurd (not_same H c x' new' (sym stop ∙ (eq k' low' ∙ look_first k' c x' r' asc')))
          | inr e' ↦
              let at : k ≡ k' = ground arith in
              let asc'' : IsAscending (suc k) r' =
                subst (λ j. IsAscending (suc j) r') (sym at) asc' in
              let value : x ≡ x' =
                sym (look_first k c x r asc)
                ∙ (eq k low
                    ∙ (ap (λ j. look k c ((j, x') ∷ r')) (sym at) ∙ look_first k c x' r' asc'')) in
              let later : (v : ℕ) → suc k ≤ v → look v x r ≡ look v x r' = λ v h.
                sym (look_later v k c x r h)
                ∙ (eq v (omega arith)
                    ∙ (ap (λ j. look v c ((j, x') ∷ r')) (sym at)
                        ∙ (look_later v k c x' r' h ∙ ap (λ y. look v y r') (sym value)))) in
              let rests : r ≡ r' =
                same_changepoints (suc k) x r r' asc asc'' compact
                  (subst (λ y. IsCompact H y r') (sym value) compact') later in
              λ j. (at j, value j) ∷ rests j
        ]
      ]

  -- Two collections with the same value at every key are equal maps, which is what `operator==`
  -- compares.
  pub IsCollection-unique :
      (d d' : Changepoints V)
      → IsCollection H d
      → IsCollection H d'
      → ((v : ℕ) → value_at H v d ≡ value_at H v d')
      → d ≡ d'
  IsCollection-unique d d' holds holds' eq =
      same_changepoints 0 H.nil d d' holds.ascending holds'.ascending holds.compact holds'.compact
        (λ v h. eq v)

  abbrev filled : V → Option V
  filled x = if H.is_nil x then none else some x

  filled_nil : filled H.nil ≡ none
  filled_nil = rw (H.is_nil-nil) refl

  last_filled :
      (f : Changepoints V)
      → (elim (last_of f) as (λ _. Option V) [ none ↦ none | some y ↦ filled y ])
        ≡ filled (last_value H.nil f)
  last_filled [] = unfold last_of in sym filled_nil
  last_filled (e ∷ f) = rw (last_of-last_value H.nil e f) refl

  find_at_lem :
      (v : ℕ) (f g : Changepoints V)
      → IsAscending v g
      → last_value H.nil (f ++ g) ≡ H.nil
      → find_at H v f g ≡ filled (look v (last_value H.nil f) g)
  unfolding find_at IsAscending
  find_at_lem v f [] asc ends =
      let at : last_value H.nil f ≡ H.nil = ap (last_value H.nil) (sym (append-nil f)) ∙ ends in
      unfold look in sym (ap filled at ∙ filled_nil)
  find_at_lem v f ((k, x) ∷ r) (low, asc) ends = elim (Bool-cases (ltb v k)) [
    | inl e ↦
        let stop =
          look_stop v k (last_value H.nil f) ((k, x) ∷ r) (omega arith, asc) (ground arith) in
        rw e (last_filled f ∙ sym (ap filled stop))
    | inr e ↦
        let at : k ≡ v = ground arith in
        let value : look v (last_value H.nil f) ((k, x) ∷ r) ≡ x =
          ap (λ j. look j (last_value H.nil f) ((k, x) ∷ r)) (sym at)
          ∙ look_first k (last_value H.nil f) x r asc in
        rw e (sym (ap filled value))
  ]

  -- `find` finds the value that a collection has at a key, unless it is nil.
  pub find_range-value_at :
      (v : ℕ) (d : Changepoints V)
      → IsCollection H d
      → find_range H v d ≡ (if H.is_nil (value_at H v d) then none else some (value_at H v d))
  unfolding find_range
  find_range-value_at v d holds =
      let f : Changepoints V = keys_below v d in
      let g : Changepoints V = keys_from v d in
      let whole : f ++ g ≡ d = below-from v d in
      find_at_lem v f g (IsAscending-keys_from 0 v d holds.ascending)
        (ap (last_value H.nil) whole ∙ holds.ends)
      ∙ ap filled (
          sym (look_behind v v H.nil f g (AreBelow-keys_below v d) (omega arith))
          ∙ ap (value_at H v) whole)

  module _ (lo up : ℕ) (d : Changepoints V) (low : lo < up) (holds : IsCollection H d) where
    set_value :
        (new : V) (v : ℕ)
        → H.is_nil new ≡ false
        → value_at H v (set_range H lo up new d)
          ≡ (if leb lo v && ltb v up then new else value_at H v d)
    set_value new v filled = (set_range-erase_values H lo up d low holds.ascending new filled v).0

    set-IsCollection : (new : V) → H.is_nil new ≡ false → IsCollection H (set_range H lo up new d)
    set-IsCollection new filled = (set_range-erase-IsCollection H lo up d low holds new filled).0

  erase_value :
      (lo up : ℕ) (d : Changepoints V) (v : ℕ)
      → lo < up
      → IsCollection H d
      → value_at H v (erase H lo up d).0 ≡ (if leb lo v && ltb v up then H.nil else value_at H v d)
  erase_value lo up d v low holds =
      ap (value_at H v) (erase_cut H lo up d low holds.ascending)
      ∙ outside_cut H lo up d low holds.ascending H.nil v

  if_again : (c : Bool) (x y z : V) → (if c then x else (if c then y else z)) ≡ (if c then x else z)
  if_again true x y z = refl
  if_again false x y z = refl

  if_apart :
      (c c' : Bool) (x y z : V)
      → (c && c') ≡ false
      → (if c then x else (if c' then y else z)) ≡ (if c' then y else (if c then x else z))
  if_apart true true x y z e = absurd cc
  if_apart true false x y z e = refl
  if_apart false c' x y z e = refl

  -- On a collection, with values that are not nil: the last `set` or `erase` of a range decides, as
  -- equal maps, and two settings of ranges that do not meet may change places.
  pub set_range-set_range :
      (lo up lo' up' : ℕ) (x y : V) (d : Changepoints V)
      → lo < up
      → lo' < up'
      → H.is_nil x ≡ false
      → H.is_nil y ≡ false
      → IsCollection H d
      → (set_range H lo up x (set_range H lo up y d) ≡ set_range H lo up x d)
        × ((erase H lo up (set_range H lo up y d)).0 ≡ (erase H lo up d).0)
        × (set_range H lo up x (erase H lo up d).0 ≡ set_range H lo up x d)
        × (up ≤ lo'
            → set_range H lo up x (set_range H lo' up' y d)
              ≡ set_range H lo' up' y (set_range H lo up x d))
  set_range-set_range lo up lo' up' x y d low low' fx fy holds =
      let first = set-IsCollection lo up d low holds y fy in
      let gone = (set_range-erase-IsCollection H lo up d low holds x fx).1 in
      let only = set-IsCollection lo up d low holds x fx in
      let far = set-IsCollection lo' up' d low' holds y fy in
      (
        IsCollection-unique (set_range H lo up x (set_range H lo up y d)) (set_range H lo up x d)
            (set-IsCollection lo up (set_range H lo up y d) low first x fx) only
            (λ v.
              set_value lo up (set_range H lo up y d) low first x v fx
              ∙ (ap (λ z. if leb lo v && ltb v up then x else z)
                    (set_value lo up d low holds y v fy)
                  ∙ (if_again (leb lo v && ltb v up) x y (value_at H v d)
                      ∙ sym (set_value lo up d low holds x v fx)))),
        IsCollection-unique (erase H lo up (set_range H lo up y d)).0 (erase H lo up d).0
            (set_range-erase-IsCollection H lo up (set_range H lo up y d) low first x fx).1 gone
            (λ v.
              erase_value lo up (set_range H lo up y d) v low first
              ∙ (ap (λ z. if leb lo v && ltb v up then H.nil else z)
                    (set_value lo up d low holds y v fy)
                  ∙ (if_again (leb lo v && ltb v up) H.nil y (value_at H v d)
                      ∙ sym (erase_value lo up d v low holds)))),
        IsCollection-unique (set_range H lo up x (erase H lo up d).0) (set_range H lo up x d)
            (set-IsCollection lo up (erase H lo up d).0 low gone x fx) only
            (λ v.
              set_value lo up (erase H lo up d).0 low gone x v fx
              ∙ (ap (λ z. if leb lo v && ltb v up then x else z) (erase_value lo up d v low holds)
                  ∙ (if_again (leb lo v && ltb v up) x H.nil (value_at H v d)
                      ∙ sym (set_value lo up d low holds x v fx)))),
        λ apart.
            IsCollection-unique (set_range H lo up x (set_range H lo' up' y d))
              (set_range H lo' up' y (set_range H lo up x d))
              (set-IsCollection lo up (set_range H lo' up' y d) low far x fx)
              (set-IsCollection lo' up' (set_range H lo up x d) low' only y fy)
              (λ v.
                let never : ((leb lo v && ltb v up) && (leb lo' v && ltb v up')) ≡ false =
                  ground arith in
                set_value lo up (set_range H lo' up' y d) low far x v fx
                ∙ (ap (λ z. if leb lo v && ltb v up then x else z)
                      (set_value lo' up' d low' holds y v fy)
                    ∙ (if_apart (leb lo v && ltb v up) (leb lo' v && ltb v up') x y (value_at H v d)
                          never
                        ∙ (ap (λ z. if leb lo' v && ltb v up' then y else z)
                              (sym (set_value lo up d low holds x v fx))
                            ∙ sym (set_value lo' up' (set_range H lo up x d) low' only y v fy))))),
      )
