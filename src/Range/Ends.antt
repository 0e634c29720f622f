-- ===== src/Range/Ends.antt =====
-- lib/range.tcc, `erase_before` and `erase_after`.
use cromfs.Base.{
  ℕ, suc, ◌≤◌, ◌<◌, ◌≡◌, refl, ap, ◌∙◌, arith, Bool, true, false, ◌&&◌, Bool-cases, [], ◌∷◌, inl,
  inr,
}
use cromfs.Base.{ltb, leb, if◌then◌else◌}
use cromfs.Range.{Valueholder, Changepoints, erase, erase_before, last_key, erase_after}
use cromfs.Range.Normal.{IsAscending, last_value}
use cromfs.Range.Values.{value_at, look, look_stop, erase_cut, outside_cut}
use cromfs.Range.Canonical.{IsCollection}

module _ {V : Type 0} (H : Valueholder V) where
  nil_anyway : (c : Bool) (y : V) → y ≡ H.nil → y ≡ (if c then H.nil else y)
  nil_anyway true y e = e
  nil_anyway false y e = refl

  value_at_front :
      (v j : ℕ) (x : V) (rest : Changepoints V)
      → IsCollection H ((j, x) ∷ rest)
      → v < j
      → value_at H v ((j, x) ∷ rest) ≡ H.nil
  unfolding IsAscending
  value_at_front v j x rest holds h =
      let (first, asc) = holds.ascending in look_stop v j H.nil ((j, x) ∷ rest) (omega arith, asc) h

  last_key_le : (j : ℕ) (rest : Changepoints V) → IsAscending (suc j) rest → j ≤ last_key H j rest
  unfolding last_key IsAscending
  last_key_le j [] asc = omega arith
  last_key_le j ((k, x) ∷ rest) (first, asc) = let later = last_key_le k rest asc in omega arith

  look_last :
      (v j : ℕ) (c x : V) (rest : Changepoints V)
      → IsAscending (suc j) rest
      → last_key H j rest ≤ v
      → look v c ((j, x) ∷ rest) ≡ last_value x rest
  unfolding look last_key IsAscending
  look_last v j c x [] asc h = let e : leb j v ≡ true = ground arith in rw e refl
  look_last v j c x ((k, y) ∷ rest) (first, asc) h =
      let later = last_key_le k rest asc in
      let e : leb j v ≡ true = ground arith in rw e (look_last v k x y rest asc h)

  value_at_back :
      (v j : ℕ) (x : V) (rest : Changepoints V)
      → IsCollection H ((j, x) ∷ rest)
      → last_key H j rest ≤ v
      → value_at H v ((j, x) ∷ rest) ≡ H.nil
  unfolding IsAscending
  value_at_back v j x rest holds h =
      let (first, asc) = holds.ascending in look_last v j H.nil x rest asc h ∙ holds.ends

  erase_values :
      (lo up : ℕ) (d : Changepoints V)
      → lo < up
      → IsCollection H d
      → (v : ℕ)
      → value_at H v (erase H lo up d).0 ≡ (if leb lo v && ltb v up then H.nil else value_at H v d)
  erase_values lo up d low holds v =
      ap (value_at H v) (erase_cut H lo up d low holds.ascending)
      ∙ outside_cut H lo up d low holds.ascending H.nil v

  value_at_empty : (c : Bool) (v : ℕ) → value_at H v [] ≡ (if c then H.nil else value_at H v [])
  unfolding look
  value_at_empty c v = nil_anyway c H.nil refl

  before_lem :
      (lo : ℕ) (d : Changepoints V)
      → IsCollection H d
      → (v : ℕ)
      → value_at H v (erase_before H lo d).0 ≡ (if ltb v lo then H.nil else value_at H v d)
  unfolding erase_before
  before_lem lo [] holds v = value_at_empty (ltb v lo) v
  before_lem lo ((j, x) ∷ rest) holds v = elim (Bool-cases (ltb j lo)) [
    | inl e ↦
        let erased = erase_values j lo ((j, x) ∷ rest) (ground arith) holds v in
        elim (Bool-cases (leb j v)) [
          | inl c ↦ rw e (erased ∙ rw c refl)
          | inr c ↦ rw e (
              erased
              ∙ rw c (
                  nil_anyway (ltb v lo) (value_at H v ((j, x) ∷ rest))
                    (value_at_front v j x rest holds (ground arith))))
        ]
    | inr e ↦ elim (Bool-cases (ltb v lo)) [
      | inl c ↦ rw (e, c) (value_at_front v j x rest holds (ground arith))
      | inr c ↦ rw (e, c) refl
    ]
  ]

  after_lem :
      (hi : ℕ) (d : Changepoints V)
      → IsCollection H d
      → (v : ℕ) → value_at H v (erase_after H hi d).0 ≡ (if leb hi v then H.nil else value_at H v d)
  unfolding erase_after
  after_lem hi [] holds v = value_at_empty (leb hi v) v
  after_lem hi ((j, x) ∷ rest) holds v =
      let last : ℕ = last_key H j rest in
      elim (Bool-cases (ltb hi last)) [
        | inl e ↦
            let erased = erase_values hi last ((j, x) ∷ rest) (ground arith) holds v in
            elim (Bool-cases (leb hi v)) [
              | inl c ↦ elim (Bool-cases (ltb v last)) [
                | inl i ↦ rw (e, c) (erased ∙ rw (c, i) refl)
                | inr o ↦
                    rw (e, c) (erased ∙ rw (c, o) (value_at_back v j x rest holds (ground arith)))
              ]
              | inr c ↦ rw (e, c) (erased ∙ rw c refl)
            ]
        | inr e ↦ elim (Bool-cases (leb hi v)) [
          | inl c ↦ rw (e, c) (value_at_back v j x rest holds (ground arith))
          | inr c ↦ rw (e, c) refl
        ]
      ]

  -- On a collection, `erase_before` makes the values at the keys below `lo` nil, `erase_after` those at
  -- the keys from `lo` on, and both leave the other values.
  pub erase_before-erase_after_values :
      (lo : ℕ) (d : Changepoints V)
      → IsCollection H d
      → (v : ℕ)
      → (value_at H v (erase_before H lo d).0 ≡ (if ltb v lo then H.nil else value_at H v d))
        × (value_at H v (erase_after H lo d).0 ≡ (if leb lo v then H.nil else value_at H v d))
  erase_before-erase_after_values lo d holds v = (before_lem lo d holds v, after_lem lo d holds v)
