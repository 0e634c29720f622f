-- ===== src/Cache/Held.antt =====
-- A predicate on the entries of a cache, kept by its operations.
use cromfs.Base.{
  ℕ, suc, ◌-◌, ◌≡◌, refl, List, [], ◌∷◌, none, some, All, ok, take, length, arith, inl, inr,
}
use cromfs.Base.{false, not, ◌&&◌, ltb, ◌==◌, Bool-cases}
use cromfs.Base.Int.{pos, negsuc, add_ℕ}
use cromfs.Cache.{
  Entry, Cache, find_entry, insert_entry, erase_entry, erase_entries, drop_expired, is_expired,
  kill_oldest, sort_by_age, check_ages, find, put,
}
use cromfs.Base.{subst}

module _ {V : Type 0} where
  pub find_hit :
      (now key : ℕ) (c : Cache V) (e : Entry V)
      → find_entry key c.entries ≡ some e
      → find now key c
        ≡ (record c { entries = insert_entry (record e { stamp = now }) c.entries }, some e.value)
  find_hit now key c e h = unfold find in rw (find, h)

  pub find_miss :
      (now key : ℕ) (c : Cache V) → find_entry key c.entries ≡ none → find now key c ≡ (c, none)
  find_miss now key c h = unfold find in rw (find, h)

  pub max_size-put :
      (now key : ℕ) (value : V) (c : Cache V) → (put now key value c).max_size ≡ c.max_size
  unfolding put
  max_size-put now key value c = refl

module _ {V : Type 0} (P : Entry V → Type 0) where
  pub All-find_entry :
      (key : ℕ) (es : List (Entry V)) (e : Entry V) → All P es → find_entry key es ≡ some e → P e
  unfolding find_entry
  All-find_entry key [] e all h = cc
  All-find_entry key (x ∷ xs) e (here, rest) h = elim (Bool-cases (x.key == key)) [
    | inl same ↦ let at : x ≡ e = ground arith in subst P at here
    | inr differs ↦ All-find_entry key xs e rest (ground arith)
  ]

  pub All-insert_entry :
      (new : Entry V) (es : List (Entry V)) → P new → All P es → All P (insert_entry new es)
  unfolding insert_entry
  All-insert_entry new [] h all = (h, tt)
  All-insert_entry new (e ∷ es) h (here, rest) = elim (Bool-cases (e.key == new.key)) [
    | inl same ↦ rw same (h, rest)
    | inr differs ↦ elim (Bool-cases (ltb new.key e.key)) [
      | inl before ↦ rw (differs, before) (h, (here, rest))
      | inr behind ↦ rw (differs, behind) (here, All-insert_entry new es h rest)
    ]
  ]

  pub All-put :
      (now key : ℕ) (value : V) (c : Cache V)
      → P (record { key = key; stamp = now; value = value })
      → All P c.entries
      → All P (put now key value c).entries
  unfolding put
  All-put now key value c h all =
      All-insert_entry (record { key = key; stamp = now; value = value }) c.entries h all

  All-erase_entry : (key : ℕ) (es : List (Entry V)) → All P es → All P (erase_entry key es)
  unfolding erase_entry
  All-erase_entry key [] all = tt
  All-erase_entry key (e ∷ es) (here, rest) = elim (Bool-cases (e.key == key)) [
    | inl same ↦ rw same rest
    | inr differs ↦ rw differs (here, All-erase_entry key es rest)
  ]

  All-erase_entries : (ks es : List (Entry V)) → All P es → All P (erase_entries ks es)
  unfolding erase_entries
  All-erase_entries [] es all = all
  All-erase_entries (k ∷ ks) es all =
      All-erase_entries ks (erase_entry k.key es) (All-erase_entry k.key es all)

  All-drop_expired :
      (now max_age : ℕ) (es : List (Entry V)) → All P es → All P (drop_expired now max_age es)
  unfolding drop_expired
  All-drop_expired now max_age [] all = tt
  All-drop_expired now max_age (e ∷ es) (here, rest) =
      elim (Bool-cases (is_expired now max_age e)) [
        | inl old ↦ rw old (All-drop_expired now max_age es rest)
        | inr fresh ↦ rw fresh (here, All-drop_expired now max_age es rest)
      ]

  -- With room for one entry at least, the limit that `CheckAges(-1)` keeps to is not negative.
  pub All-check_ages :
      (now m : ℕ) (c : Cache V)
      → c.max_size ≡ suc m
      → All P c.entries
      → (c' : Cache V) × (check_ages now (negsuc 0) c ≡ ok c')
        × (c'.max_size ≡ c.max_size)
        × All P c'.entries
  All-check_ages now m c room all =
      let kept : List (Entry V) = drop_expired now c.max_age c.entries in
      let all_kept : All P kept = All-drop_expired now c.max_age c.entries all in
      let limit : add_ℕ c.max_size (negsuc 0) ≡ pos m = rw room (ground arith) in
      let nonzero : (c.max_size == 0) ≡ false = rw room (ground arith) in
      let fitting : Cache V = record c { entries = kept } in
      unfold check_ages kill_oldest in
      rw (check_ages, limit, nonzero)
        (elim (Bool-cases (not (m == 0) && ltb m (length kept))) [
          | inl full ↦ rw full (
            kill_oldest fitting kept m,
            refl,
            refl,
            All-erase_entries (take (length kept - m) (sort_by_age kept)) kept all_kept,
          )
          | inr fits ↦ rw fits (fitting, refl, refl, all_kept)
        ])
