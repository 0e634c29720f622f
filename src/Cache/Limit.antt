-- ===== src/Cache/Limit.antt =====
-- `CheckAges`: how many entries the killing of the oldest leaves.
use cromfs.Base.{
  ℕ, suc, ◌+◌, ◌-◌, ◌<◌, ◌≤◌, ◌≡◌, refl, ap, ◌∙◌, List, [], ◌∷◌, ◌++◌, take, drop, length, arith,
  inl, inr,
}
use cromfs.Base.{ltb, ◌==◌, if◌then◌else◌, Bool-cases, length-take_le, take-append-drop}
use cromfs.Cache.{Entry, Cache, erase_entry, erase_entries, kill_oldest, insert_by_age, sort_by_age}

module _ {V : Type 0} where
  -- How many entries have the key `k`.
  unfoldable pub count_key : ℕ → List (Entry V) → ℕ
  count_key k [] = 0
  count_key k (e ∷ es) = (if e.key == k then 1 else 0) + count_key k es

  pub count_key-append :
      (k : ℕ) (xs ys : List (Entry V)) → count_key k (xs ++ ys) ≡ count_key k xs + count_key k ys
  unfolding count_key
  count_key-append k [] ys = omega arith
  count_key-append k (e ∷ xs) ys = omega (arith, count_key-append k xs ys)

  count_key-insert_by_age :
      (k : ℕ) (new : Entry V) (es : List (Entry V))
      → count_key k (insert_by_age new es) ≡ (if new.key == k then 1 else 0) + count_key k es
  unfolding count_key insert_by_age
  count_key-insert_by_age k new [] = refl
  count_key-insert_by_age k new (e ∷ es) = elim (Bool-cases (ltb e.stamp new.stamp)) [
    | inl older ↦ rw older (omega (arith, count_key-insert_by_age k new es))
    | inr younger ↦ rw younger refl
  ]

  pub count_key-sort_by_age :
      (k : ℕ) (es : List (Entry V)) → count_key k (sort_by_age es) ≡ count_key k es
  unfolding count_key sort_by_age
  count_key-sort_by_age k [] = refl
  count_key-sort_by_age k (e ∷ es) =
      count_key-insert_by_age k e (sort_by_age es) ∙ omega (arith, count_key-sort_by_age k es)

  length-insert_by_age :
      (new : Entry V) (es : List (Entry V)) → length (insert_by_age new es) ≡ suc (length es)
  unfolding insert_by_age
  length-insert_by_age new [] = refl
  length-insert_by_age new (e ∷ es) = elim (Bool-cases (ltb e.stamp new.stamp)) [
    | inl older ↦ rw older (ap suc (length-insert_by_age new es))
    | inr younger ↦ rw younger refl
  ]

  length-sort_by_age : (es : List (Entry V)) → length (sort_by_age es) ≡ length es
  unfolding sort_by_age
  length-sort_by_age [] = refl
  length-sort_by_age (e ∷ es) =
      length-insert_by_age e (sort_by_age es) ∙ ap suc (length-sort_by_age es)

  -- Erasing a key that is there removes one entry, and no entry of another key.
  length-erase_entry :
      (k : ℕ) (es : List (Entry V))
      → 0 < count_key k es
      → suc (length (erase_entry k es)) ≡ length es
  unfolding count_key erase_entry
  length-erase_entry k [] h = absurd (omega arith)
  length-erase_entry k (e ∷ es) h = elim (Bool-cases (e.key == k)) [
    | inl same ↦ rw same refl
    | inr other ↦ rw other (ap suc (length-erase_entry k es (ground arith)))
  ]

  count_key-erase_entry :
      (k j : ℕ) (es : List (Entry V))
      → 0 < count_key k es
      → count_key j (erase_entry k es) + (if k == j then 1 else 0) ≡ count_key j es
  unfolding count_key erase_entry
  count_key-erase_entry k j [] h = absurd (omega arith)
  count_key-erase_entry k j (e ∷ es) h = elim (Bool-cases (e.key == k)) [
    | inl same ↦ rw same (ground arith)
    | inr other ↦ rw other (ground (arith, count_key-erase_entry k j es (ground arith)))
  ]

  length-erase_entries :
      (ks es : List (Entry V))
      → ((k : ℕ) → count_key k ks ≤ count_key k es)
      → length (erase_entries ks es) + length ks ≡ length es
  unfolding erase_entries count_key
  length-erase_entries [] es h = omega arith
  length-erase_entries (e ∷ ks) es h =
      let here : 0 < count_key e.key es = ground (arith, h e.key) in
      let others : (k : ℕ) → count_key k ks ≤ count_key k (erase_entry e.key es) =
        λ k. omega (arith, h k, count_key-erase_entry e.key k es here) in
      omega (
        arith,
        length-erase_entries ks (erase_entry e.key es) others,
        length-erase_entry e.key es here,
      )

  pub length-kill_oldest :
      (c : Cache V) (limit : ℕ)
      → limit ≤ length c.entries
      → length (kill_oldest c c.entries limit).entries ≡ limit
  unfolding kill_oldest
  length-kill_oldest c limit h =
      let n = length c.entries - limit in
      let ks : List (Entry V) = take n (sort_by_age c.entries) in
      let ks_len : length ks ≡ n =
        length-take_le n (sort_by_age c.entries) (omega (arith, length-sort_by_age c.entries)) in
      let inside : (k : ℕ) → count_key k ks ≤ count_key k c.entries = λ k. omega (
        arith,
        count_key-append k ks (drop n (sort_by_age c.entries)),
        ap (count_key k) (take-append-drop n (sort_by_age c.entries)),
        count_key-sort_by_age k c.entries,
      ) in
      omega (arith, length-erase_entries ks c.entries inside)
