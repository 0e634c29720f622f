-- ===== src/Cache/Lookup.antt =====
-- What the cache holds after its operations.
use cromfs.Base.{ℕ, ◌≡◌, refl, sym, ap, List, [], ◌∷◌, Option, none, some, ◌==◌, arith}
use cromfs.Base.{if◌then◌else◌}
use cromfs.Cache.{Entry, Cache, find_entry, insert_entry, find, has, put}
use cromfs.Base.{Option-cases, inl, inr}
use cromfs.Base.{Bool-cases, is_some}

module _ {V : Type 0} where
  -- The cached value of a key.
  abbrev pub value_of : ℕ → List (Entry V) → Option V
  value_of key es = elim (find_entry key es) [ none ↦ none | some e ↦ some e.value ]

  pub find_entry-key :
      (key : ℕ) (es : List (Entry V)) (e : Entry V) → find_entry key es ≡ some e → e.key ≡ key
  unfolding find_entry
  find_entry-key key [] e h = cc
  find_entry-key key (x ∷ xs) e h = ground (arith, find_entry-key key xs e)

  -- `find_entry` passes over the keys below the one that it looks for, so the order of the keys
  -- makes no difference to it.
  pub find_entry-insert_entry :
      (key : ℕ) (new : Entry V) (es : List (Entry V))
      → find_entry key (insert_entry new es)
        ≡ (if new.key == key then some new else find_entry key es)
  unfolding find_entry insert_entry
  find_entry-insert_entry key new [] = refl
  find_entry-insert_entry key new (e ∷ es) = ground (arith, find_entry-insert_entry key new es)

  value_of-insert_entry :
      (key : ℕ) (new : Entry V) (es : List (Entry V))
      → value_of key (insert_entry new es)
        ≡ (if new.key == key then some new.value else value_of key es)
  value_of-insert_entry key new es = elim (Bool-cases (new.key == key)) [
    | inl e ↦ rw (value_of, find_entry-insert_entry key new es, e)
    | inr e ↦ rw (value_of, find_entry-insert_entry key new es, e)
  ]

  pub value_of-find :
      (now key other : ℕ) (c : Cache V)
      → value_of other (find now key c).0.entries ≡ value_of other c.entries
  unfolding find
  value_of-find now key other c = elim (Option-cases (find_entry key c.entries)) [
    | inl miss ↦ rw (find, miss)
    | inr (e, hit) ↦
        rw (find, hit, value_of-insert_entry other (record e { stamp = now }) c.entries)
          (elim (Bool-cases (e.key == other)) [
            | inl same ↦
                let at : other ≡ key = ground (arith, find_entry-key key c.entries e hit) in
                rw (same, at, value_of, hit)
            | inr differs ↦ rw differs
          ])
  ]

  pub value_of-put :
      (now key other : ℕ) (value : V) (c : Cache V)
      → value_of other (put now key value c).entries
        ≡ (if key == other then some value else value_of other c.entries)
  unfolding put
  value_of-put now key other value c =
      value_of-insert_entry other (record { key = key; stamp = now; value = value }) c.entries

  abbrev pub touched : ℕ → Option (Entry V) → Option (Entry V)
  touched now none = none
  touched now (some e) = some (record e { stamp = now })

  entry-find :
      (now key other : ℕ) (c : Cache V)
      → find_entry other (find now key c).0.entries ≡ (
          if key == other
          then touched now (find_entry other c.entries)
          else find_entry other c.entries)
  unfolding find
  entry-find now key other c = elim (Option-cases (find_entry key c.entries)) [
    | inl miss ↦ elim (Bool-cases (key == other)) [
      | inl same ↦ let at : other ≡ key = ground arith in rw (find, miss, same, at, miss) refl
      | inr differs ↦ rw (find, miss, differs) refl
    ]
    | inr (e, hit) ↦
        let at : e.key ≡ key = find_entry-key key c.entries e hit in
        rw (find, hit, find_entry-insert_entry other (record e { stamp = now }) c.entries, at)
          (elim (Bool-cases (key == other)) [
            | inl same ↦
                let at' : other ≡ key = ground arith in
                rw (same, at', hit)
                  (ap (λ (k : ℕ). some (record { key = k; stamp = now; value = e.value })) (sym at))
            | inr differs ↦ rw differs refl
          ])
  ]

  -- The cache refines a map from keys to values with time stamps: `Find` returns the value of the key
  -- and sets the stamp of its entry, and of no other, to the time; `Has` tells whether there is one;
  -- and `Put` gives its key alone the value, with the time as stamp.
  pub find-has-put_refine :
      (now key other : ℕ) (value : V) (c : Cache V)
      → ((find now key c).1 ≡ value_of key c.entries)
        × (find_entry other (find now key c).0.entries ≡ (
            if key == other
            then touched now (find_entry other c.entries)
            else find_entry other c.entries))
        × (has key c ≡ is_some (value_of key c.entries))
        × (find_entry other (put now key value c).entries ≡ (
            if key == other
            then some (record { key = key; stamp = now; value = value })
            else find_entry other c.entries))
  unfolding has put
  find-has-put_refine now key other value c = (
    elim (Option-cases (find_entry key c.entries)) [
      | inl miss ↦ unfold find in rw (find, value_of, miss)
      | inr (e, hit) ↦ unfold find in rw (find, value_of, hit)
    ],
    entry-find now key other c,
    elim (Option-cases (find_entry key c.entries)) [
      | inl miss ↦ rw (has, value_of, miss)
      | inr (e, hit) ↦ rw (has, value_of, hit)
    ],
    find_entry-insert_entry other (record { key = key; stamp = now; value = value }) c.entries,
  )
