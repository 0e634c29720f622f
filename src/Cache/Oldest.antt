-- ===== src/Cache/Oldest.antt =====
-- `CheckAges`: which entries it leaves.
use cromfs.Base.{
  ℕ, zero, suc, ◌+◌, ◌-◌, ◌<◌, ◌≤◌, ◌≡◌, refl, sym, ap, ◌∙◌, subst, min, List, [], ◌∷◌, take, drop,
  length, ok, arith, inl, inr, All, Option, none, some, take-append-drop,
}
use cromfs.Base.{Bool, true, false, not, ◌&&◌, ◌||◌, ltb, leb, ◌==◌, if◌then◌else◌, Bool-cases}
use cromfs.Base.Int.{ℤ, pos, add_ℕ}
use cromfs.Cache.{
  Entry, Cache, find_entry, erase_entry, erase_entries, drop_expired, is_expired, kill_oldest,
  insert_by_age, sort_by_age, check_ages,
}
use cromfs.Cache.Limit.{count_key, count_key-append, count_key-sort_by_age, length-kill_oldest}

module _ {V : Type 0} where
  -- The keys ascend from `k` on, as in a std::map.
  unfoldable pub IsOrdered : ℕ → List (Entry V) → Type 0
  IsOrdered k [] = Unit {0}
  IsOrdered k (e ∷ es) = (k ≤ e.key) × IsOrdered (suc e.key) es

  -- Oldest first.
  IsAged : List (Entry V) → Type 0
  IsAged [] = Unit {0}
  IsAged (e ∷ es) = All (λ (g : Entry V). e.stamp ≤ g.stamp) es × IsAged es

  -- The entries whose key and the age limit together are above the time; all without an age limit.
  abbrev pub alive : ℕ → ℕ → List (Entry V) → List (Entry V)
  alive now max_age [] = []
  alive now max_age (e ∷ es) =
      let rest = alive now max_age es in
      if (max_age == 0) || ltb now (e.key + max_age) then e ∷ rest else rest

  drop_expired-alive :
      (now max_age : ℕ) (es : List (Entry V)) → drop_expired now max_age es ≡ alive now max_age es
  unfolding drop_expired is_expired
  drop_expired-alive now max_age [] = refl
  drop_expired-alive now max_age (e ∷ es) =
      elim (Bool-cases ((max_age == 0) || ltb now (e.key + max_age))) [
        | inl stays ↦
            let young : (not (max_age == 0) && leb (e.key + max_age) now) ≡ false = ground arith in
            rw (young, stays) (ap (λ l. e ∷ l) (drop_expired-alive now max_age es))
        | inr goes ↦
            let old : (not (max_age == 0) && leb (e.key + max_age) now) ≡ true = ground arith in
            rw (old, goes) (drop_expired-alive now max_age es)
      ]

  IsOrdered-more : (i k : ℕ) (es : List (Entry V)) → i ≤ k → IsOrdered k es → IsOrdered i es
  unfolding IsOrdered
  IsOrdered-more i k [] h o = tt
  IsOrdered-more i k (e ∷ es) h (first, o) = (omega arith, o)

  IsOrdered-alive :
      (k now max_age : ℕ) (es : List (Entry V))
      → IsOrdered k es
      → IsOrdered k (alive now max_age es)
  unfolding IsOrdered
  IsOrdered-alive k now max_age [] o = tt
  IsOrdered-alive k now max_age (e ∷ es) (first, o) =
      let rest = IsOrdered-alive (suc e.key) now max_age es o in
      elim (Bool-cases ((max_age == 0) || ltb now (e.key + max_age))) [
        | inl stays ↦ rw stays (first, rest)
        | inr goes ↦
            rw goes (IsOrdered-more k (suc e.key) (alive now max_age es) (omega arith) rest)
      ]

  find_entry-below :
      (j k : ℕ) (es : List (Entry V)) → IsOrdered k es → j < k → find_entry j es ≡ none
  unfolding IsOrdered find_entry
  find_entry-below j k [] o h = refl
  find_entry-below j k (e ∷ es) (first, o) h =
      let other : (e.key == j) ≡ false = ground arith in
      rw other (find_entry-below j (suc e.key) es o (omega arith))

  find_entry-erase_entry :
      (i j k : ℕ) (es : List (Entry V))
      → IsOrdered i es
      → find_entry j (erase_entry k es) ≡ (if k == j then none else find_entry j es)
  unfolding IsOrdered find_entry erase_entry
  find_entry-erase_entry i j k [] o = elim (Bool-cases (k == j)) [ inl e ↦ rw e | inr e ↦ rw e ]
  find_entry-erase_entry i j k (x ∷ es) (first, o) = elim (Bool-cases (x.key == k)) [
    | inl here ↦ elim (Bool-cases (k == j)) [
      | inl same ↦
          let at : j < suc x.key = ground arith in
          rw (here, same) (find_entry-below j (suc x.key) es o at)
      | inr differs ↦
          let other : (x.key == j) ≡ false = ground arith in rw (here, differs, other) refl
    ]
    | inr there ↦ elim (Bool-cases (x.key == j)) [
      | inl same ↦ let differs : (k == j) ≡ false = ground arith in rw (there, same, differs) refl
      | inr other ↦ rw (there, other) (find_entry-erase_entry (suc x.key) j k es o)
    ]
  ]

  IsOrdered-erase_entry :
      (i k : ℕ) (es : List (Entry V)) → IsOrdered i es → IsOrdered i (erase_entry k es)
  unfolding IsOrdered erase_entry
  IsOrdered-erase_entry i k [] o = tt
  IsOrdered-erase_entry i k (x ∷ es) (first, o) = elim (Bool-cases (x.key == k)) [
    | inl here ↦ rw here (IsOrdered-more i (suc x.key) es (omega arith) o)
    | inr there ↦ rw there (first, IsOrdered-erase_entry (suc x.key) k es o)
  ]

  IsOrdered-erase_entries :
      (i : ℕ) (ks es : List (Entry V)) → IsOrdered i es → IsOrdered i (erase_entries ks es)
  unfolding erase_entries
  IsOrdered-erase_entries i [] es o = o
  IsOrdered-erase_entries i (x ∷ ks) es o =
      IsOrdered-erase_entries i ks (erase_entry x.key es) (IsOrdered-erase_entry i x.key es o)

  if_not : (c : Bool) (x y : Option (Entry V)) → c ≡ false → (if c then x else y) ≡ y
  if_not true x y e = absurd cc
  if_not false x y e = refl

  if_none : (c : Bool) → ◌≡◌ {A = Option (Entry V)} (if c then none else none) none
  if_none true = refl
  if_none false = refl

  -- Erased are the keys of the list, and no others.
  find_entry-erase_entries :
      (i j : ℕ) (ks es : List (Entry V))
      → IsOrdered i es
      → find_entry j (erase_entries ks es)
        ≡ (if ltb 0 (count_key j ks) then none else find_entry j es)
  unfolding erase_entries count_key
  find_entry-erase_entries i j [] es o = refl
  find_entry-erase_entries i j (x ∷ ks) es o =
      find_entry-erase_entries i j ks (erase_entry x.key es) (IsOrdered-erase_entry i x.key es o)
      ∙ elim (Bool-cases (x.key == j)) [
        | inl here ↦
            let found : ltb 0 (1 + count_key j ks) ≡ true = ground arith in
            rw (here, found)
              (ap (λ o. if ltb 0 (count_key j ks) then none else o)
                  (find_entry-erase_entry i j x.key es o ∙ rw here refl)
                ∙ if_none (ltb 0 (count_key j ks)))
        | inr there ↦
            let e0 : 0 + count_key j ks ≡ count_key j ks = omega arith in
            rw (there, e0)
              (ap (λ o. if ltb 0 (count_key j ks) then none else o)
                (find_entry-erase_entry i j x.key es o
                  ∙ if_not (x.key == j) none (find_entry j es) there))
      ]

  All-insert_by_age :
      (P : Entry V → Type 0) (new : Entry V) (es : List (Entry V))
      → P new
      → All P es
      → All P (insert_by_age new es)
  unfolding insert_by_age
  All-insert_by_age P new [] p ps = (p, tt)
  All-insert_by_age P new (e ∷ es) p (first, ps) = elim (Bool-cases (ltb e.stamp new.stamp)) [
    | inl older ↦ rw older (first, All-insert_by_age P new es p ps)
    | inr younger ↦ rw younger (p, (first, ps))
  ]

  All-sort_by_age : (P : Entry V → Type 0) (es : List (Entry V)) → All P es → All P (sort_by_age es)
  unfolding sort_by_age
  All-sort_by_age P [] ps = tt
  All-sort_by_age P (e ∷ es) (p, ps) =
      All-insert_by_age P e (sort_by_age es) p (All-sort_by_age P es ps)

  All-weaken :
      (P Q : Entry V → Type 0) (es : List (Entry V))
      → ((e : Entry V) → P e → Q e)
      → All P es
      → All Q es
  All-weaken P Q [] f ps = tt
  All-weaken P Q (e ∷ es) f (p, ps) = (f e p, All-weaken P Q es f ps)

  IsAged-insert_by_age :
      (new : Entry V) (es : List (Entry V)) → IsAged es → IsAged (insert_by_age new es)
  unfolding IsAged insert_by_age
  IsAged-insert_by_age new [] s = (tt, tt)
  IsAged-insert_by_age new (e ∷ es) (first, s) = elim (Bool-cases (ltb e.stamp new.stamp)) [
    | inl older ↦
        let le : e.stamp ≤ new.stamp = ground arith in
        rw older (
          All-insert_by_age (λ (g : Entry V). e.stamp ≤ g.stamp) new es le first,
          IsAged-insert_by_age new es s,
        )
    | inr younger ↦
        let le : new.stamp ≤ e.stamp = ground arith in
        rw younger (
          (
            le,
            All-weaken (λ (g : Entry V). e.stamp ≤ g.stamp) (λ (g : Entry V). new.stamp ≤ g.stamp)
                es (λ g h. omega arith) first,
          ),
          (first, s),
        )
  ]

  IsAged-sort_by_age : (es : List (Entry V)) → IsAged (sort_by_age es)
  unfolding IsAged sort_by_age
  IsAged-sort_by_age [] = tt
  IsAged-sort_by_age (e ∷ es) = IsAged-insert_by_age e (sort_by_age es) (IsAged-sort_by_age es)

  All-drop : (P : Entry V → Type 0) (n : ℕ) (es : List (Entry V)) → All P es → All P (drop n es)
  All-drop P zero es ps = ps
  All-drop P (suc n) [] ps = tt
  All-drop P (suc n) (e ∷ es) (p, ps) = All-drop P n es ps

  All-take : (P : Entry V → Type 0) (n : ℕ) (es : List (Entry V)) → All P es → All P (take n es)
  All-take P zero es ps = tt
  All-take P (suc n) [] ps = tt
  All-take P (suc n) (e ∷ es) (p, ps) = (p, All-take P n es ps)

  -- The first part of a list in the order of age is not younger than the rest.
  IsAged-parts :
      (n : ℕ) (es : List (Entry V))
      → IsAged es
      → All (λ (e : Entry V). All (λ (g : Entry V). e.stamp ≤ g.stamp) (drop n es)) (take n es)
  unfolding IsAged
  IsAged-parts zero es s = tt
  IsAged-parts (suc n) [] s = tt
  IsAged-parts (suc n) (e ∷ es) (first, s) =
      (All-drop (λ (g : Entry V). e.stamp ≤ g.stamp) n es first, IsAged-parts n es s)

  pick :
      (P Q : Entry V → Type 0) (j : ℕ) (es : List (Entry V))
      → 0 < count_key j es
      → All P es
      → All Q es
      → (e : Entry V) × (e.key ≡ j) × P e × Q e
  unfolding count_key
  pick P Q j [] h ps qs = absurd (omega arith)
  pick P Q j (e ∷ es) h (p, ps) (q, qs) = elim (Bool-cases (e.key == j)) [
    | inl same ↦ (e, ground arith, p, q)
    | inr other ↦ pick P Q j es (ground arith) ps qs
  ]

  -- The entries of an ordered list are found under their keys.
  found_each :
      (k : ℕ) (es : List (Entry V))
      → IsOrdered k es
      → All (λ (e : Entry V). find_entry e.key es ≡ some e) es
  unfolding IsOrdered find_entry
  found_each k [] o = tt
  found_each k (e ∷ es) (first, o) =
      let here : (e.key == e.key) ≡ true = ground arith in
      (rw here refl, found_behind e es (found_each (suc e.key) es o) o)
    where
      found_behind :
          (e : Entry V) (es : List (Entry V))
          → All (λ (g : Entry V). find_entry g.key es ≡ some g) es
          → IsOrdered (suc e.key) es
          → All (λ (g : Entry V). find_entry g.key (e ∷ es) ≡ some g) es
      found_behind e es all o =
          All-weaken (λ (g : Entry V). find_entry g.key es ≡ some g)
            (λ (g : Entry V). find_entry g.key (e ∷ es) ≡ some g) es
            (λ g h. elim (Bool-cases (e.key == g.key)) [
              | inl same ↦
                  let gone = find_entry-below g.key (suc e.key) es o (ground arith) in absurd cc
              | inr other ↦ rw other h
            ])
            all

  count_key-found :
      (j : ℕ) (es : List (Entry V)) (e : Entry V) → find_entry j es ≡ some e → 0 < count_key j es
  unfolding count_key find_entry
  count_key-found j [] e h = absurd cc
  count_key-found j (x ∷ es) e h = elim (Bool-cases (x.key == j)) [
    | inl here ↦ rw here (omega arith)
    | inr there ↦ rw there (omega (arith, count_key-found j es e (rw there at h)))
  ]

  -- An entry that is left was there, and its key is not among the killed.
  left_lem :
      (kept : List (Entry V)) (n key : ℕ) (f : Entry V)
      → IsOrdered 0 kept
      → find_entry key (erase_entries (take n (sort_by_age kept)) kept) ≡ some f
      → (ltb 0 (count_key key (take n (sort_by_age kept))) ≡ false) × (find_entry key kept ≡ some f)
  left_lem kept n key f o h =
      let ks : List (Entry V) = take n (sort_by_age kept) in
      let found = sym (find_entry-erase_entries 0 key ks kept o) ∙ h in
      elim (Bool-cases (ltb 0 (count_key key ks))) [
        | inl killed ↦ let gone = rw killed at found in absurd cc
        | inr left ↦ (left, (rw left at found))
      ]

  -- An entry that is gone is not younger than one that is left.
  killed_lem :
      (kept : List (Entry V)) (n key key' : ℕ) (e f : Entry V)
      → IsOrdered 0 kept
      → find_entry key kept ≡ some e
      → find_entry key (erase_entries (take n (sort_by_age kept)) kept) ≡ none
      → find_entry key' (erase_entries (take n (sort_by_age kept)) kept) ≡ some f
      → e.stamp ≤ f.stamp
  killed_lem kept n key key' e f o h gone h' =
      let s : List (Entry V) = sort_by_age kept in
      let ks : List (Entry V) = take n s in
      let rs : List (Entry V) = drop n s in
      let InKept : Entry V → Type 0 = λ g. find_entry g.key kept ≡ some g in
      let all_kept : All InKept s = All-sort_by_age InKept kept (found_each 0 kept o) in
      let removed = sym (find_entry-erase_entries 0 key ks kept o) ∙ gone in
      let (left, found') = left_lem kept n key' f o h' in
      let counts : count_key key' ks + count_key key' rs ≡ count_key key' kept =
        sym (count_key-append key' ks rs)
        ∙ (ap (count_key key') (take-append-drop n s) ∙ count_key-sort_by_age key' kept) in
      let there = count_key-found key' kept f found' in
      let dead : 0 < count_key key ks = elim (Bool-cases (ltb 0 (count_key key ks))) [
        | inl killed ↦ ground arith
        | inr spared ↦ let still = rw spared at removed in absurd cc
      ] in
      let (g, g_key, g_kept, g_younger) =
        pick InKept (λ g. All (λ (r : Entry V). g.stamp ≤ r.stamp) rs) key ks dead
          (All-take InKept n s all_kept) (IsAged-parts n s (IsAged-sort_by_age kept)) in
      let (r, r_key, r_kept, r_younger) =
        pick InKept (λ r. g.stamp ≤ r.stamp) key' rs (ground arith) (All-drop InKept n s all_kept)
          g_younger in
      let e_same = sym g_kept ∙ (ap (λ k. find_entry k kept) g_key ∙ h) in
      let e_is : g ≡ e = cc in
      let f_same = sym r_kept ∙ (ap (λ k. find_entry k kept) r_key ∙ found') in
      let f_is : r ≡ f = cc in
      subst (λ x. x.stamp ≤ f.stamp) e_is (subst (λ x. g.stamp ≤ x.stamp) f_is r_younger)

  -- `CheckAges` on a cache in the order of the keys, with a positive limit: of the entries that are
  -- not expired, which are those whose key and the age limit together are above the time, it leaves as
  -- many as the limit allows, in their order and as they were, and an entry that it removes is not
  -- younger than one that it leaves.
  pub check_ages_lem :
      (now limit : ℕ) (offset : ℤ) (c : Cache V)
      → IsOrdered 0 c.entries
      → 0 < c.max_size
      → add_ℕ c.max_size offset ≡ pos limit
      → 0 < limit
      → (c' : Cache V) × (check_ages now offset c ≡ ok c')
        × (length c'.entries ≡ min limit (length (alive now c.max_age c.entries)))
        × IsOrdered 0 c'.entries
        × ((key : ℕ) (f : Entry V)
            → find_entry key c'.entries ≡ some f
            → find_entry key (alive now c.max_age c.entries) ≡ some f)
        × ((key key' : ℕ) (e f : Entry V)
            → find_entry key (alive now c.max_age c.entries) ≡ some e
            → find_entry key c'.entries ≡ none
            → find_entry key' c'.entries ≡ some f
            → e.stamp ≤ f.stamp)
  check_ages_lem now limit offset c ordered sized at some_room =
      let kept : List (Entry V) = alive now c.max_age c.entries in
      let same = drop_expired-alive now c.max_age c.entries in
      let fitting : Cache V = record c { entries = kept } in
      let nonzero : (c.max_size == 0) ≡ false = ground arith in
      let nonzero_limit : (limit == 0) ≡ false = ground arith in
      let o = IsOrdered-alive 0 now c.max_age c.entries ordered in
      elim (Bool-cases (ltb limit (length kept))) [
        | inl full ↦
            let n : ℕ = length kept - limit in
            let ks : List (Entry V) = take n (sort_by_age kept) in
            (
              kill_oldest fitting kept limit,
              (unfold check_ages in rw (check_ages, at, same, nonzero, nonzero_limit, full)),
              length-kill_oldest fitting limit (ground arith) ∙ ground arith,
              (unfold kill_oldest in IsOrdered-erase_entries 0 ks kept o),
              (unfold kill_oldest in λ key f h. (left_lem kept n key f o h).1),
              (unfold kill_oldest in
                  λ key key' e f h gone h'. killed_lem kept n key key' e f o h gone h'),
            )
        | inr fits ↦ (
          fitting,
          (unfold check_ages in rw (check_ages, at, same, nonzero, nonzero_limit, fits)),
          ground arith,
          o,
          (λ key f h. h),
          (λ key key' e f h gone h'. absurd cc),
        )
      ]
