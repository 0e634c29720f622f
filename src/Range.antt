-- ===== src/Range.antt =====
-- lib/range.hh and lib/range.tcc: `rangecollection`, a function from keys to values that is stored by
-- its changepoints, and lib/rangeset.hh on it. The std::map is a list in ascending order of the
-- keys. Keys are numbers. `offset`, which nothing in the repository calls, is left out.
pub mod Normal
pub mod Values
pub mod Canonical
pub mod Unique
pub mod Ends
pub mod Numbers
mod Tests
use cromfs.Base.{
  ℕ, zero, suc, ◌+◌, ◌-◌, ◌≤◌, ◌<◌, ◌≡◌, max, min, Bool, true, false, not, ◌&&◌, List, [], ◌∷◌,
  ◌++◌, length, Option, none, some, refl, sym,
}
use cromfs.Base.{ltb, leb, ◌==◌, if◌then◌else◌}

-- What a `Valueholder` of `rangecollection` provides, and what the code relies on: `==` tells equal
-- values, and there is one nil.
pub record Valueholder (V : Type 0) : Type 0 where
  pub nil : V
  pub is_nil : V → Bool
  pub same : V → V → Bool
  pub is_nil-nil : is_nil nil ≡ true
  pub is_nil_only : (x : V) → is_nil x ≡ true → x ≡ nil
  pub same_self : (x : V) → same x x ≡ true
  pub same_only : (x y : V) → same x y ≡ true → x ≡ y

-- `rangetype`
pub record RangeType : Type 0 where
  pub lower : ℕ
  pub upper : ℕ

pub coincides : RangeType → RangeType → Bool
coincides a b = ltb a.lower b.upper && ltb b.lower a.upper

pub contains : RangeType → ℕ → Bool
contains a v = leb a.lower v && ltb v a.upper

pub intersect : RangeType → RangeType → RangeType
intersect a b =
    let lower = max a.lower b.lower in
    let upper = min a.upper b.upper in
    record { lower = lower; upper = if ltb upper lower then lower else upper }

abbrev pub Changepoints : Type 0 → Type 0
Changepoints V = List (ℕ × V)

module _ {V : Type 0} where
  -- What stands in front of `lower_bound(k)`, and what stands from there on.
  pub keys_below : ℕ → Changepoints V → Changepoints V
  keys_below k [] = []
  keys_below k ((j, x) ∷ rest) =
      let below = keys_below k rest in if ltb j k then (j, x) ∷ below else []

  pub keys_from : ℕ → Changepoints V → Changepoints V
  keys_from k [] = []
  keys_from k ((j, x) ∷ rest) =
      let later = keys_from k rest in if ltb j k then later else (j, x) ∷ rest

  -- `--i` on an iterator behind these: none if it is `begin()`.
  pub last_of : Changepoints V → Option V
  last_of [] = none
  last_of ((j, x) ∷ rest) = elim (last_of rest) [ none ↦ some x | some y ↦ some y ]

  -- The loop that erases the elements from `lower_bound(lo)` on whose keys are below `up`, and how
  -- many there were.
  pub erase_from : ℕ → Changepoints V → Changepoints V × ℕ
  erase_from up [] = ([], 0)
  erase_from up ((j, x) ∷ rest) =
      let later = erase_from up rest in
      if ltb j up then (later.0, later.1 + 1) else ((j, x) ∷ rest, 0)

module _ {V : Type 0} (H : Valueholder V) where
  -- The node that `erase` puts at `up`, when the map has none there: none at `begin()`.
  pub erase_node : ℕ → Option V → Changepoints V → Changepoints V
  erase_node up none back = back
  erase_node up (some y) back = if H.is_nil y then back else (up, y) ∷ back

  -- The first part of `erase`, with what stands in front of `lower_bound(up)` and from there on:
  -- what holds from `up` on stays.
  pub erase_end : ℕ → Changepoints V → Changepoints V → Changepoints V
  erase_end up front [] = front ++ erase_node up (last_of front) []
  erase_end up front (e ∷ rest) =
      if e.0 == up
      then front ++ (if H.is_nil e.1 then rest else e ∷ rest)
      else front ++ erase_node up (last_of front) (e ∷ rest)

  -- The last part of `erase`, with what stands in front of `lower_bound(lo)` and from there on.
  pub erase_start : ℕ → Changepoints V → Changepoints V → ℕ → Changepoints V × ℕ
  erase_start lo front back n_removed = elim (last_of front) [
    | none ↦ (front ++ back, n_removed)
    | some y ↦
        if H.is_nil y
        then (front ++ back, n_removed)
        else (front ++ ((lo, H.nil) ∷ back), n_removed + 1)
  ]

  pub erase : ℕ → ℕ → Changepoints V → Changepoints V × ℕ
  erase lo up entries =
      let ended = erase_end up (keys_below up entries) (keys_from up entries) in
      let left = erase_from up (keys_from lo ended) in
      let entries' = keys_below lo ended ++ left.0 in
      erase_start lo (keys_below lo entries') (keys_from lo entries') left.1

  pub erase_before : ℕ → Changepoints V → Changepoints V × ℕ
  erase_before lo [] = ([], 0)
  erase_before lo ((j, x) ∷ rest) =
      if ltb j lo then erase j lo ((j, x) ∷ rest) else ((j, x) ∷ rest, 0)

  -- `rbegin()->first`
  pub last_key : ℕ → Changepoints V → ℕ
  last_key j [] = j
  last_key j ((k, x) ∷ rest) = last_key k rest

  pub erase_after : ℕ → Changepoints V → Changepoints V × ℕ
  erase_after hi [] = ([], 0)
  erase_after hi ((j, x) ∷ rest) =
      let last = last_key j rest in
      if ltb hi last then erase hi last ((j, x) ∷ rest) else ((j, x) ∷ rest, 0)

  -- The node that `set` puts at `up`, when the map has none there: nil at `begin()`.
  pub set_node : ℕ → V → Option V → Changepoints V → Changepoints V
  set_node up new none back = (up, H.nil) ∷ back
  set_node up new (some y) back = if H.same y new then back else (up, y) ∷ back

  -- The first part of `set`, with what stands in front of `lower_bound(up)` and from there on.
  pub set_end : ℕ → V → Changepoints V → Changepoints V → Changepoints V
  set_end up new front [] = front ++ set_node up new (last_of front) []
  set_end up new front (e ∷ rest) =
      if e.0 == up
      then front ++ (if H.same e.1 new then rest else e ∷ rest)
      else front ++ set_node up new (last_of front) (e ∷ rest)

  -- The last part of `set`, with what stands in front of `lower_bound(lo)` and from there on.
  pub set_start : ℕ → V → Changepoints V → Changepoints V → Changepoints V
  set_start lo new front back = elim (last_of front) [
    | none ↦ front ++ ((lo, new) ∷ back)
    | some y ↦ if H.same y new then front ++ back else front ++ ((lo, new) ∷ back)
  ]

  pub set_range : ℕ → ℕ → V → Changepoints V → Changepoints V
  set_range lo up new entries =
      let ended = set_end up new (keys_below up entries) (keys_from up entries) in
      let entries' = keys_below lo ended ++ (erase_from up (keys_from lo ended)).0 in
      set_start lo new (keys_below lo entries') (keys_from lo entries')

  -- `find`, with what stands in front of `lower_bound(v)` and from there on: the value of the range
  -- that has the key, if it is not nil.
  pub find_at : ℕ → Changepoints V → Changepoints V → Option V
  find_at v front [] = none
  find_at v front (e ∷ rest) =
      let filled : V → Option V = λ x. if H.is_nil x then none else some x in
      if ltb v e.0 then elim (last_of front) [ none ↦ none | some y ↦ filled y ] else filled e.1

  pub find_range : ℕ → Changepoints V → Option V
  find_range v entries = find_at v (keys_below v entries) (keys_from v entries)

-- The `Valueholder` of `rangeset`: `true` stands for a number in the set.
abbrev pub flag : Valueholder Bool
flag = record {
  nil = false;
  is_nil = not;
  same = equal_flags;
  is_nil-nil = refl;
  is_nil_only =
      λ x. elim x as (λ y. not y ≡ true → y ≡ false) [ true ↦ λ e. sym e | false ↦ λ e. refl ];
  same_self = λ x. elim x as (λ y. equal_flags y y ≡ true) [ true ↦ refl | false ↦ refl ];
  same_only = λ x y. equal_flags_only x y;
}
  where
    equal_flags : Bool → Bool → Bool
    equal_flags true y = y
    equal_flags false y = not y

    equal_flags_only : (x y : Bool) → equal_flags x y ≡ true → x ≡ y
    equal_flags_only true y e = sym e
    equal_flags_only false true e = e
    equal_flags_only false false e = refl

-- `rangeset::set`, `insert` and the two forms of `erase`.
pub insert_numbers : ℕ → ℕ → Changepoints Bool → Changepoints Bool
insert_numbers lo up entries = set_range flag lo up true entries

pub insert_number : ℕ → Changepoints Bool → Changepoints Bool
insert_number pos entries = insert_numbers pos (pos + 1) entries

pub erase_numbers : ℕ → ℕ → Changepoints Bool → Changepoints Bool × ℕ
erase_numbers lo up entries = erase flag lo up entries

pub erase_number : ℕ → Changepoints Bool → Changepoints Bool × ℕ
erase_number lo entries = erase_numbers lo (lo + 1) entries
