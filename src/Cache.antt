-- ===== src/Cache.antt =====
-- lib/datacache.hh: a cache with time stamps. The map is a list of entries in ascending order of
-- the keys. `now` is what `std::time(0)` returns in the call; the mutex is not modelled.
pub mod Lookup
pub mod Held
pub mod Limit
pub mod Oldest
mod Tests
use cromfs.Base.{ℕ, suc, ◌+◌, ◌-◌, ◌<◌, Bool, true, false, not, ◌&&◌, List, [], ◌∷◌, length, take}
use cromfs.Base.{Option, none, some, ltb, leb, ◌==◌, if◌then◌else◌, Result, ok, fault}
use cromfs.Base.Int.{ℤ, pos, negsuc, add_ℕ}

pub record Entry (V : Type 0) : Type 0 where
  pub key : ℕ
  pub stamp : ℕ
  pub value : V

pub record Cache (V : Type 0) : Type 0 where
  pub entries : List (Entry V)
  pub max_size : ℕ
  pub max_age : ℕ

module _ {V : Type 0} where
  -- `std::map::find`
  unfoldable pub find_entry : ℕ → List (Entry V) → Option (Entry V)
  find_entry key [] = none
  find_entry key (e ∷ es) = if e.key == key then some e else find_entry key es

  -- `data[key] = ...`: a new entry takes its place in the order.
  pub insert_entry : Entry V → List (Entry V) → List (Entry V)
  insert_entry new [] = new ∷ []
  insert_entry new (e ∷ es) =
      let rest = insert_entry new es in
      if e.key == new.key then new ∷ es else if ltb new.key e.key then new ∷ (e ∷ es) else e ∷ rest

  pub erase_entry : ℕ → List (Entry V) → List (Entry V)
  erase_entry key [] = []
  erase_entry key (e ∷ es) = let rest = erase_entry key es in if e.key == key then es else e ∷ rest

  pub erase_entries : List (Entry V) → List (Entry V) → List (Entry V)
  erase_entries [] es = es
  erase_entries (k ∷ ks) es = erase_entries ks (erase_entry k.key es)

  -- `std::sort` by `CompareAges`; entries of the same age stay in the order of the keys.
  pub insert_by_age : Entry V → List (Entry V) → List (Entry V)
  insert_by_age new [] = new ∷ []
  insert_by_age new (e ∷ es) =
      let rest = insert_by_age new es in if ltb e.stamp new.stamp then e ∷ rest else new ∷ (e ∷ es)

  pub sort_by_age : List (Entry V) → List (Entry V)
  sort_by_age [] = []
  sort_by_age (e ∷ es) = insert_by_age e (sort_by_age es)

  unfoldable pub clear : Cache V → Cache V
  clear c = record c { entries = [] }

  pub num_entries : Cache V → ℕ
  num_entries c = length c.entries

  -- `max_age && difftime(nowtime, i->first) >= max_age`: the code takes `i->first`, the key, for
  -- the time stamp.
  pub is_expired : ℕ → ℕ → Entry V → Bool
  is_expired now max_age e = not (max_age == 0) && leb (e.key + max_age) now

  pub drop_expired : ℕ → ℕ → List (Entry V) → List (Entry V)
  drop_expired now max_age [] = []
  drop_expired now max_age (e ∷ es) =
      let rest = drop_expired now max_age es in if is_expired now max_age e then rest else e ∷ rest

  -- The loop of `num_kill` rounds over `age_order`, when the limit is a positive number.
  pub kill_oldest : Cache V → List (Entry V) → ℕ → Cache V
  kill_oldest c age_order limit = record c {
    entries = erase_entries (take (length age_order - limit) (sort_by_age age_order)) c.entries;
  }

  -- With a negative limit `num_kill` is above the length of `age_order`, and the loop reads past
  -- the end of it.
  pub check_ages : ℕ → ℤ → Cache V → Result (Cache V)
  check_ages now count_offset cache =
      let kept = drop_expired now cache.max_age cache.entries in
      let c = record cache { entries = kept } in
      let age_order = if cache.max_size == 0 then [] else kept in
      elim (add_ℕ cache.max_size count_offset) [
        | pos limit ↦
            if not (limit == 0) && ltb limit (length kept)
            then ok (kill_oldest c age_order limit)
            else ok c
        | negsuc n ↦ fault
      ]

  -- A hit gets a new time stamp.
  pub find : ℕ → ℕ → Cache V → Cache V × Option V
  find now key c = elim (find_entry key c.entries) [
    | none ↦ (c, none)
    | some e ↦
        (record c { entries = insert_entry (record e { stamp = now }) c.entries }, some e.value)
  ]

  pub has : ℕ → Cache V → Bool
  has key c = elim (find_entry key c.entries) [ none ↦ false | some e ↦ true ]

  pub put : ℕ → ℕ → V → Cache V → Cache V
  put now key value c = record c {
    entries = insert_entry (record { key = key; stamp = now; value = value }) c.entries;
  }
