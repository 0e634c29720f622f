-- ===== src/Range/Tests.antt =====
-- A set of numbers from 3 to 6.
use cromfs.Base.{ℕ, ◌<◌, ◌≤◌, ◌≡◌, refl, arith, true, false, not, ◌&&◌, ◌||◌, Bool, [], ◌∷◌, some}
use cromfs.Base.{ltb, leb}
use cromfs.Range.{
  Changepoints, flag, insert_numbers, erase_numbers, set_range, erase, keys_below, keys_from,
  last_of, erase_from, set_end, set_node, set_start, erase_end, erase_node, erase_start, find_range,
  coincides, contains, intersect,
}
use cromfs.Range.{erase_before, erase_after}
use cromfs.Range.Ends.{erase_before-erase_after_values}
use cromfs.Range.Values.{value_at}
use cromfs.Base.{if◌then◌else◌}
use cromfs.Range.Normal.{IsAscending}
use cromfs.Range.Values.{look}
use cromfs.Range.Canonical.{IsCompact, IsCollection, set_range-erase-IsCollection}
use cromfs.Range.Unique.{set_range-set_range, find_range-value_at}
use cromfs.Range.Numbers.{has_number, insert-erase_numbers_refine, contains-intersect}

abbrev numbers : Changepoints Bool
numbers = (3, true) ∷ ((7, false) ∷ [])

numbers-IsCollection : IsCollection flag numbers
numbers-IsCollection = record {
  ascending = unfold IsAscending in (omega arith, (omega arith, tt));
  compact = unfold IsCompact in (refl, (refl, tt));
  ends = refl;
}

-- Erasing 4 and 5 leaves 3 and 6, and inserting them again is inserting 3 to 6 at once.
split : (erase_numbers 4 6 numbers).0 ≡ (3, true) ∷ ((4, false) ∷ ((6, true) ∷ ((7, false) ∷ [])))
unfolding erase_numbers erase keys_below keys_from last_of erase_from erase_end erase_node
    erase_start
split = refl

joined : insert_numbers 5 9 numbers ≡ (3, true) ∷ ((9, false) ∷ [])
unfolding insert_numbers set_range keys_below keys_from last_of erase_from set_end set_node
    set_start
joined = refl

insert-erase_numbers_refine_example :
    (IsCollection flag (insert_numbers 5 9 numbers)
      × IsCollection flag (erase_numbers 5 9 numbers).0)
    × ((v : ℕ)
        → (has_number v (insert_numbers 5 9 numbers) ≡ (leb 5 v && ltb v 9) || has_number v numbers)
          × (has_number v (erase_numbers 5 9 numbers).0
              ≡ (not (leb 5 v && ltb v 9) && has_number v numbers)))
insert-erase_numbers_refine_example =
    insert-erase_numbers_refine 5 9 numbers (omega arith) numbers-IsCollection

set_range-erase-IsCollection_example :
    IsCollection flag (set_range flag 4 6 true numbers)
    × IsCollection flag (erase flag 4 6 numbers).0
set_range-erase-IsCollection_example =
    set_range-erase-IsCollection flag 4 6 numbers (omega arith) numbers-IsCollection true refl

set_range-set_range_example :
    (set_range flag 1 4 true (set_range flag 1 4 true numbers) ≡ set_range flag 1 4 true numbers)
    × ((erase flag 1 4 (set_range flag 1 4 true numbers)).0 ≡ (erase flag 1 4 numbers).0)
    × (set_range flag 1 4 true (erase flag 1 4 numbers).0 ≡ set_range flag 1 4 true numbers)
    × (4 ≤ 6
        → set_range flag 1 4 true (set_range flag 6 9 true numbers)
          ≡ set_range flag 6 9 true (set_range flag 1 4 true numbers))
set_range-set_range_example =
    set_range-set_range flag 1 4 6 9 true true numbers (omega arith) (omega arith) refl refl
      numbers-IsCollection

find_range-value_at_example : find_range flag 5 numbers ≡ some true
unfolding look
find_range-value_at_example = find_range-value_at flag 5 numbers numbers-IsCollection

contains-intersect_example :
    ((v : ℕ)
      → contains (intersect (record { lower = 1; upper = 5 }) (record { lower = 3; upper = 9 })) v
        ≡ (contains (record { lower = 1; upper = 5 }) v
            && contains (record { lower = 3; upper = 9 }) v))
    × (1 < 5
        → 3 < 9
        → coincides (record { lower = 1; upper = 5 }) (record { lower = 3; upper = 9 })
          ≡ ltb
              (intersect (record { lower = 1; upper = 5 }) (record { lower = 3; upper = 9 })).lower
              (intersect (record { lower = 1; upper = 5 }) (record { lower = 3; upper = 9 })).upper)
contains-intersect_example =
    contains-intersect (record { lower = 1; upper = 5 }) (record { lower = 3; upper = 9 })

erase_before-erase_after_values_example :
    (value_at flag 5 (erase_before flag 4 numbers).0
      ≡ (if ltb 5 4 then false else value_at flag 5 numbers))
    × (value_at flag 5 (erase_after flag 4 numbers).0
        ≡ (if leb 4 5 then false else value_at flag 5 numbers))
erase_before-erase_after_values_example =
    erase_before-erase_after_values flag 4 numbers numbers-IsCollection 5
