-- ===== src/Range/Numbers.antt =====
-- lib/rangeset.hh: a set of numbers, and lib/range.hh, `rangetype`.
use cromfs.Base.{ℕ, ◌<◌, ◌≡◌, refl, ◌∙◌, arith, true, false, not, Bool, ◌&&◌, ◌||◌}
use cromfs.Base.{ltb, leb, if◌then◌else◌}
use cromfs.Range.{
  Changepoints, flag, insert_numbers, erase_numbers, RangeType, coincides, contains, intersect,
}
use cromfs.Range.Values.{value_at, set_range-erase_values}
use cromfs.Range.Canonical.{IsCollection, set_range-erase-IsCollection}

-- Whether a set has a number.
abbrev pub has_number : ℕ → Changepoints Bool → Bool
has_number v d = value_at flag v d

if_true : (c x : Bool) → (if c then true else x) ≡ (c || x)
if_true true x = refl
if_true false x = refl

if_false : (c x : Bool) → (if c then false else x) ≡ (not c && x)
if_false true x = refl
if_false false x = refl

-- On a set of numbers that is kept as a collection, with `lo` below `up`: inserting the numbers from
-- `lo` up to `up`, which is left out, makes the union with them, erasing them the difference, and
-- both keep it a collection.
pub insert-erase_numbers_refine :
    (lo up : ℕ) (d : Changepoints Bool)
    → lo < up
    → IsCollection flag d
    → (IsCollection flag (insert_numbers lo up d) × IsCollection flag (erase_numbers lo up d).0)
      × ((v : ℕ)
          → (has_number v (insert_numbers lo up d) ≡ (leb lo v && ltb v up) || has_number v d)
            × (has_number v (erase_numbers lo up d).0
                ≡ (not (leb lo v && ltb v up) && has_number v d)))
unfolding insert_numbers erase_numbers
insert-erase_numbers_refine lo up d low holds = (
  set_range-erase-IsCollection flag lo up d low holds true refl,
  λ v.
      let (inserted, erased) =
        set_range-erase_values flag lo up d low holds.ascending true refl v in
      (
        inserted ∙ if_true (leb lo v && ltb v up) (has_number v d),
        erased ∙ if_false (leb lo v && ltb v up) (has_number v d),
      ),
)

-- The intersection of two ranges has the numbers that are in both. Two ranges that are not empty
-- coincide if and only if their intersection is not empty.
pub contains-intersect :
    (a b : RangeType)
    → ((v : ℕ) → contains (intersect a b) v ≡ (contains a v && contains b v))
      × (a.lower < a.upper
          → b.lower < b.upper
          → coincides a b ≡ ltb (intersect a b).lower (intersect a b).upper)
unfolding contains intersect coincides
contains-intersect a b = ((λ v. ground arith), λ h k. ground arith)
