-- ===== src/Cache/Tests.antt =====
-- lib/datacache.hh on a small cache.
use cromfs.Base.{ℕ, ◌≡◌, [], ◌∷◌, some, if◌then◌else◌, ◌==◌, is_some}
use cromfs.Cache.{Cache, find_entry, find, has, put}
use cromfs.Cache.Lookup.{value_of, touched, find-has-put_refine}
use cromfs.Base.{refl, arith, ok, length, min}
use cromfs.Base.Int.{negsuc}
use cromfs.Cache.{Entry, check_ages}
use cromfs.Cache.Oldest.{IsOrdered, alive, check_ages_lem}
use cromfs.Base.{none, ◌≤◌}

abbrev two_entries : Cache ℕ
two_entries = record {
  entries =
      record { key = 3; stamp = 10; value = 30 } ∷ record { key = 5; stamp = 11; value = 50 } ∷ [];
  max_size = 4;
  max_age = 0;
}

find-has-put_refine_example :
    ((find 12 5 two_entries).1 ≡ value_of 5 two_entries.entries)
    × (find_entry 5 (find 12 5 two_entries).0.entries ≡ (
        if 5 == 5
        then touched 12 (find_entry 5 two_entries.entries)
        else find_entry 5 two_entries.entries))
    × (has 5 two_entries ≡ is_some (value_of 5 two_entries.entries))
    × (find_entry 5 (put 12 5 51 two_entries).entries ≡ (
        if 5 == 5
        then some (record { key = 5; stamp = 12; value = 51 })
        else find_entry 5 two_entries.entries))
find-has-put_refine_example = find-has-put_refine 12 5 5 51 two_entries

-- With room for 2 entries, CheckAges(-1) leaves one.
abbrev small : Cache ℕ
small = record two_entries { max_size = 2 }

check_ages_lem_example :
    (c' : Cache ℕ) × (check_ages 20 (negsuc 0) small ≡ ok c')
    × (length c'.entries ≡ min 1 (length (alive 20 0 small.entries)))
    × IsOrdered 0 c'.entries
    × ((key : ℕ) (f : Entry ℕ)
        → find_entry key c'.entries ≡ some f
        → find_entry key (alive 20 0 small.entries) ≡ some f)
    × ((key key' : ℕ) (e f : Entry ℕ)
        → find_entry key (alive 20 0 small.entries) ≡ some e
        → find_entry key c'.entries ≡ none
        → find_entry key' c'.entries ≡ some f
        → e.stamp ≤ f.stamp)
check_ages_lem_example =
    check_ages_lem 20 1 (negsuc 0) small (unfold IsOrdered in (omega arith, (omega arith, tt)))
      (omega arith) refl (omega arith)
