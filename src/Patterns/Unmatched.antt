-- ===== src/Patterns/Unmatched.antt =====
-- lib/fnmatch.cc: what the marks of the patterns tell in the end.
use cromfs.Base.{
  ℕ, ◌≡◌, refl, ap, ◌∙◌, Bool, true, false, ◌||◌, Bool-cases, List, [], ◌∷◌, inl, inr,
}
use cromfs.Base.{if◌then◌else◌}
use cromfs.Base.Bytes.{Bytes}
use cromfs.Patterns.{
  MatchingFileList, Fnmatch, match_file, mark_matches, match_file_from, get_unmatched_list,
}

module _ (fnmatch : Fnmatch) (leading_dir : ℕ) where
  -- Whether a pattern matches one of the names.
  abbrev pub matches_one : Bytes → List Bytes → Bool
  matches_one pattern [] = false
  matches_one pattern (name ∷ names) =
      match_file fnmatch leading_dir name pattern || matches_one pattern names

  -- Whether one of the patterns matches a name.
  abbrev pub matched_by : Bytes → MatchingFileList → Bool
  matched_by name [] = false
  matched_by name (e ∷ rest) = match_file fnmatch leading_dir name e.0 || matched_by name rest

  -- The patterns that have not matched and match none of the names, in their order.
  abbrev pub unmatched_by : List Bytes → MatchingFileList → List Bytes
  unmatched_by names [] = []
  unmatched_by names (e ∷ rest) =
      let later = unmatched_by names rest in
      if e.1 || matches_one e.0 names then later else e.0 ∷ later

  -- The list when names have been looked up one after the other.
  abbrev pub match_names : List Bytes → MatchingFileList → MatchingFileList
  match_names [] list = list
  match_names (name ∷ names) list =
      match_names names (match_file_from fnmatch leading_dir name list true).1

  get_unmatched_list_lem :
      (list : MatchingFileList) → get_unmatched_list list ≡ unmatched_by [] list
  unfolding get_unmatched_list
  get_unmatched_list_lem [] = refl
  get_unmatched_list_lem ((pattern, true) ∷ rest) = get_unmatched_list_lem rest
  get_unmatched_list_lem ((pattern, false) ∷ rest) =
      ap (λ l. pattern ∷ l) (get_unmatched_list_lem rest)

  mark_matches_lem :
      (name : Bytes) (names : List Bytes) (retval : Bool) (list : MatchingFileList)
      → unmatched_by names (mark_matches fnmatch leading_dir name retval list).1
        ≡ unmatched_by (name ∷ names) list
  unfolding mark_matches
  mark_matches_lem name names retval [] = refl
  mark_matches_lem name names retval ((pattern, seen) ∷ rest) =
      elim (Bool-cases (match_file fnmatch leading_dir name pattern)) [
        | inl e ↦ elim (Bool-cases seen) [
          | inl s ↦ rw (e, s) (mark_matches_lem name names true rest)
          | inr s ↦ rw (e, s) (mark_matches_lem name names true rest)
        ]
        | inr e ↦ elim (Bool-cases (seen || matches_one pattern names)) [
          | inl s ↦ rw (e, s) (mark_matches_lem name names retval rest)
          | inr s ↦ rw (e, s) (ap (λ l. pattern ∷ l) (mark_matches_lem name names retval rest))
        ]
      ]

  match_file_from_lem :
      (name : Bytes) (names : List Bytes) (list : MatchingFileList)
      → unmatched_by names (match_file_from fnmatch leading_dir name list true).1
        ≡ unmatched_by (name ∷ names) list
  unfolding match_file_from
  match_file_from_lem name names [] = refl
  match_file_from_lem name names (e ∷ rest) = mark_matches_lem name names false (e ∷ rest)

  mark_matches_result :
      (name : Bytes) (retval : Bool) (list : MatchingFileList)
      → (mark_matches fnmatch leading_dir name retval list).0 ≡ (retval || matched_by name list)
  unfolding mark_matches
  mark_matches_result name retval [] = elim (Bool-cases retval) [ inl r ↦ rw r | inr r ↦ rw r ]
  mark_matches_result name retval ((pattern, seen) ∷ rest) =
      elim (Bool-cases (match_file fnmatch leading_dir name pattern)) [
        | inl e ↦ rw e (
            mark_matches_result name true rest
            ∙ elim (Bool-cases retval) [ inl r ↦ rw r | inr r ↦ rw r ])
        | inr e ↦ rw e (mark_matches_result name retval rest)
      ]

  -- After names have been looked up one after the other, the patterns that are reported as unmatched
  -- are those that had not matched before and match none of the names, in their order.
  pub get_unmatched_list-match_names :
      (names : List Bytes) (list : MatchingFileList)
      → get_unmatched_list (match_names names list) ≡ unmatched_by names list
  get_unmatched_list-match_names [] list = get_unmatched_list_lem list
  get_unmatched_list-match_names (name ∷ names) list =
      get_unmatched_list-match_names names (match_file_from fnmatch leading_dir name list true).1
      ∙ match_file_from_lem name names list

  -- A name is found if one of the patterns matches it; without patterns the answer is `empty_means`.
  pub match_file_from_result :
      (name : Bytes) (list : MatchingFileList) (empty_means : Bool)
      → (match_file_from fnmatch leading_dir name list empty_means).0
        ≡ (elim list [ [] ↦ empty_means | e ∷ rest ↦ matched_by name (e ∷ rest) ])
  unfolding match_file_from
  match_file_from_result name [] empty_means = refl
  match_file_from_result name (e ∷ rest) empty_means = mark_matches_result name false (e ∷ rest)
