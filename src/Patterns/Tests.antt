-- ===== src/Patterns/Tests.antt =====
-- Patterns on small lists.
use cromfs.Base.{◌≡◌, true, false, List, [], ◌∷◌, ◌++◌, All}
use cromfs.Base.Bytes.{Bytes}
use cromfs.Patterns.{
  MatchingFileList, Fnmatch, match_file_from, get_unmatched_list, add_file_patterns_from,
}
use cromfs.Patterns.Unmatched.{
  match_names, unmatched_by, matched_by, get_unmatched_list-match_names, match_file_from_result,
}
use cromfs.Patterns.Lines.{join_lines, IsLine, unseen, add_file_patterns_from_lem}

-- Every name matches the empty pattern, and no name another one.
abbrev only_empty : Fnmatch
only_empty [] name flags = 0
only_empty (c ∷ cs) name flags = 1

abbrev two_patterns : MatchingFileList
two_patterns = ([], false) ∷ ((0x61 ∷ [], false) ∷ [])

abbrev names : List Bytes
names = (0x62 ∷ []) ∷ []

get_unmatched_list-match_names_example :
    get_unmatched_list (match_names only_empty 8 names two_patterns)
    ≡ unmatched_by only_empty 8 names two_patterns
get_unmatched_list-match_names_example =
    get_unmatched_list-match_names only_empty 8 names two_patterns

match_file_from_result_example :
    (match_file_from only_empty 8 [] two_patterns true).0 ≡ matched_by only_empty 8 [] two_patterns
match_file_from_result_example = match_file_from_result only_empty 8 [] two_patterns true

abbrev content : Bytes
content = 0x61 ∷ (0x0a ∷ (0x62 ∷ (0x0a ∷ [])))

add_file_patterns_from_lem_example :
    (lines : List Bytes) × (add_file_patterns_from two_patterns content
      ≡ two_patterns ++ unseen lines)
    × (join_lines lines ≡ content)
    × All IsLine lines
add_file_patterns_from_lem_example = add_file_patterns_from_lem two_patterns content
