-- ===== src/Patterns.antt =====
-- lib/fnmatch.cc: the list of patterns of names, and which of them have matched. The library function
-- `fnmatch` is a parameter, strings are lists of bytes, and a file of patterns is its content.
pub mod Unmatched
pub mod Lines
mod Tests
use cromfs.Base.{ℕ, Bool, true, false, List, [], ◌∷◌, ◌++◌}
use cromfs.Base.{◌==◌, if◌then◌else◌}
use cromfs.Base.Bytes.{Bytes}

abbrev pub MatchingFileList : Type 0
MatchingFileList = List (Bytes × Bool)

-- The C function: pattern, name and flags.
abbrev pub Fnmatch : Type 0
Fnmatch = Bytes → Bytes → ℕ → ℕ

-- `leading_dir` are the flags: FNM_LEADING_DIR where it is defined, 0 elsewhere.
module _ (fnmatch : Fnmatch) (leading_dir : ℕ) where
  pub match_file : Bytes → Bytes → Bool
  match_file pathname pattern = fnmatch pattern pathname leading_dir == 0

  -- The loop of `MatchFileFrom`: what it returns, and the patterns that are left to it.
  pub mark_matches : Bytes → Bool → MatchingFileList → Bool × MatchingFileList
  mark_matches pathname retval [] = (retval, [])
  mark_matches pathname retval ((pattern, seen) ∷ rest) =
      let matched = match_file pathname pattern in
      let later = mark_matches pathname (if matched then true else retval) rest in
      (later.0, (pattern, if matched then true else seen) ∷ later.1)

  pub match_file_from : Bytes → MatchingFileList → Bool → Bool × MatchingFileList
  match_file_from pathname [] empty_means = (empty_means, [])
  match_file_from pathname (e ∷ rest) empty_means = mark_matches pathname false (e ∷ rest)

pub add_file_pattern : MatchingFileList → Bytes → MatchingFileList
add_file_pattern list pattern = list ++ ((pattern, false) ∷ [])

-- The calls of `getline` as long as the stream is good: the part up to each newline, and what is left.
pub lines_from : Bytes → Bytes → List Bytes
lines_from line [] = line ∷ []
lines_from line (c ∷ cs) =
    let next = lines_from [] cs in
    let longer = lines_from (line ++ (c ∷ [])) cs in if c == 0x0a then line ∷ next else longer

pub add_lines : MatchingFileList → List Bytes → MatchingFileList
add_lines list [] = list
add_lines list (line ∷ lines) = add_lines (add_file_pattern list line) lines

pub add_file_patterns_from : MatchingFileList → Bytes → MatchingFileList
add_file_patterns_from list content = add_lines list (lines_from [] content)

pub get_unmatched_list : MatchingFileList → List Bytes
get_unmatched_list [] = []
get_unmatched_list ((pattern, seen) ∷ rest) =
    let later = get_unmatched_list rest in if seen then later else pattern ∷ later
