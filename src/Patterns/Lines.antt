-- ===== src/Patterns/Lines.antt =====
-- lib/fnmatch.cc, `AddFilePatternsFrom`: the patterns are the lines of the file.
use mathlib.Core.List.{append-nil, append_assoc}
use cromfs.Base.{
  ℕ, ◌≡◌, ◌≢◌, refl, sym, ap, ◌∙◌, false, Bool-cases, List, [], ◌∷◌, ◌++◌, inl, inr, map, All,
  arith,
}
use cromfs.Base.{◌==◌}
use cromfs.Base.Bytes.{Bytes}
use cromfs.Patterns.{
  MatchingFileList, add_file_pattern, lines_from, add_lines, add_file_patterns_from,
}

-- Lines with a newline between each two.
abbrev pub join_lines : List Bytes → Bytes
join_lines [] = []
join_lines (line ∷ []) = line
join_lines (line ∷ (next ∷ lines)) = line ++ (0x0a ∷ join_lines (next ∷ lines))

abbrev pub IsLine : Bytes → Type 0
IsLine line = All (λ (c : ℕ). c ≢ 0x0a) line

IsLine-longer : (line : Bytes) (c : ℕ) → IsLine line → c ≢ 0x0a → IsLine (line ++ (c ∷ []))
IsLine-longer [] c h ne = (ne, tt)
IsLine-longer (x ∷ xs) c (first, rest) ne = (first, IsLine-longer xs c rest ne)

lines_from_some :
    (line cs : Bytes) → (first : Bytes) × (rest : List Bytes) × (lines_from line cs ≡ first ∷ rest)
unfolding lines_from
lines_from_some line [] = (line, [], refl)
lines_from_some line (c ∷ cs) = elim (Bool-cases (c == 0x0a)) [
  | inl e ↦ (line, lines_from [] cs, rw e)
  | inr e ↦ let (first, rest, eq) = lines_from_some (line ++ (c ∷ [])) cs in (first, rest, rw e eq)
]

join_lines-lines_from : (line cs : Bytes) → join_lines (lines_from line cs) ≡ line ++ cs
unfolding lines_from
join_lines-lines_from line [] = sym (append-nil line)
join_lines-lines_from line (c ∷ cs) = elim (Bool-cases (c == 0x0a)) [
  | inl e ↦
      let at : c ≡ 0x0a = ground arith in
      let (first, rest, eq) = lines_from_some [] cs in
      let whole : join_lines (first ∷ rest) ≡ cs =
        ap join_lines (sym eq) ∙ join_lines-lines_from [] cs in
      rw (e, eq, whole, at)
  | inr e ↦ rw e (join_lines-lines_from (line ++ (c ∷ [])) cs ∙ append_assoc line (c ∷ []) cs)
]

lines_from-IsLine : (line cs : Bytes) → IsLine line → All IsLine (lines_from line cs)
unfolding lines_from
lines_from-IsLine line [] h = (h, tt)
lines_from-IsLine line (c ∷ cs) h = elim (Bool-cases (c == 0x0a)) [
  | inl e ↦ rw e (h, lines_from-IsLine [] cs tt)
  | inr e ↦
      let ne : c ≢ 0x0a = ground arith in
      rw e (lines_from-IsLine (line ++ (c ∷ [])) cs (IsLine-longer line c h ne))
]

abbrev pub unseen : List Bytes → MatchingFileList
unseen lines = map (λ line. (line, false)) lines

add_lines_lem :
    (list : MatchingFileList) (lines : List Bytes) → add_lines list lines ≡ list ++ unseen lines
unfolding add_lines add_file_pattern
add_lines_lem list [] = sym (append-nil list)
add_lines_lem list (line ∷ lines) =
    add_lines_lem (list ++ ((line, false) ∷ [])) lines
    ∙ append_assoc list ((line, false) ∷ []) (unseen lines)

-- The patterns that a file adds, behind those that are there and not yet matched, are its parts
-- between newlines, the last one included, which is empty when the file ends with a newline.
pub add_file_patterns_from_lem :
    (list : MatchingFileList) (content : Bytes)
    → (lines : List Bytes) × (add_file_patterns_from list content ≡ list ++ unseen lines)
      × (join_lines lines ≡ content)
      × All IsLine lines
unfolding add_file_patterns_from
add_file_patterns_from_lem list content = (
  lines_from [] content,
  add_lines_lem list (lines_from [] content),
  join_lines-lines_from [] content,
  lines_from-IsLine [] content tt,
)
