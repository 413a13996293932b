-- ===== src/Config/Line.antt =====
-- src/utils/config.cpp: `trim` and `parse_line`, and the lines of a file.
use ws_audiod.Base.{
  ℕ, Bool, true, false, ◌&&◌, ◌||◌, Option, none, some, List, [], ◌∷◌, Text, ◌==◌, if◌then◌else◌,
}

-- " \t\r\n"
unfoldable pub is_blank : ℕ → Bool
is_blank c = c == 32 || (c == 9 || (c == 13 || c == 10))

unfoldable pub is_empty : Text → Bool
is_empty [] = true
is_empty (c ∷ s) = false

-- From the first character that is not blank on, and up to the last one.
unfoldable pub trim_start : Text → Text
trim_start [] = []
trim_start (c ∷ s) = if is_blank c then trim_start s else c ∷ s

unfoldable pub trim_end : Text → Text
trim_end [] = []
trim_end (c ∷ s) = let rest = trim_end s in if is_blank c && is_empty rest then [] else c ∷ rest

unfoldable pub trim : Text → Text
trim s = trim_end (trim_start s)

-- What stands before and behind the first '='.
unfoldable pub split_eq : Text → Option (Text × Text)
split_eq [] = none
split_eq (c ∷ s) =
    if c == 61
    then some ([], s)
    else (elim (split_eq s) [ none ↦ none | some (before, behind) ↦ some (c ∷ before, behind) ])

unfoldable pub parse_line : Text → Text × Text
parse_line line = elim (split_eq line) [
  | none ↦ ([], [])
  | some (before, behind) ↦ (trim before, trim behind)
]

-- The lines that `std::getline` gives, where the last one need not end in '\n'.
unfoldable pub put_first : ℕ → List Text → List Text
put_first c [] = (c ∷ []) ∷ []
put_first c (l ∷ ls) = (c ∷ l) ∷ ls

unfoldable pub lines : Text → List Text
lines [] = []
lines (c ∷ s) = let rest = lines s in if c == 10 then [] ∷ rest else put_first c rest
