-- ===== src/Logger/Sanitizer/Patterns.antt =====
-- What internal/logger/sanitizer.go uses of Go's `regexp`, on texts of bytes. A pattern is a list of pieces,
-- and a match begins at a byte, since no pattern here begins within a character.
use syncrules.Prelude.{
  ℕ, zero, suc, ◌+◌, ◌-◌, Text, nat_eq, Bool, true, false, Option, none, some, List, [], ◌∷◌, ◌++◌,
  ◌==◌, ◌&&◌, if◌then◌else◌, length,
}

-- `one_of`: one of the texts, of which no two begin alike. `run`: bytes of a class, as many as can be, with
-- the least and the greatest number.
pub data Piece : Type 0 where
  one_of : List Text → Piece
  run : (ℕ → Bool) → ℕ → Option ℕ → Piece

-- What each piece took, and the text after it.
abbrev pub Match : Type 0
Match = List Text × Text

abbrev pub taking : Text → Option Match → Option Match
taking used none = none
taking used (some (parts, rest)) = some (used ∷ parts, rest)

abbrev pub lengthened : ℕ → Match → Match
lengthened c ([], rest) = ((c ∷ []) ∷ [], rest)
lengthened c (part ∷ parts, rest) = ((c ∷ part) ∷ parts, rest)

-- `strings.CutPrefix`
unfoldable pub cut_prefix : Text → Text → Option Text
cut_prefix [] s = some s
cut_prefix (d ∷ p) [] = none
cut_prefix (d ∷ p) (c ∷ s) = let rest = cut_prefix p s in if c == d then rest else none

unfoldable pub cut_any : List Text → Text → Option (Text × Text)
unfolding cut_prefix
cut_any [] s = none
cut_any (p ∷ ps) s = elim (cut_prefix p s) [ some rest ↦ some (p, rest) | none ↦ cut_any ps s ]

abbrev may_grow : Option ℕ → Bool
may_grow (some zero) = false
may_grow (some (suc n)) = true
may_grow none = true

abbrev fewer : Option ℕ → Option ℕ
fewer none = none
fewer (some n) = some (n - 1)

abbrev stop_run : ℕ → Option Match → Option Match
stop_run zero m = taking [] m
stop_run (suc n) m = none

-- The longest run after which the pieces `next` match.
unfoldable pub match_run : (Text → Option Match) → (ℕ → Bool) → ℕ → Option ℕ → Text → Option Match
match_run next class least most [] = stop_run least (next [])
match_run next class least most (c ∷ s) =
    let longer = match_run next class (least - 1) (fewer most) s in
    elim (if class c && may_grow most then longer else none) [
      | some m ↦ some (lengthened c m)
      | none ↦ stop_run least (next (c ∷ s))
    ]

-- The match that begins the text, with the preferences of Perl.
unfoldable pub match : List Piece → Text → Option Match
unfolding cut_any match_run
match [] s = some ([], s)
match (one_of texts ∷ pieces) s = elim (cut_any texts s) [
  | none ↦ none
  | some (used, rest) ↦ taking used (match pieces rest)
]
match (run class least most ∷ pieces) s = match_run (match pieces) class least most s

abbrev pub total : List Text → ℕ
total [] = 0
total (part ∷ parts) = length part + total parts

-- `ReplaceAllString` of a pattern that does not match the empty text; the number says how many bytes
-- of the last match are still ahead.
unfoldable pub replace_from : List Piece → (List Text → Text) → ℕ → Text → Text
unfolding match
replace_from pieces new n [] = []
replace_from pieces new (suc n) (c ∷ s) = replace_from pieces new n s
replace_from pieces new zero (c ∷ s) = elim (match pieces (c ∷ s)) [
  | none ↦ c ∷ replace_from pieces new 0 s
  | some (parts, _) ↦ new parts ++ replace_from pieces new (total parts - 1) s
]

unfoldable pub replace_all_string : List Piece → (List Text → Text) → Text → Text
unfolding replace_from
replace_all_string pieces new s = replace_from pieces new 0 s
