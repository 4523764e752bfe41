-- ===== src/Logger/Sanitizer/Replacing.antt =====
-- What the first match of a rule of internal/logger/sanitizer.go makes of a text, and the sizes of its parts.
use syncrules.Prelude.{
  ℕ, ◌+◌, ◌-◌, Text, nat_eq, none, some, List, [], ◌∷◌, ◌++◌, ◌≡◌, refl, arith, length,
  length-append,
}
use syncrules.Adapter.{concat}
use syncrules.Logger.Sanitizer.Patterns.{Piece, match, total, replace_from}
use syncrules.Logger.Sanitizer.Scan.{taking_all}

pub length-concat : (parts : List Text) → length (concat parts) ≡ total parts
length-concat [] = refl
length-concat (part ∷ parts) = omega (arith, length-append part (concat parts), length-concat parts)

pub taking_all-parts :
    (used : List Text) (w rest : Text)
    → taking_all used (some (w ∷ [], rest)) ≡ some (used ++ w ∷ [], rest)
taking_all-parts [] w rest = refl
taking_all-parts (part ∷ used) w rest = rw (taking_all-parts used w rest) refl

pub taking_all-none : (used : List Text) → taking_all used none ≡ none
taking_all-none [] = refl
taking_all-none (part ∷ used) = rw (taking_all-none used) refl

pub total-append : (used : List Text) (w : Text) → total (used ++ w ∷ []) ≡ total used + length w
total-append [] w = omega arith
total-append (part ∷ used) w = omega (arith, total-append used w)

-- What a rule does at the start of a text, by the match there.
module _ (pieces : List Piece) (new : List Text → Text) where
  pub replace-none :
      (c : ℕ) (s : Text)
      → match pieces (c ∷ s) ≡ none
      → replace_from pieces new 0 (c ∷ s) ≡ c ∷ replace_from pieces new 0 s
  unfolding replace_from
  replace-none c s e = rw (e, replace_from) refl

  pub replace-some :
      (c : ℕ) (s rest : Text) (parts : List Text)
      → match pieces (c ∷ s) ≡ some (parts, rest)
      → replace_from pieces new 0 (c ∷ s) ≡ new parts ++ replace_from pieces new (total parts - 1) s
  unfolding replace_from
  replace-some c s rest parts e = rw (e, replace_from) refl

  pub replace-skip :
      (x s : Text) → replace_from pieces new (length x) (x ++ s) ≡ replace_from pieces new 0 s
  unfolding replace_from
  replace-skip [] s = refl
  replace-skip (c ∷ x) s = replace-skip x s
