-- ===== src/Logger/Sanitizer/Folding.antt =====
-- `(?i)` in internal/logger/sanitizer.go: a key is found in letters of any case.
use syncrules.Prelude.{
  ℕ, ◌+◌, ◌≤◌, Text, nat_eq, some, List, [], ◌∷◌, ◌++◌, ◌≡◌, ◌⊎◌, refl, ap, ◌∙◌, arith, to_lower,
  lower,
}
use syncrules.Logger.Sanitizer.Patterns.{Piece, one_of, taking, cut_prefix, cut_any, match}
use syncrules.Logger.Sanitizer.Rules.{is_solid, folded, folds}
use syncrules.Logger.Sanitizer.Scan.{all_solid, taking_all}

-- A letter and its capital.
lower_inv : (d e : ℕ) → lower d ≡ e → (d ≡ e) ⊎ ((d + 32 ≡ e) × (97 ≤ e) × (e ≤ 122))
lower_inv d e h = ground arith

cut-folded :
    (d e : ℕ) (t : Text)
    → (d ≡ e) ⊎ ((d + 32 ≡ e) × (97 ≤ e) × (e ≤ 122))
    → cut_any (folded e) (d ∷ t) ≡ some (d ∷ [], t)
unfolding cut_any cut_prefix
cut-folded d e t h = ground arith

abbrev pub singles : Text → List Text
singles [] = []
singles (c ∷ s) = (c ∷ []) ∷ singles s

match-one_of :
    (texts : List Text) (pieces : List Piece) (s used rest : Text)
    → cut_any texts s ≡ some (used, rest)
    → match (one_of texts ∷ pieces) s ≡ taking used (match pieces rest)
unfolding match
match-one_of texts pieces s used rest e = rw (e, match) refl

pub match-folds :
    (w k : Text) (pieces : List Piece) (t : Text)
    → to_lower w ≡ to_lower k
    → match (folds k ++ pieces) (w ++ t) ≡ taking_all (singles w) (match pieces t)
unfolding match to_lower
match-folds [] [] pieces t h = refl
match-folds [] (c ∷ k) pieces t h = absurd (ground arith)
match-folds (d ∷ w) [] pieces t h = absurd (ground arith)
match-folds (d ∷ w) (c ∷ k) pieces t h =
    match-one_of (folded (lower c)) (folds k ++ pieces) (d ∷ w ++ t) (d ∷ []) (w ++ t)
      (cut-folded d (lower c) (w ++ t) (lower_inv d (lower c) (head h)))
    ∙ ap (taking (d ∷ [])) (match-folds w k pieces t (ap rest h))
  where
    rest : Text → Text
    rest [] = []
    rest (c ∷ s) = s

    head : lower d ∷ to_lower w ≡ lower c ∷ to_lower k → lower d ≡ lower c
    head h = ground arith

pub all_solid-to_lower : (w : Text) → all_solid (to_lower w) ≡ all_solid w
unfolding to_lower
all_solid-to_lower [] = refl
all_solid-to_lower (c ∷ w) = rw (all_solid-to_lower w, solid c) refl
  where
    solid : (c : ℕ) → is_solid (lower c) ≡ is_solid c
    solid c = ground arith
