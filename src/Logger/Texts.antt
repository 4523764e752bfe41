-- ===== src/Logger/Texts.antt =====
-- Levels and formats of internal/logger/types.go, printed and read.
use syncrules.Prelude.{
  ℕ, ◌<◌, Text, text_eq, text_beq, nat_eq, [], ◌∷◌, ◌≡◌, refl, ap, ◌∙◌, arith, ◌⊎◌, inl, inr,
  to_lower, lower,
}
use syncrules.Logger.{level_string, parse_level, level_of}

lower-lower : (c : ℕ) → lower (lower c) ≡ lower c
lower-lower c = ground arith

to_lower-to_lower : (s : Text) → to_lower (to_lower s) ≡ to_lower s
unfolding to_lower
to_lower-to_lower [] = refl
to_lower-to_lower (c ∷ s) = rw (lower-lower c, to_lower-to_lower s) refl

four : (l : ℕ) → l < 4 → ((l ≡ 0) ⊎ (l ≡ 1)) ⊎ ((l ≡ 2) ⊎ (l ≡ 3))
four l h = omega arith

read_back :
    (parse_level (level_string 0) ≡ 0)
    × (parse_level (level_string 1) ≡ 1)
    × (parse_level (level_string 2) ≡ 2)
    × (parse_level (level_string 3) ≡ 3)
unfolding parse_level level_string to_lower text_beq
read_back = (refl, refl, refl, refl)

-- Each level is read back from its text, in letters of any case.
pub parse_level-level_string :
    (l : ℕ) (s : Text) → l < 4 → to_lower s ≡ to_lower (level_string l) → parse_level s ≡ l
unfolding parse_level
parse_level-level_string l s h e = ap level_of e ∙ read (four l h)
  where
    read : ((l ≡ 0) ⊎ (l ≡ 1)) ⊎ ((l ≡ 2) ⊎ (l ≡ 3)) → parse_level (level_string l) ≡ l
    read (inl (inl e)) = rw e read_back.0
    read (inl (inr e)) = rw e read_back.1
    read (inr (inl e)) = rw e read_back.2
    read (inr (inr e)) = rw e read_back.3
