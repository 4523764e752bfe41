-- ===== src/Prelude/Strings.antt =====
-- The functions of Go's `strings` that the program calls, on lists of bytes.
use Prim.Native.Nat.{ℕ, ◌+◌}
use mathlib.Core.Path.{◌≡◌, refl}
use mathlib.Core.Bool.{Bool, true, false, ◌&&◌, ◌||◌}
use mathlib.Core.List.{[], ◌∷◌, ◌++◌}
use native.Mathlib.Omega.{arith}
use syncrules.Prelude.Tests.{◌==◌, nat_eq, if◌then◌else◌, leb}
use syncrules.Prelude.Bytes.{Text}

-- `strings.HasPrefix(s, prefix)`
unfoldable pub has_prefix : Text → Text → Bool
has_prefix s [] = true
has_prefix [] (d ∷ p) = false
has_prefix (c ∷ s) (d ∷ p) = c == d && has_prefix s p

-- `strings.Contains(s, part)`
unfoldable pub contains : Text → Text → Bool
contains [] part = has_prefix [] part
contains (c ∷ s) part = has_prefix (c ∷ s) part || contains s part

-- `strings.ToLower` of a text in ASCII.
abbrev pub lower : ℕ → ℕ
lower c = if leb b'A' c && leb c b'Z' then c + 32 else c

unfoldable pub to_lower : Text → Text
to_lower [] = []
to_lower (c ∷ s) = lower c ∷ to_lower s

-- `strings.TrimSpace`, for the ASCII spaces.
abbrev is_space : ℕ → Bool
is_space c = c == 32 || (leb 9 c && leb c 13)

unfoldable pub trim_left : Text → Text
trim_left [] = []
trim_left (c ∷ s) = let rest = trim_left s in if is_space c then rest else c ∷ s

unfoldable pub trim_right : Text → Text
trim_right [] = []
trim_right (c ∷ s) = keep_unless_blank c (trim_right s)
  where
    keep_unless_blank : ℕ → Text → Text
    keep_unless_blank c [] = if is_space c then [] else c ∷ []
    keep_unless_blank c (d ∷ t) = c ∷ d ∷ t

unfoldable pub trim_space : Text → Text
unfolding trim_left trim_right
trim_space s = trim_left (trim_right s)

pub has_prefix-append : (s p : Text) → has_prefix (p ++ s) p ≡ true
unfolding has_prefix
has_prefix-append s [] = refl
has_prefix-append s (d ∷ p) = ground (arith, has_prefix-append s p)
