-- ===== src/Prelude/Bytes.antt =====
-- Go strings are lists of bytes.
use Prim.Native.Nat.{ℕ}
use Prim.Native.Char.{code}
use Prim.Native.String.{String}
use mathlib.Core.Path.{◌≡◌, refl}
use mathlib.Core.Logic.{◌≢◌, ◌↔◌}
use mathlib.Core.Bool.{Bool, true, false}
use mathlib.Core.List.{List, [], ◌∷◌}
use native.Mathlib.Omega.{arith}
use syncrules.Prelude.Tests.{Eq, ◌==◌, nat_eq, if◌then◌else◌}

abbrev pub Text : Type 0
Text = List ℕ

-- The bytes of an ASCII literal.
abbrev pub codes : String → Text
codes String.[] = []
codes (String.◌∷◌ c s) = code c ∷ codes s

unfoldable pub text_beq : Text → Text → Bool
text_beq [] [] = true
text_beq [] (d ∷ t) = false
text_beq (c ∷ s) [] = false
text_beq (c ∷ s) (d ∷ t) = if c == d then text_beq s t else false

-- `ground` is given this at each pair of texts that is compared.
pub text_iff : (s t : Text) → (text_beq s t ≡ true) ↔ (s ≡ t)
unfolding text_beq
text_iff [] [] = ground arith
text_iff [] (d ∷ t) = ground arith
text_iff (c ∷ s) [] = ground arith
text_iff (c ∷ s) (d ∷ t) = ground (arith, text_iff s t)

instance abbrev pub text_eq : Eq Text
text_eq = record { same = text_beq; same_iff = text_iff }

pub text_beq_refl : (s : Text) → text_beq s s ≡ true
text_beq_refl s = (text_iff s s).1 refl

-- The comparisons that two texts can meet in a test, with each other and with the empty text.
pub text_facts :
    (s t : Text)
    → ((text_beq s t ≡ true) ↔ (s ≡ t))
      × ((text_beq t s ≡ true) ↔ (t ≡ s))
      × ((text_beq s [] ≡ true) ↔ (s ≡ []))
      × ((text_beq t [] ≡ true) ↔ (t ≡ []))
text_facts s t = (text_iff s t, text_iff t s, text_iff s [], text_iff t [])

pub text_ne : (s t : Text) → text_beq s t ≡ false → s ≢ t
text_ne s t h e = ground (arith, text_iff s t)
