-- ===== src/Logger/Sanitizer/Scan.antt =====
-- What `key=\S+` matches, in internal/logger/sanitizer.go: it looks at what stands behind the first `=`
-- only to see where it ends.
use mathlib.Core.List.{append_assoc}
use syncrules.Prelude.{
  ℕ, Text, nat_eq, codes, Bool, true, false, not, Option, none, some, List, [], ◌∷◌, ◌++◌, ◌==◌,
  ◌&&◌, ◌≡◌, ◌⊎◌, inl, inr, refl, ap, arith, Bool-cases,
}
use syncrules.Adapter.{concat}
use syncrules.Logger.Sanitizer.Patterns.{
  Piece, one_of, run, Match, taking, cut_prefix, cut_any, match_run, match,
}
use syncrules.Logger.Sanitizer.Rules.{is_blank, is_solid, assigned}

abbrev pub equals : ℕ
equals = 61

abbrev pub lacks : Text → Bool
lacks [] = true
lacks (c ∷ s) = not (c == equals) && lacks s

abbrev pub lack : List Text → Bool
lack [] = true
lack (p ∷ ps) = lacks p && lack ps

abbrev pub all_solid : Text → Bool
all_solid [] = true
all_solid (c ∷ s) = is_solid c && all_solid s

abbrev pub solid_run : List Piece
solid_run = run is_solid 1 none ∷ []

abbrev pub taking_all : List Text → Option Match → Option Match
taking_all [] m = m
taking_all (used ∷ parts) m = taking used (taking_all parts m)

append_equals : (y t : Text) → (y ++ equals ∷ []) ++ t ≡ y ++ equals ∷ t
append_equals [] t = refl
append_equals (c ∷ y) t = ap (λ x. c ∷ x) (append_equals y t)

append-regroup :
    (p r x y z : Text) → r ++ x ≡ z ++ equals ∷ [] → y ≡ p ++ z → (p ++ r) ++ x ≡ y ++ equals ∷ []
append-regroup p r x y z h split =
    rw (split, append_assoc p r x, append_assoc p z (equals ∷ []), h) refl

cut_prefix-equals :
    (p y : Text)
    → lacks p ≡ true
    → ((t : Text) → cut_prefix p (y ++ equals ∷ t) ≡ none)
      ⊎ ((z : Text) × (y ≡ p ++ z)
          × ((t : Text) → cut_prefix p (y ++ equals ∷ t) ≡ some (z ++ equals ∷ t)))
unfolding cut_prefix
cut_prefix-equals [] y h = inr (y, refl, λ t. refl)
cut_prefix-equals (d ∷ p) [] h = inl (λ t. ground arith)
cut_prefix-equals (d ∷ p) (c ∷ y) h = elim (Bool-cases (c == d)) [
  | inr e ↦ inl (λ t. ground arith)
  | inl e ↦ elim (cut_prefix-equals p y (ground arith)) [
    | inl misses ↦ inl (λ t. ground (arith, misses t))
    | inr (z, split, cut) ↦ inr (z, ground arith, λ t. ground (arith, cut t))
  ]
]

cut_any-equals :
    (ps : List Text) (y : Text)
    → lack ps ≡ true
    → ((t : Text) → cut_any ps (y ++ equals ∷ t) ≡ none)
      ⊎ ((p z : Text) × (y ≡ p ++ z)
          × ((t : Text) → cut_any ps (y ++ equals ∷ t) ≡ some (p, z ++ equals ∷ t)))
unfolding cut_any
cut_any-equals [] y h = inl (λ t. refl)
cut_any-equals (p ∷ ps) y h = elim (cut_prefix-equals p y (ground arith)) [
  | inr (z, split, cut) ↦ inr (p, z, split, λ t. rw (cut t, cut_any) refl)
  | inl fails ↦ elim (cut_any-equals ps y (ground arith)) [
    | inl misses ↦ inl (λ t. rw (fails t, misses t, cut_any) refl)
    | inr (q, z, split, cut) ↦ inr (q, z, split, λ t. rw (fails t, cut t, cut_any) refl)
  ]
]

-- The pieces are literal, and none of their texts has `=`.
abbrev pub literal : List Piece → Bool
literal [] = true
literal (one_of texts ∷ pieces) = lack texts && literal pieces
literal (run _ _ _ ∷ pieces) = false

-- The matches of a text `y`, `=` and a text `t`, for every `t`: the key matches and takes the parts
-- `used`, after which `z` is left of what was before `t`, or it never does.
abbrev pub KeyMatch : List Piece → Text → Type 0
KeyMatch key y =
    ((t : Text) → match (assigned key) (y ++ equals ∷ t) ≡ none)
    ⊎ ((used : List Text) × (z : Text) × (concat used ++ z ≡ y ++ equals ∷ [])
        × ((t : Text)
            → match (assigned key) (y ++ equals ∷ t) ≡ taking_all used (match solid_run (z ++ t))))

match-equals : (y : Text) → KeyMatch [] y
unfolding match cut_any cut_prefix
match-equals [] = inr (codes "=" ∷ [], [], refl, λ t. refl)
match-equals (c ∷ y) = elim (Bool-cases (c == equals)) [
  | inr e ↦ inl (λ t. ground arith)
  | inl e ↦ inr (
    codes "=" ∷ [],
    y ++ equals ∷ [],
    ground arith,
    λ t. rw (e, append_equals y t, match, cut_any, cut_prefix) refl,
  )
]

pub match-key : (key : List Piece) (y : Text) → literal key ≡ true → KeyMatch key y
unfolding match
match-key [] y h = match-equals y
match-key (one_of texts ∷ key) y h = elim (cut_any-equals texts y (ground arith)) [
  | inl misses ↦ inl (λ t. rw (misses t, match) refl)
  | inr (p, z, split, cut) ↦ elim (match-key key z (ground arith)) [
    | inl misses ↦ inl (λ t. rw (cut t, misses t, match) refl)
    | inr (used, x, whole, found) ↦ inr (
      p ∷ used,
      x,
      append-regroup p (concat used) x y z whole split,
      λ t. rw (cut t, found t, match) refl,
    )
  ]
]
match-key (run _ _ _ ∷ key) y h = absurd (ground arith)

-- The run of a value.
pub solid-or-blank :
    (z : Text)
    → (all_solid z ≡ true)
      ⊎ ((w : Text) × (b : ℕ) × (s : Text) × (z ≡ w ++ b ∷ s)
          × (all_solid w ≡ true)
          × (is_blank b ≡ true))
solid-or-blank [] = inl refl
solid-or-blank (c ∷ z) = elim (Bool-cases (is_blank c)) [
  | inl e ↦ inr ([], c, z, refl, refl, e)
  | inr e ↦ elim (solid-or-blank z) [
    | inl h ↦ inl (ground arith)
    | inr (w, b, s, split, h, k) ↦ inr (c ∷ w, b, s, ap (λ x. c ∷ x) split, ground arith, k)
  ]
]

-- A text that ends a run: it is empty, or its first byte is blank.
abbrev pub starts_blank : Text → Bool
starts_blank [] = true
starts_blank (b ∷ s) = is_blank b

-- A run that may be empty.
match_run-solid :
    (w s : Text)
    → all_solid w ≡ true
    → starts_blank s ≡ true
    → match_run (match []) is_solid 0 none (w ++ s) ≡ some (w ∷ [], s)
unfolding match match_run
match_run-solid [] [] h k = refl
match_run-solid [] (b ∷ s) h k = ground arith
match_run-solid (c ∷ w) s h k = ground (arith, match_run-solid w s (ground arith) k)

pub match-solid_run :
    (c : ℕ) (w s : Text)
    → all_solid (c ∷ w) ≡ true
    → starts_blank s ≡ true
    → match solid_run (c ∷ w ++ s) ≡ some ((c ∷ w) ∷ [], s)
unfolding match match_run
match-solid_run c w s h k = ground (arith, match_run-solid w s (ground arith) k)

pub match-blank : (s : Text) → starts_blank s ≡ true → match solid_run s ≡ none
unfolding match match_run
match-blank [] h = refl
match-blank (b ∷ s) h = ground arith
