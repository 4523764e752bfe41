-- ===== src/Logger/Sanitizer/Password.antt =====
-- internal/logger/sanitizer.go: what a log shows of a password.
use mathlib.Core.List.{append-nil}
use syncrules.Prelude.{
  ℕ, zero, suc, ◌-◌, ◌≤◌, ◌<◌, Text, nat_eq, codes, true, Option, List, [], ◌∷◌, ◌++◌, ◌≡◌, inl,
  inr, refl, sym, ap, ◌∙◌, arith, length, to_lower,
}
use syncrules.Adapter.{concat}
use syncrules.Logger.Sanitizer.{sanitize}
use syncrules.Logger.Sanitizer.Patterns.{
  Piece, one_of, Match, taking, cut_prefix, cut_any, match, total, replace_from, replace_all_string,
}
use syncrules.Logger.Sanitizer.Rules.{
  folds, assigned, fixed, password_rule, other_rules, default_rules,
}
use syncrules.Logger.Sanitizer.Scan.{
  equals, all_solid, solid_run, taking_all, literal, starts_blank,
}
use syncrules.Logger.Sanitizer.Folding.{singles, match-folds, all_solid-to_lower}
use syncrules.Logger.Sanitizer.Replacing.{replace-none, replace-some}
use syncrules.Logger.Sanitizer.Assigned.{masked, through, Outcome, outcome}

-- The value after a key and `=`, and what follows it.
abbrev pub IsValue : Text → Type 0
IsValue v = (all_solid v ≡ true) × (0 < length v)

module _ (key : List Piece) (text : Text) (c : ℕ) (word : Text) (used : List Text)
    (lit : literal key ≡ true) (solid : all_solid (c ∷ word) ≡ true)
    (whole : concat used ++ [] ≡ c ∷ word ++ equals ∷ [])
    (names : (t : Text)
      → match (assigned key) (c ∷ word ++ equals ∷ t) ≡ taking_all used (match solid_run t))
    (v v' rest : Text) (value : IsValue v) (value' : IsValue v')
    (blank : starts_blank rest ≡ true) where
  -- The text with the value `w` after `u` and the key.
  abbrev holding : Text → Text → Text
  holding u w = u ++ (c ∷ word) ++ equals ∷ (w ++ rest)

  abbrev Alike : Text → ℕ → Type 0
  Alike u n = masked key text n (holding u v) ≡ masked key text n (holding u v')

  masked-step :
      (d : ℕ) (u : Text)
      → ((n : ℕ) → n ≤ length u → Alike u n)
      → Outcome key text (d ∷ u) (c ∷ word)
      → Alike (d ∷ u) 0
  unfolding Outcome masked
  masked-step d u alike (inl misses) =
      replace-none (assigned key) (λ _. text) d (holding u v) (misses (v ++ rest))
      ∙ ap (λ s. d ∷ s) (alike 0 (omega arith))
      ∙ sym (replace-none (assigned key) (λ _. text) d (holding u v') (misses (v' ++ rest)))
  masked-step d u alike (inr (inl (parts, short, found))) =
      replace-some (assigned key) (λ _. text) d (holding u v) (found (v ++ rest)).0 parts
        (found (v ++ rest)).1
      ∙ ap (λ s. text ++ s) (alike (total parts - 1) (omega arith))
      ∙ sym (
          replace-some (assigned key) (λ _. text) d (holding u v') (found (v' ++ rest)).0 parts
            (found (v' ++ rest)).1)
  masked-step d u alike (inr (inr (taken, z, split, solid_z, found))) =
      through key text d (u ++ (c ∷ word)) v rest taken z split solid_z value.0 value.1 blank
        (found (v ++ rest))
      ∙ sym (
          through key text d (u ++ (c ∷ word)) v' rest taken z split solid_z value'.0 value'.1 blank
            (found (v' ++ rest)))

  masked-value : (u : Text) (n : ℕ) → n ≤ length u → Alike u n
  unfolding masked replace_from
  masked-value [] zero h =
      through key text c word v rest used [] whole refl value.0 value.1 blank (names (v ++ rest))
      ∙ sym (
          through key text c word v' rest used [] whole refl value'.0 value'.1 blank
            (names (v' ++ rest)))
  masked-value [] (suc n) h = absurd (omega arith)
  masked-value (d ∷ u) (suc n) h = masked-value u n (omega arith)
  masked-value (d ∷ u) zero h =
      masked-step d u (masked-value u) (outcome key text (d ∷ u) (c ∷ word) lit solid)

concat-singles : (w s : Text) → concat (singles w ++ s ∷ []) ++ [] ≡ w ++ s
concat-singles [] s = append-nil (s ++ []) ∙ append-nil s
concat-singles (c ∷ w) s = ap (λ x. c ∷ x) (concat-singles w s)

taking_all-append :
    (parts : List Text) (used : Text) (m : Option Match)
    → taking_all (parts ++ used ∷ []) m ≡ taking_all parts (taking used m)
taking_all-append [] used m = refl
taking_all-append (part ∷ parts) used m = ap (taking part) (taking_all-append parts used m)

match-named :
    (k word t : Text)
    → to_lower word ≡ to_lower k
    → match (assigned (folds k)) (word ++ equals ∷ t)
      ≡ taking_all (singles word ++ codes "=" ∷ []) (match solid_run t)
unfolding match cut_any cut_prefix
match-named k word t h =
    match-folds word k (one_of (codes "=" ∷ []) ∷ solid_run) (equals ∷ t) h
    ∙ sym (taking_all-append (singles word) (codes "=") (match solid_run t))

unnamed : (c : ℕ) (k : Text) → to_lower [] ≡ to_lower (c ∷ k) → ⊥
unfolding to_lower
unnamed c k h = ground arith

-- A rule for a key hides the value, wherever the key stands and in letters of any case.
rule-hides :
    (k text u word v v' rest : Text)
    → literal (folds k) ≡ true
    → all_solid k ≡ true
    → 0 < length k
    → to_lower word ≡ to_lower k
    → IsValue v
    → IsValue v'
    → starts_blank rest ≡ true
    → fixed (assigned (folds k)) text (u ++ word ++ equals ∷ (v ++ rest))
      ≡ fixed (assigned (folds k)) text (u ++ word ++ equals ∷ (v' ++ rest))
unfolding replace_all_string masked
rule-hides [] text u word v v' rest lit solid some_k h value value' blank = absurd (omega arith)
rule-hides (c ∷ k) text u [] v v' rest lit solid some_k h value value' blank =
    absurd (unnamed c k h)
rule-hides (c ∷ k) text u (d ∷ word) v v' rest lit solid some_k h value value' blank =
    masked-value (folds (c ∷ k)) text d word (singles (d ∷ word) ++ codes "=" ∷ []) lit
      (sym (all_solid-to_lower (d ∷ word)) ∙ ap all_solid h ∙ all_solid-to_lower (c ∷ k) ∙ solid)
      (concat-singles (d ∷ word) (codes "=")) (λ t. match-named (c ∷ k) (d ∷ word) t h) v v' rest
      value value' blank u 0 (omega arith)

-- A text with a value after the key `password`, in letters of any case, at any place.
abbrev pub with_password : Text → Text → Text → Text → Text
with_password u word v rest = u ++ word ++ equals ∷ (v ++ rest)

-- What `Sanitize` makes of a text with a password does not depend on the password.
pub sanitize-password :
    (u word v v' rest : Text)
    → to_lower word ≡ codes "password"
    → IsValue v
    → IsValue v'
    → starts_blank rest ≡ true
    → sanitize default_rules (with_password u word v rest)
      ≡ sanitize default_rules (with_password u word v' rest)
unfolding sanitize password_rule to_lower
sanitize-password u word v v' rest named value value' blank = ap (sanitize other_rules) (
    rule-hides (codes "password") (codes "password=***") u word v v' rest refl refl (omega arith)
      named value value' blank)
