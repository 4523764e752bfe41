-- ===== src/Logger/Sanitizer/Assigned.antt =====
-- Where a match of `key=\S+` ends, and what a rule of internal/logger/sanitizer.go makes of it.
use mathlib.Core.List.{append_assoc}
use syncrules.Prelude.{
  ℕ, ◌+◌, ◌-◌, ◌<◌, Text, nat_eq, true, none, some, List, [], ◌∷◌, ◌++◌, ◌≡◌, ◌⊎◌, inl, inr, refl,
  sym, ap, ◌∙◌, arith, length, length-append,
}
use syncrules.Adapter.{concat}
use syncrules.Logger.Sanitizer.Patterns.{Piece, match, total, replace_from}
use syncrules.Logger.Sanitizer.Rules.{is_blank, assigned}
use syncrules.Logger.Sanitizer.Replacing.{
  length-concat, taking_all-parts, taking_all-none, total-append, replace-some, replace-skip,
}
use syncrules.Logger.Sanitizer.Scan.{
  equals, all_solid, solid_run, taking_all, literal, match-key, solid-or-blank, starts_blank,
  match-solid_run, match-blank,
}

all_solid-append :
    (v w : Text) → all_solid v ≡ true → all_solid w ≡ true → all_solid (v ++ w) ≡ true
all_solid-append [] w h k = k
all_solid-append (c ∷ v) w h k = ground (arith, all_solid-append v w (ground arith) k)

all_solid-blank :
    (p : Text) (b : ℕ) (s : Text) → all_solid (p ++ b ∷ s) ≡ true → is_blank b ≡ true → ⊥
all_solid-blank [] b s h k = ground arith
all_solid-blank (c ∷ p) b s h k = all_solid-blank p b s (ground arith) k

-- A blank byte of a text `u` and a word stands in `u`.
blank-before :
    (p u w : Text) (b : ℕ) (s : Text)
    → p ++ b ∷ s ≡ u ++ w
    → all_solid w ≡ true
    → is_blank b ≡ true
    → length p < length u
blank-before p [] w b s e h k = absurd (all_solid-blank p b s (ap all_solid e ∙ h) k)
blank-before [] (c ∷ u) w b s e h k = omega arith
blank-before (d ∷ p) (c ∷ u) w b s e h k = omega (arith, blank-before p u w b s (ap tail e) h k)
  where
    tail : Text → Text
    tail [] = []
    tail (c ∷ s) = s

match-run :
    (w s : Text)
    → all_solid w ≡ true
    → 0 < length w
    → starts_blank s ≡ true
    → match solid_run (w ++ s) ≡ some (w ∷ [], s)
match-run [] s h k b = absurd (omega arith)
match-run (c ∷ w) s h k b = match-solid_run c w s h b

-- What is left of the text decides how the run of the value goes.
module _ (key : List Piece) (text : Text) where
  unfoldable pub masked : ℕ → Text → Text
  unfolding replace_from
  masked n s = replace_from (assigned key) (λ _. text) n s

  pub through :
      (c : ℕ) (y v rest : Text) (used : List Text) (z : Text)
      → concat used ++ z ≡ c ∷ y ++ equals ∷ []
      → all_solid z ≡ true
      → all_solid v ≡ true
      → 0 < length v
      → starts_blank rest ≡ true
      → match (assigned key) (c ∷ y ++ equals ∷ (v ++ rest))
        ≡ taking_all used (match solid_run (z ++ (v ++ rest)))
      → masked 0 (c ∷ y ++ equals ∷ (v ++ rest)) ≡ text ++ masked 0 rest
  unfolding masked
  through c y v rest used z whole solid_z solid_v some_v blank found =
      replace-some (assigned key) (λ _. text) c (y ++ equals ∷ (v ++ rest)) rest
        (used ++ (z ++ v) ∷ []) taken
      ∙ ap (λ n. text ++ masked n (y ++ equals ∷ (v ++ rest))) count
      ∙ ap (λ s. text ++ masked (length (y ++ equals ∷ v)) s)
          (sym (append_assoc y (equals ∷ v) rest))
      ∙ ap (λ s. text ++ s) (replace-skip (assigned key) (λ _. text) (y ++ equals ∷ v) rest)
    where
      taken :
          match (assigned key) (c ∷ y ++ equals ∷ (v ++ rest)) ≡ some (used ++ (z ++ v) ∷ [], rest)
      taken =
          found
          ∙ ap (λ s. taking_all used (match solid_run s)) (sym (append_assoc z v rest))
          ∙ ap (taking_all used) (
              match-run (z ++ v) rest (all_solid-append z v solid_z solid_v)
                (omega (arith, length-append z v)) blank)
          ∙ taking_all-parts used (z ++ v) rest

      count : total (used ++ (z ++ v) ∷ []) - 1 ≡ length (y ++ equals ∷ v)
      count = omega (
        arith,
        total-append used (z ++ v),
        length-append z v,
        length-concat used,
        length-append (concat used) z,
        ap length whole,
        length-append y (equals ∷ []),
        length-append y (equals ∷ v),
      )

  within :
      (u word : Text) (used : List Text) (z w : Text) (b : ℕ) (s : Text)
      → concat used ++ z ≡ u ++ word ++ equals ∷ []
      → z ≡ w ++ b ∷ s
      → all_solid word ≡ true
      → is_blank b ≡ true
      → total used + length w < length u
  within u word used z w b s whole split solid blank = omega (
    arith,
    blank-before (concat used ++ w) u (word ++ equals ∷ []) b s
        (append_assoc (concat used) w (b ∷ s)
          ∙ ap (λ x. concat used ++ x) (sym split)
          ∙ whole
          ∙ append_assoc u word (equals ∷ []))
        (all_solid-append word (equals ∷ []) solid refl) blank,
    length-append (concat used) w,
    length-concat used,
  )

  -- The matches of a text `u`, a word, `=` and a text `t`, for every `t`: there is none, or it ends in
  -- `u`, or the value goes on where it stops to look at what comes before `t`.
  unfoldable pub Outcome : Text → Text → Type 0
  Outcome u word =
      ((t : Text) → match (assigned key) (u ++ word ++ equals ∷ t) ≡ none)
      ⊎ (((parts : List Text) × (total parts < length u)
            × ((t : Text)
                → (rest : Text) × (match (assigned key) (u ++ word ++ equals ∷ t)
                    ≡ some (parts, rest))))
          ⊎ ((used : List Text) × (z : Text) × (concat used ++ z ≡ u ++ word ++ equals ∷ [])
              × (all_solid z ≡ true)
              × ((t : Text)
                  → match (assigned key) (u ++ word ++ equals ∷ t)
                    ≡ taking_all used (match solid_run (z ++ t)))))

  outcome-blank :
      (u word : Text) (used : List Text) (z w : Text) (b : ℕ) (s : Text)
      → concat used ++ z ≡ u ++ word ++ equals ∷ []
      → ((t : Text)
          → match (assigned key) (u ++ word ++ equals ∷ t)
            ≡ taking_all used (match solid_run (z ++ t)))
      → z ≡ w ++ b ∷ s
      → all_solid w ≡ true
      → is_blank b ≡ true
      → all_solid word ≡ true
      → Outcome u word
  unfolding Outcome
  outcome-blank u word used z [] b s whole found split solid_w blank solid = inl (λ t.
      found t
      ∙ ap (λ x. taking_all used (match solid_run (x ++ t))) split
      ∙ ap (taking_all used) (match-blank (b ∷ s ++ t) blank)
      ∙ taking_all-none used)
  outcome-blank u word used z (c ∷ w) b s whole found split solid_w blank solid = inr (
      inl (
        used ++ (c ∷ w) ∷ [],
        omega (
          arith,
          total-append used (c ∷ w),
          within u word used z (c ∷ w) b s whole split solid blank,
        ),
        λ t. (
          b ∷ s ++ t,
          found t
              ∙ ap (λ x. taking_all used (match solid_run (x ++ t))) split
              ∙ ap (λ x. taking_all used (match solid_run x)) (append_assoc (c ∷ w) (b ∷ s) t)
              ∙ ap (taking_all used) (match-solid_run c w (b ∷ s ++ t) solid_w blank)
              ∙ taking_all-parts used (c ∷ w) (b ∷ s ++ t),
        ),
      ))

  pub outcome : (u word : Text) → literal key ≡ true → all_solid word ≡ true → Outcome u word
  unfolding Outcome
  outcome u word lit solid = elim (match-key key (u ++ word) lit) [
    | inl misses ↦ inl misses
    | inr (used, z, whole, found) ↦ elim (solid-or-blank z) [
      | inl solid_z ↦ inr (inr (used, z, whole, solid_z, found))
      | inr (w, b, s, split, solid_w, blank) ↦
          outcome-blank u word used z w b s whole found split solid_w blank solid
    ]
  ]
