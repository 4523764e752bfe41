-- ===== src/Config/Loops.antt =====
-- What the loops of `Validate` of internal/config/config.go check.
use syncrules.Prelude.{
  Text, text_eq, text_iff, Bool, true, false, Option, none, List, [], ◌∷◌, ◌==◌, if◌then◌else◌,
  Result, ok, err, ◌≡◌, ◌≢◌, ◌⊎◌, ◌↔◌, inl, inr, refl, arith, All, All-map, Result-cases,
}
use syncrules.Prelude.Dict.{Dict, insert, lookup-insert}
use syncrules.Domain.{Error}
use syncrules.Config.{marked, validate_loop}

pub marked-insert :
    (j k : Text) (m : Dict Bool)
    → marked j (insert k true m) ≡ (if j == k then true else marked j m)
unfolding marked
marked-insert j k m = ground (arith, lookup-insert j k true m)

pub marked-nil : (k : Text) → marked k [] ≡ false
unfolding marked
marked-nil k = refl

refute : {B : Type 0} {r : Result Error B} {e : Error} {b : B} → r ≡ err e → r ≡ ok b → ⊥
refute h k = ground arith

module _ {A : Type 0} (name : A → Text) where
  -- Some thing of the list has the name.
  abbrev pub Named : Text → List A → Type 0
  Named k [] = ⊥
  Named k (x ∷ xs) = (name x ≡ k) ⊎ Named k xs

  -- No two things of the list have one name.
  abbrev pub DistinctNames : List A → Type 0
  DistinctNames [] = Unit
  DistinctNames (x ∷ xs) = (¬ Named (name x) xs) × DistinctNames xs

  -- None of the names is marked.
  abbrev pub Unseen : Dict Bool → List A → Type 0
  Unseen seen = All (λ x. marked (name x) seen ≡ false)

  Unseen-insert :
      (k : Text) (seen : Dict Bool) (xs : List A)
      → Unseen (insert k true seen) xs ↔ (Unseen seen xs × (¬ Named k xs))
  Unseen-insert k seen [] = (λ h. (tt, λ n. n), λ h. tt)
  Unseen-insert k seen (x ∷ xs) =
      ground (arith, marked-insert (name x) k seen, text_iff (name x) k, Unseen-insert k seen xs)

  Unseen-nil : (xs : List A) → Unseen [] xs
  Unseen-nil [] = tt
  Unseen-nil (x ∷ xs) = (marked-nil (name x), Unseen-nil xs)

  -- The set of names once all of them are marked.
  abbrev pub mark_all : Dict Bool → List A → Dict Bool
  mark_all seen [] = seen
  mark_all seen (x ∷ xs) = mark_all (insert (name x) true seen) xs

  pub marked-mark_all :
      (k : Text) (seen : Dict Bool) (xs : List A)
      → (marked k (mark_all seen xs) ≡ true) ↔ ((marked k seen ≡ true) ⊎ Named k xs)
  marked-mark_all k seen [] = ground arith
  marked-mark_all k seen (x ∷ xs) = ground (
    arith,
    marked-mark_all k (insert (name x) true seen) xs,
    marked-insert k (name x) seen,
    text_iff k (name x),
  )

  -- The loop gives the set of all names, or an error where the things are not all good.
  abbrev pub Checks : Result Error (Dict Bool) → List A → Type 0 → Type 0
  Checks r xs Good =
      ((r ≡ ok (mark_all [] xs)) × Good × DistinctNames xs)
      ⊎ ((e : Error) × (r ≡ err e) × (¬ (Good × DistinctNames xs)))

  module _ (empty : Error) (duplicate : A → Error) (check : A → Option Error) where
    abbrev pub Passes : A → Type 0
    Passes x = (name x ≢ []) × (check x ≡ none)

    pub validate_loop_lem :
        (seen : Dict Bool) (xs : List A) (seen' : Dict Bool)
        → (validate_loop name empty duplicate check seen xs ≡ ok seen')
          ↔ (All Passes xs × Unseen seen xs × DistinctNames xs × (mark_all seen xs ≡ seen'))
    unfolding validate_loop
    validate_loop_lem seen [] seen' = ground arith
    validate_loop_lem seen (x ∷ xs) seen' = ground (
      arith,
      text_iff (name x) [],
      Unseen-insert (name x) seen xs,
      validate_loop_lem (insert (name x) true seen) xs seen',
    )

    pub validate_loop-cases :
        (xs : List A) (Good : A → Type 0)
        → ((x : A) → Passes x ↔ Good x)
        → Checks (validate_loop name empty duplicate check [] xs) xs (All Good xs)
    validate_loop-cases xs Good g =
        elim (Result-cases (validate_loop name empty duplicate check [] xs)) [
          | inl (names, e) ↦
              let h = (validate_loop_lem [] xs names).0 e in
              inl (cc, All-map Passes Good xs (λ x. (g x).0) h.0, h.2)
          | inr (x, e) ↦ inr (
            x,
            e,
            λ h. refute e (
                (validate_loop_lem [] xs (mark_all [] xs)).1
                  (All-map Good Passes xs (λ x. (g x).1) h.0, Unseen-nil xs, h.1, refl)),
          )
        ]
