-- ===== src/Prelude/Fallible.antt =====
-- Go's `(value, error)` pairs, as a sum, with `do`.
use mathlib.Core.Path.{◌≡◌, refl}
use mathlib.Core.Logic.{◌⊎◌, inl, inr}

pub data Result {ℓ κ} (Err : Type ℓ) (A : Type κ) : Type (ℓ ⊔ κ) where
  err : Err → Result Err A
  ok : A → Result Err A

pub Result-cases {ℓ κ} :
    {E : Type ℓ} {A : Type κ} (r : Result E A) → ((a : A) × (r ≡ ok a)) ⊎ ((e : E) × (r ≡ err e))
Result-cases (ok a) = inl (a, refl)
Result-cases (err e) = inr (e, refl)
