-- ===== src/Planner/Loop.antt =====
-- The loops of internal/core/planner/planner.go over a map: for each entry at most one action is
-- appended to the plan.
pub mod Members
use syncrules.Prelude.{Text, Option, none, some, List, [], ◌∷◌}
use syncrules.Prelude.Dict.{Dict, lookup}
use syncrules.Domain.{SyncAction}

abbrev pub append_some {ℓ} : {A : Type ℓ} → Option A → List A → List A
append_some none rest = rest
append_some (some a) rest = a ∷ rest

-- `for path, v := range m { … }`
module _ {V : Type 0} (step : Text → V → Option SyncAction) where
  unfoldable pub collect : Dict V → List SyncAction
  collect [] = []
  collect ((path, v) ∷ rest) = append_some (step path v) (collect rest)

  -- What the body appends for the value of one key.
  abbrev pub at_key : Dict V → Text → Option SyncAction
  at_key m path = elim (lookup path m) [ none ↦ none | some v ↦ step path v ]
