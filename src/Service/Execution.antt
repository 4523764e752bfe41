-- ===== src/Service/Execution.antt =====
-- `executeAction` and the loop of `ExecuteSync` of internal/service/sync.go. `W` is the state of the
-- storage that both adapters act on, and the reporter's calls are a list of events.
use syncrules.Prelude.{
  ℕ, suc, ◌+◌, ◌%◌, ◌^◌, Text, codes, Bool, true, false, Option, none, some, List, [], ◌∷◌, ◌++◌,
  ok, err,
}
use syncrules.Domain.{
  Error, wrapped, other_error, context_done, ActionType, copy, delete, mkdir, conflict, skip,
  source_to_target, target_to_source, SyncAction,
}
use syncrules.Adapter.{Adapter}

pub data Event : Type 0 where
  set_total : ℕ → ℕ → Event
  start : Text → ℕ → Event
  complete : Event
  error : Error → Event
  overall_progress : ℕ → ℕ → Event

-- The size that is reported for a copy.
abbrev pub reported_size : SyncAction → ℕ
reported_size a = elim a.source_info [
  | some f ↦ f.size
  | none ↦ elim a.target_info [ some f ↦ f.size | none ↦ 0 ]
]

-- The storage, the reporter's events and the error, after an action.
abbrev pub Outcome : Type 0 → Type 0
Outcome W = W × List Event × Option Error

abbrev pub is_copy : ActionType → Bool
is_copy copy = true
is_copy _ = false

module _ {W : Type 0} where
  unfoldable pub written : Text → ℕ → W × Option Error → Outcome W
  written path size (w, some e) = (w, start path size ∷ error e ∷ [], some e)
  written path size (w, none) = (w, start path size ∷ complete ∷ [], none)

  unfoldable pub copy_file : Adapter W → Adapter W → Text → ℕ → W → Outcome W
  unfolding written
  copy_file from to path size w = elim (from.read w path) [
    | err e ↦ (w, start path size ∷ error e ∷ [], some e)
    | ok content ↦ written path size (to.write w path content)
  ]

  abbrev silently : W × Option Error → Outcome W
  silently (w, e) = (w, [], e)

  -- The switch over the type of an action.
  unfoldable pub perform : Adapter W → Adapter W → SyncAction → ActionType → W → Outcome W
  unfolding copy_file
  perform from to a copy w = copy_file from to a.path (reported_size a) w
  perform from to a mkdir w = silently (to.mkdir w a.path)
  perform from to a delete w = silently (to.delete w a.path)
  perform from to a skip w = (w, [], none)
  perform from to a conflict w = (w, [], none)
  perform from to a (ActionType.other t) w =
      (w, [], some (other_error (codes "unknown action type: " ++ t)))

  unfoldable pub execute_action : Adapter W → Adapter W → SyncAction → W → Outcome W
  unfolding perform
  execute_action source target a w = elim a.direction [
    | source_to_target ↦ perform source target a a.type w
    | target_to_source ↦ perform target source a a.type w
  ]

  module _ (done : ℕ → Bool) (source target : Adapter W) where
    -- The loop over the actions, with the number of polls made and the files and bytes completed.
    unfoldable pub execute_actions : List SyncAction → ℕ → ℕ → ℕ → W → Outcome W
    unfolding execute_action
    execute_actions [] n files bytes w = (w, [], none)
    execute_actions (a ∷ actions) n files bytes w = elim (done n) [
      | true ↦ (w, [], some context_done)
      | false ↦
          let r = execute_action source target a w in
          elim r.2 [
            | some e ↦ (r.0, r.1 ++ (error e ∷ []), some (wrapped (codes "action on " ++ a.path) e))
            | none ↦ elim (is_copy a.type) [
              | false ↦
                  let rest = execute_actions actions (suc n) files bytes r.0 in
                  (rest.0, r.1 ++ rest.1, rest.2)
              | true ↦
                  let files' = (files + 1) % 2 ^ 64 in
                  let bytes' = (bytes + reported_size a) % 2 ^ 64 in
                  let rest = execute_actions actions (suc n) files' bytes' r.0 in
                  (rest.0, r.1 ++ (overall_progress files' bytes' ∷ rest.1), rest.2)
            ]
          ]
    ]
