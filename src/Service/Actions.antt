-- ===== src/Service/Actions.antt =====
-- The loop of `ExecuteSync` of internal/service/sync.go: how far it comes.
use syncrules.Prelude.{
  ℕ, suc, ◌+◌, ◌%◌, ◌^◌, codes, Bool, false, Option, none, some, List, length, true, [], ◌∷◌, ◌++◌,
  ◌≡◌, ◌⊎◌, inl, inr, refl, arith, Bool-cases, Option-cases,
}
use syncrules.Domain.{Error, wrapped, context_done, SyncAction}
use syncrules.Adapter.{Adapter}
use syncrules.Service.Execution.{execute_action, execute_actions, is_copy, reported_size}

module _ {W : Type 0} (source target : Adapter W) where
  -- All the actions succeed one after the other, and take the storage from `w` to `w'`.
  abbrev pub Runs : List SyncAction → W → W → Type 0
  Runs [] w w' = w ≡ w'
  Runs (a ∷ actions) w w' =
      ((execute_action source target a w).2 ≡ none)
      × Runs actions (execute_action source target a w).0 w'

  module _ (done : ℕ → Bool) where
    -- The loop stops before or in the action `a`, at the poll number `k`: the context is done, or the action gives an error.
    abbrev pub StopsAt : ℕ → SyncAction → W → W → Option Error → Type 0
    StopsAt k a before w' result =
        ((done k ≡ true) × (result ≡ some context_done) × (w' ≡ before))
        ⊎ ((e : Error) × ((execute_action source target a before).2 ≡ some e)
            × (result ≡ some (wrapped (codes "action on " ++ a.path) e))
            × (w' ≡ (execute_action source target a before).0))

    -- The loop runs all actions, or a part of them and stops at the next.
    abbrev pub RunsPart : ℕ → List SyncAction → W → W → Option Error → Type 0
    RunsPart n actions w w' result =
        ((result ≡ none) × Runs actions w w')
        ⊎ ((ran : List SyncAction) × (a : SyncAction) × (rest : List SyncAction) × (before : W)
            × (actions ≡ ran ++ (a ∷ rest))
            × Runs ran w before
            × (k : ℕ) × (k ≡ n + length ran)
            × StopsAt k a before w' result)

    RunsPart-cons :
        (n : ℕ) (a : SyncAction) (actions : List SyncAction) (w w' : W) (result : Option Error)
        → (execute_action source target a w).2 ≡ none
        → RunsPart (suc n) actions (execute_action source target a w).0 w' result
        → RunsPart n (a ∷ actions) w w' result
    RunsPart-cons n a actions w w' result h (inl (e, runs)) = inl (e, (h, runs))
    RunsPart-cons n a actions w w' result h (inr (ran, b, rest, before, e, runs, k, q, stop)) =
        inr (a ∷ ran, b, rest, before, rw e refl, (h, runs), k, omega arith, stop)

    -- After an action that succeeds the loop goes on from its result.
    execute_actions-next :
        (a : SyncAction) (actions : List SyncAction) (n files bytes : ℕ) (w : W)
        → done n ≡ false
        → (execute_action source target a w).2 ≡ none
        → (files' : ℕ) × (bytes' : ℕ) × ((execute_actions done source target
              (a ∷ actions)
              n
              files
              bytes
              w).0
            ≡ (execute_actions done source target actions
                (suc n)
                files'
                bytes'
                (execute_action source target a w).0).0)
          × ((execute_actions done source target (a ∷ actions) n files bytes w).2
              ≡ (execute_actions done source target actions
                  (suc n)
                  files'
                  bytes'
                  (execute_action source target a w).0).2)
    unfolding execute_actions
    execute_actions-next a actions n files bytes w d e = elim (Bool-cases (is_copy a.type)) [
      | inl k ↦
          ((files + 1) % 2 ^ 64, (bytes + reported_size a) % 2 ^ 64, ground arith, ground arith)
      | inr k ↦ (files, bytes, ground arith, ground arith)
    ]

    -- The actions run in their order, to the end or up to the first that fails or whose poll finds the
    -- context done; none is skipped, and after that one nothing more is done.
    pub execute_actions-RunsPart :
        (actions : List SyncAction) (n files bytes : ℕ) (w : W)
        → let r = execute_actions done source target actions n files bytes w in
          RunsPart n actions w r.0 r.2
    unfolding execute_actions
    execute_actions-RunsPart [] n files bytes w = inl (refl, refl)
    execute_actions-RunsPart (a ∷ actions) n files bytes w = elim (Bool-cases (done n)) [
      | inl d ↦
          rw (d, execute_actions)
            (inr ([], a, actions, w, refl, refl, n, omega arith, inl (d, refl, refl)))
      | inr d ↦ elim (Option-cases (execute_action source target a w).2) [
        | inr (x, e) ↦
            rw (d, e, execute_actions)
              (inr ([], a, actions, w, refl, refl, n, omega arith, inr (x, e, refl, refl)))
        | inl e ↦
            let next = execute_actions-next a actions n files bytes w d e in
            rw (next.2, next.3)
              (RunsPart-cons n a actions w _ _ e (
                execute_actions-RunsPart actions (suc n) next.0 next.1
                  (execute_action source target a w).0))
      ]
    ]

    -- Where no error is returned, all actions have run.
    pub RunsPart-Runs :
        (n : ℕ) (actions : List SyncAction) (w w' : W) (result : Option Error)
        → RunsPart n actions w w' result
        → result ≡ none
        → Runs actions w w'
    RunsPart-Runs n actions w w' result (inl (e, runs)) h = runs
    RunsPart-Runs n actions w w' result (inr (ran, a, rest, before, e, runs, k, q, inl stop)) h = cc
    RunsPart-Runs n actions w w' result (inr (ran, a, rest, before, e, runs, k, q, inr stop)) h = cc
