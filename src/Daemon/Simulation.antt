-- ===== src/Daemon/Simulation.antt =====
-- `RunSync` of internal/service/daemon.go over two services of which one does what the other does.
use syncrules.Prelude.{Text, List, [], ◌∷◌, ◌≡◌, refl, ap, Result-cases, Option-cases, inl, inr}
use syncrules.Domain.{SyncPlan, SyncRule}
use syncrules.Config.{Config}
use syncrules.Daemon.{
  SyncOps, run_rule, run_each, rules_named, run_sync, aggregate, append_error, failed_record,
}

-- Related states answer alike, and stay related.
pub record Simulates {S S' : Type 0} (R : S → S' → Type 0) (ops : SyncOps S) (ops' : SyncOps S')
    : Type 0 where
  pub now_law : (s : S) (s' : S') → R s s' → ops.now s ≡ ops'.now s'
  pub plan_law :
      (name : Text) (s : S) (s' : S')
      → R s s'
      → R (ops.plan_sync name s).0 (ops'.plan_sync name s').0
        × ((ops.plan_sync name s).1 ≡ (ops'.plan_sync name s').1)
  pub execute_law :
      (plan : SyncPlan) (s : S) (s' : S')
      → R s s'
      → R (ops.execute_sync plan s).0 (ops'.execute_sync plan s').0
        × ((ops.execute_sync plan s).1 ≡ (ops'.execute_sync plan s').1)

module _ {S S' : Type 0} (R : S → S' → Type 0) (ops : SyncOps S) (ops' : SyncOps S')
    (sim : Simulates R ops ops') where
  run_rule-Simulates :
      (rule : SyncRule) (s : S) (s' : S')
      → R s s'
      → R (run_rule ops rule s).0 (run_rule ops' rule s').0
        × ((run_rule ops rule s).1 ≡ (run_rule ops' rule s').1)
        × ((run_rule ops rule s).2 ≡ (run_rule ops' rule s').2)
  unfolding run_rule failed_record
  run_rule-Simulates rule s s' r =
      let p = ops.plan_sync rule.name s in
      let p' = ops'.plan_sync rule.name s' in
      let (r1, same) = sim.plan_law rule.name s s' r in
      let start = sim.now_law s s' r in
      elim (Result-cases p'.1) [
        | inr (e, k) ↦
            let now = sim.now_law p.0 p'.0 r1 in rw (run_rule, same, k, start, now) (r1, refl, refl)
        | inl (plan, k) ↦
            let x = ops.execute_sync plan p.0 in
            let x' = ops'.execute_sync plan p'.0 in
            let (r2, same') = sim.execute_law plan p.0 p'.0 r1 in
            let now = sim.now_law x.0 x'.0 r2 in
            elim (Option-cases x'.1) [
              | inl h ↦ rw (run_rule, same, k, same', h, start, now) (r2, refl, refl)
              | inr (e, h) ↦ rw (run_rule, same, k, same', h, start, now) (r2, refl, refl)
            ]
      ]

  run_each-Simulates :
      (rules : List SyncRule) (s : S) (s' : S')
      → R s s'
      → R (run_each ops rules s).0 (run_each ops' rules s').0
        × ((run_each ops rules s).1 ≡ (run_each ops' rules s').1)
        × ((run_each ops rules s).2 ≡ (run_each ops' rules s').2)
  unfolding run_each
  run_each-Simulates [] s s' r = (r, refl, refl)
  run_each-Simulates (rule ∷ rules) s s' r =
      let (r1, record_same, error_same) = run_rule-Simulates rule s s' r in
      let (r2, records, errors) = run_each-Simulates rules _ _ r1 in
      (r2, λ i. record_same i ∷ records i, λ i. append_error (error_same i) (errors i))

  -- The two runs stay related, save the same records and give the same error.
  pub run_sync-Simulates :
      (c : Config) (name : Text) (s : S) (s' : S')
      → R s s'
      → R (run_sync ops c name s).0 (run_sync ops' c name s').0
        × ((run_sync ops c name s).1 ≡ (run_sync ops' c name s').1)
        × ((run_sync ops c name s).2 ≡ (run_sync ops' c name s').2)
  unfolding run_sync
  run_sync-Simulates c name s s' r = elim (Result-cases (rules_named c name)) [
    | inr (e, h) ↦ rw (run_sync, h) (r, refl, refl)
    | inl (rules, h) ↦
        let (r1, records, errors) = run_each-Simulates rules s s' r in
        rw (run_sync, h) (r1, records, ap aggregate errors)
  ]
