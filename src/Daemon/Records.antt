-- ===== src/Daemon/Records.antt =====
-- What `RunSync` of internal/service/daemon.go records.
use syncrules.Prelude.{Text, none, List, [], ◌∷◌, ok, ◌≡◌, ◌↔◌, refl, arith, map, All}
use syncrules.Domain.{SyncRule}
use syncrules.Config.{Config}
use syncrules.Daemon.{
  success, ExecutionRecord, SyncOps, failed_record, run_rule, run_each, rules_named, run_sync,
  aggregate,
}

abbrev pub record_name : ExecutionRecord → Text
record_name r = r.rule_name

abbrev pub rule_name : SyncRule → Text
rule_name r = r.name

-- A record says success and has no error, or says failed and has one.
abbrev pub Coherent : ExecutionRecord → Type 0
Coherent r = (r.status ≡ success) ↔ (r.error ≡ none)

abbrev pub Succeeded : ExecutionRecord → Type 0
Succeeded r = r.status ≡ success

module _ {S : Type 0} (ops : SyncOps S) where
  run_rule_lem :
      (rule : SyncRule) (s : S)
      → ((run_rule ops rule s).1.rule_name ≡ rule.name)
        × Coherent (run_rule ops rule s).1
        × (((run_rule ops rule s).2 ≡ none) ↔ Succeeded (run_rule ops rule s).1)
  unfolding run_rule failed_record
  run_rule_lem rule s = ground arith

  run_each_lem :
      (rules : List SyncRule) (s : S)
      → (map record_name (run_each ops rules s).1 ≡ map rule_name rules)
        × All Coherent (run_each ops rules s).1
        × (((run_each ops rules s).2 ≡ []) ↔ All Succeeded (run_each ops rules s).1)
  unfolding run_each
  run_each_lem [] s = ground arith
  run_each_lem (rule ∷ rules) s =
      let here = run_rule_lem rule s in
      let rest = run_each_lem rules (run_rule ops rule s).0 in
      (λ i. here.0 i ∷ rest.0 i, (here.1, rest.1), ground arith)

  pub run_sync-found :
      (c : Config) (name : Text) (s : S) (rules : List SyncRule)
      → rules_named c name ≡ ok rules
      → run_sync ops c name s
        ≡ ((run_each ops rules s).0, (run_each ops rules s).1, aggregate (run_each ops rules s).2)
  unfolding run_sync
  run_sync-found c name s rules e = rw (e, run_sync) refl

  -- RunSync on rules that it finds saves one record for each of them, in their order and with its
  -- name, also after failures; a record says success exactly where it has no error, and RunSync
  -- gives no error exactly where all records say success.
  pub run_sync-records :
      (c : Config) (name : Text) (s : S) (rules : List SyncRule)
      → rules_named c name ≡ ok rules
      → let r = run_sync ops c name s in
        (map record_name r.1 ≡ map rule_name rules)
        × All Coherent r.1
        × ((r.2 ≡ none) ↔ All Succeeded r.1)
  run_sync-records c name s rules e =
      let r = run_each_lem rules s in rw (run_sync-found c name s rules e) (r.0, r.1, ground arith)
