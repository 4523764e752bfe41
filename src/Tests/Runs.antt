-- ===== src/Tests/Runs.antt =====
-- Runs and instances of the synchronisation service, over a storage that is the list of the paths written.
use syncrules.Prelude.{
  ℕ, Text, codes, Bool, false, none, some, List, [], ◌∷◌, ok, err, ◌≡◌, refl, length,
}
use syncrules.Domain.{not_found, SyncPlan}
use syncrules.Adapter.{Adapter}
use syncrules.Planner.Stats.{zero_stats}
use syncrules.Service.Execution.{execute_actions}
use syncrules.Service.Actions.{RunsPart, execute_actions-RunsPart}
use syncrules.Service.{Backends}
use syncrules.Service.Unlocks.{idle_state}
use syncrules.Daemon.{run_sync}
use syncrules.Daemon.Locked.{service_ops, unlocked_ops, IsIdle, run_sync-IsIdle}
use syncrules.Tests.Samples.{exact}
use syncrules.Tests.Settings.{sample_config}
use syncrules.Tests.Locks.{laptop, absent}
use syncrules.Tests.Planning.{push_mkdir, push_deletion}

-- Directories can be made; nothing can be read, and nothing removed.
abbrev paths : Adapter (List Text)
paths = record {
  list = λ w p. ok [];
  read = λ w p. err not_found;
  write = λ w p c. (p ∷ w, none);
  delete = λ w p. (w, some not_found);
  stat = λ w p. err not_found;
  mkdir = λ w p. (p ∷ w, none);
  exists = λ w p. ok false;
  close = λ w. (w, none);
}

abbrev backends : Backends (List Text)
backends = record {
  open_local = λ root. ok paths;
  open_gdrive = λ id secret token root. err not_found;
}

abbrev never : ℕ → Bool
never n = false

abbrev small_plan : SyncPlan
small_plan = record {
  rule_name = codes "docs";
  actions = push_mkdir ∷ push_deletion ∷ [];
  conflicts = [];
  stats = zero_stats;
}

execute_actions-RunsPart_example :
    let r = execute_actions never paths paths small_plan.actions 0 0 0 [] in
    RunsPart paths paths never 0 small_plan.actions [] r.0 r.2
execute_actions-RunsPart_example =
    execute_actions-RunsPart paths paths never small_plan.actions 0 0 0 []

-- RunSync of the rule, through the service.
run_sync-IsIdle_example :
    let r =
      run_sync
        (service_ops backends sample_config exact never 9 (laptop 1) length)
        sample_config
        (codes "docs")
        (idle_state [] absent []) in
    let r' =
      run_sync
        (unlocked_ops backends sample_config exact never 9 (laptop 1) length)
        sample_config
        (codes "docs")
        ([], []) in
    IsIdle backends sample_config exact never 9 (laptop 1) length r.0 r'.0
    × (r.1 ≡ r'.1)
    × (r.2 ≡ r'.2)
run_sync-IsIdle_example =
    run_sync-IsIdle backends sample_config exact never 9 (laptop 1) length (codes "docs")
      (idle_state [] absent []) [] [] (refl, refl, refl, refl)
