-- ===== src/Daemon/Locked.antt =====
-- `syncRunner.RunSync` of internal/service/daemon.go over the `SyncService` of internal/service/sync.go: the
-- lock between them.
use mathlib.Core.Path.{subst}
use syncrules.Prelude.{ℕ, Text, codes, Bool, Option, none, some, ◌≡◌, ap, sym, Result, err}
use syncrules.Prelude.Dict.{Dict}
use syncrules.Domain.{Error, other_error, SyncPlan}
use syncrules.Config.{Config}
use syncrules.Adapter.{Adapter}
use syncrules.Lock.Access.{Process}
use syncrules.Lock.Sequential.{gone-Free}
use syncrules.Service
use syncrules.Service.{Backends, ServiceState, execute_locked}
use syncrules.Service.Unlocks.{calls_of, idle_state, execute_sync-unlocks}
use syncrules.Daemon.Simulation.{Simulates, run_sync-Simulates}
use syncrules.Daemon.{SyncOps, run_sync}

-- A listing that runs out of fuel counts as an error; with enough fuel there is none.
abbrev plan_result : Option (Result Error SyncPlan) → Result Error SyncPlan
plan_result none = err (other_error (codes "out of fuel"))
plan_result (some r) = r

-- What does not change while the daemon runs: the backends, the configuration, the matcher, the context, the
-- fuel of a listing, the process, and the time as part of the storage's state.
module _ {W : Type 0} (backends : Backends W) (c : Config) (glob : Text → Text → Option Bool)
    (done : ℕ → Bool) (fuel : ℕ) (process : Process) (clock : W → ℕ) where
  abbrev pub at_time : W → Process
  at_time w = record process { now = clock w }

  -- The runner's calls of the service.
  abbrev pub service_ops : SyncOps (ServiceState W)
  service_ops = record {
    plan_sync = λ name st.
        let r = Service.plan_sync backends c glob done fuel name st.adapters st.storage in
        (record st { adapters = r.0 }, plan_result r.1);
    execute_sync = λ plan st.
        let r = Service.execute_sync backends c (calls_of (at_time st.storage)) done plan st in
        (r.0, r.2);
    now = λ st. clock st.storage;
  }

  -- The same work with no lock.
  abbrev pub unlocked_ops : SyncOps (Dict (Adapter W) × W)
  unlocked_ops = record {
    plan_sync = λ name (adapters, w).
        let r = Service.plan_sync backends c glob done fuel name adapters w in
        ((r.0, w), plan_result r.1);
    execute_sync = λ plan (adapters, w).
        let r = execute_locked backends c done plan adapters w in ((r.0, r.1.0), r.1.2);
    now = λ (adapters, w). clock w;
  }

  -- The lock file is not there and the lock is not held; the rest of the state is as given.
  abbrev pub IsIdle : ServiceState W → Dict (Adapter W) × W → Type 0
  IsIdle st (adapters, w) =
      (st.disk.file ≡ none) × (st.held ≡ none) × (st.adapters ≡ adapters) × (st.storage ≡ w)

  execute_sync-unlocked :
      (plan : SyncPlan) (st : ServiceState W) (adapters : Dict (Adapter W)) (w : W)
      → IsIdle st (adapters, w)
      → let r = service_ops.execute_sync plan st in
        let r' = unlocked_ops.execute_sync plan (adapters, w) in IsIdle r.0 r'.0 × (r.1 ≡ r'.1)
  execute_sync-unlocked plan st adapters w (file, held, same, storage) =
      let idle : idle_state adapters st.disk w ≡ st = λ i. record {
        adapters = sym same i;
        held = sym held i;
        disk = st.disk;
        storage = sym storage i;
      } in
      let r =
        execute_sync-unlocks backends c (at_time w) done plan adapters st.disk w
          (gone-Free (at_time w) st.disk file) in
      subst
        (λ (s : ServiceState W).
          let r = service_ops.execute_sync plan s in
          let r' = unlocked_ops.execute_sync plan (adapters, w) in IsIdle r.0 r'.0 × (r.1 ≡ r'.1))
        idle ((r.0, r.1, r.2, r.3), r.5)

  pub service_ops-Simulates : Simulates IsIdle service_ops unlocked_ops
  service_ops-Simulates = record {
    now_law = λ st s h. ap clock h.3;
    plan_law = λ name st (adapters, w) h.
        let same : Service.plan_sync backends c glob done fuel name st.adapters st.storage
            ≡ Service.plan_sync backends c glob done fuel name adapters w =
          λ i. Service.plan_sync backends c glob done fuel name (h.2 i) (h.3 i) in
        ((h.0, h.1, ap (λ r. r.0) same, h.3), ap (λ r. plan_result r.1) same);
    execute_law = λ plan st (adapters, w) h. execute_sync-unlocked plan st adapters w h;
  }

  -- From a state where the lock file is not there and the lock is not held, RunSync through the
  -- service, whose calls of the lock meet no faults, saves the records and gives the error that it would
  -- with no lock at all, leaves the same adapters and the same storage, and in the end the lock file is
  -- gone and the lock is not held.
  pub run_sync-IsIdle :
      (name : Text) (st : ServiceState W) (adapters : Dict (Adapter W)) (w : W)
      → IsIdle st (adapters, w)
      → let r = run_sync service_ops c name st in
        let r' = run_sync unlocked_ops c name (adapters, w) in
        IsIdle r.0 r'.0 × (r.1 ≡ r'.1) × (r.2 ≡ r'.2)
  run_sync-IsIdle name st adapters w h =
      run_sync-Simulates IsIdle service_ops unlocked_ops service_ops-Simulates c name st
        (adapters, w) h
