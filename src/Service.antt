-- ===== src/Service.antt =====
-- internal/service/sync.go: a synchronisation from the lock to the last action.
pub mod Execution
pub mod Actions
pub mod Storage
pub mod Mirror
pub mod Replicas
pub mod Fates
pub mod Reconcile
pub mod Unlocks
pub mod Opening
use syncrules.Prelude.{
  ℕ, Text, text_eq, codes, Bool, true, false, Option, none, some, List, [], ◌∷◌, ◌==◌, ◌||◌,
  if◌then◌else◌, Result, ok, err,
}
use syncrules.Prelude.Dict.{Dict, lookup, insert}
use syncrules.Domain.{
  Error, wrapped, other_error, SyncPlan, SyncRule, Transport, TransportType, local, gdrive,
  Endpoint,
}
use syncrules.Config.{Config, get_rule, get_endpoint, get_transport}
use syncrules.Adapter.{Adapter}
use syncrules.Executor.{plan}
use syncrules.Lock.Access.{Disk, Process, LockInfo}
use syncrules.Lock.{LockFailure, Phase, acquire, release}
use syncrules.Service.Execution.{Event, set_total, Outcome, execute_actions}

-- What opens the storage of an endpoint: `local.New` of the root, and `gdrive.New` of the client's id
-- and secret, the token path and the root.
pub record Backends (W : Type 0) : Type 0 where
  pub open_local : Text → Result Error (Adapter W)
  pub open_gdrive : Text → Text → Text → Text → Result Error (Adapter W)

-- The process and the faults that its calls of the lock meet.
pub record LockCalls : Type 0 where
  pub process : Process
  pub acquire_faults : ℕ → Option Error
  pub read_fault : Option Error
  pub remove_fault : Option Error

-- The fields of `SyncService` that change, the lock file and the storage.
pub record ServiceState (W : Type 0) : Type 0 where
  pub adapters : Dict (Adapter W)
  pub held : Option LockInfo
  pub disk : Disk
  pub storage : W

-- The field `info` of the lock after `Acquire`, and the error.
abbrev pub lock_outcome : Option LockInfo → Phase → Option LockInfo × Option LockFailure
lock_outcome held (Phase.finished held' problem) = (held', problem)
lock_outcome held _ = (held, none)

abbrev lock_error : LockFailure → Error
lock_error (LockFailure.held _ reason) = other_error reason
lock_error (LockFailure.failure e) = e

-- `m[key]` of a `map[string]string`
abbrev text_at : Text → Dict Text → Text
text_at key m = elim (lookup key m) [ some v ↦ v | none ↦ [] ]

module _ {W : Type 0} (backends : Backends W) (c : Config) where
  -- The switch over the type of the transport.
  open_adapter : Text → Endpoint → Transport → TransportType → Result Error (Adapter W)
  unfolding lookup
  open_adapter name e t local = elim (backends.open_local e.root) [
    | ok a ↦ ok a
    | err x ↦ err (wrapped (codes "failed to create local adapter") x)
  ]
  open_adapter name e t gdrive =
      if (text_at (codes "client_id") t.config == [])
        || (text_at (codes "client_secret") t.config == [])
      then err
          (other_error (codes "gdrive transport requires client_id and client_secret in config"))
      else elim (backends.open_gdrive (text_at (codes "client_id") t.config)
          (text_at (codes "client_secret") t.config) (text_at (codes "token_path") t.config)
          e.root) [
            | ok a ↦ ok a
            | err x ↦ err (wrapped (codes "failed to create gdrive adapter") x)
          ]
  open_adapter name e t (TransportType.other s) = err (other_error (codes "unknown transport type"))

  -- `getAdapter`: the adapters, with a new one, and the adapter of the endpoint.
  unfoldable pub get_adapter : Text → Dict (Adapter W) → Dict (Adapter W) × Result Error (Adapter W)
  unfolding open_adapter get_endpoint get_transport lookup insert
  get_adapter name adapters = elim (lookup name adapters) [
    | some a ↦ (adapters, ok a)
    | none ↦ elim (get_endpoint c name) [
      | err x ↦ (adapters, err x)
      | ok e ↦ elim (get_transport c e.transport) [
        | err x ↦ (adapters, err x)
        | ok t ↦ elim (open_adapter name e t t.type) [
          | err x ↦ (adapters, err x)
          | ok a ↦ (insert name a adapters, ok a)
        ]
      ]
    ]
  ]

  -- `PlanSync`: the plan, or `none` if the listing runs out of fuel, and the adapters.
  unfoldable pub plan_sync :
      (Text → Text → Option Bool)
      → (ℕ → Bool)
      → ℕ
      → Text
      → Dict (Adapter W)
      → W
      → Dict (Adapter W) × Option (Result Error SyncPlan)
  unfolding get_adapter get_rule plan
  plan_sync glob done fuel rule_name adapters w = elim (get_rule c rule_name) [
    | err x ↦ (adapters, some (err x))
    | ok rule ↦
        let s = get_adapter rule.source_endpoint adapters in
        elim s.1 [
          | err x ↦ (s.0, some (err (wrapped (codes "source endpoint") x)))
          | ok source ↦
              let t = get_adapter rule.target_endpoint s.0 in
              elim t.1 [
                | err x ↦ (t.0, some (err (wrapped (codes "target endpoint") x)))
                | ok target ↦ (t.0, plan glob rule done fuel (source.list w) (target.list w))
              ]
        ]
  ]

  -- The body of `ExecuteSync` while the lock is held.
  unfoldable pub execute_locked :
      (ℕ → Bool) → SyncPlan → Dict (Adapter W) → W → Dict (Adapter W) × Outcome W
  unfolding get_adapter get_rule execute_actions
  execute_locked done p adapters w = elim (get_rule c p.rule_name) [
    | err x ↦ (adapters, (w, [], some x))
    | ok rule ↦
        let s = get_adapter rule.source_endpoint adapters in
        elim s.1 [
          | err x ↦ (s.0, (w, [], some x))
          | ok source ↦
              let t = get_adapter rule.target_endpoint s.0 in
              elim t.1 [
                | err x ↦ (t.0, (w, [], some x))
                | ok target ↦
                    let r = execute_actions done source target p.actions 0 0 0 w in
                    (t.0, (r.0, set_total p.stats.files_to_copy p.stats.bytes_to_sync ∷ r.1, r.2))
              ]
        ]
  ]

  -- `ExecuteSync` once `Acquire` has returned. The error of the deferred `Release` is logged only.
  after_acquire :
      LockCalls
      → (ℕ → Bool)
      → SyncPlan
      → ServiceState W
      → Disk × Phase
      → ServiceState W × List Event × Option Error
  unfolding release execute_locked
  after_acquire calls done p st (d, phase) =
      let o = lock_outcome st.held phase in
      elim o.1 [
        | some problem ↦ (
          record { adapters = st.adapters; held = o.0; disk = d; storage = st.storage },
          [],
          some (wrapped (codes "failed to acquire sync lock") (lock_error problem)),
        )
        | none ↦
            let r = execute_locked done p st.adapters st.storage in
            let u = release calls.process calls.read_fault calls.remove_fault o.0 d in
            (record { adapters = r.0; held = u.1; disk = u.0; storage = r.1.0 }, r.1.1, r.1.2)
      ]

  unfoldable pub execute_sync :
      LockCalls
      → (ℕ → Bool)
      → SyncPlan
      → ServiceState W
      → ServiceState W × List Event × Option Error
  unfolding after_acquire acquire
  execute_sync calls done p st =
      after_acquire calls done p st
        (acquire calls.process p.rule_name calls.acquire_faults st.held st.disk)

-- `Close` of the service: every adapter is closed, and the last error counts.
unfoldable pub close_all : {W : Type 0} → Dict (Adapter W) → W → Option Error → W × Option Error
close_all [] w last = (w, last)
close_all ((_, a) ∷ adapters) w last =
    let r = a.close w in close_all adapters r.0 (elim r.1 [ some e ↦ some e | none ↦ last ])
