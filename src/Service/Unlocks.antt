-- ===== src/Service/Unlocks.antt =====
-- `ExecuteSync` of internal/service/sync.go and the lock file.
use syncrules.Prelude.{ℕ, Bool, none, some, [], codes, ◌≡◌, refl, ap}
use syncrules.Prelude.Dict.{Dict}
use syncrules.Domain.{Error, wrapped, SyncPlan}
use syncrules.Config.{Config}
use syncrules.Adapter.{Adapter}
use syncrules.Lock.Access.{Disk, Process}
use syncrules.Lock.{LockFailure, Phase, own_info, acquire}
use syncrules.Lock.Sequential.{Free, no_faults, acquire-Free, release_own, disk, lock_file}
use syncrules.Service.{
  Backends, LockCalls, ServiceState, lock_error, after_acquire, execute_locked, execute_sync,
}

-- Calls of the lock that meet no faults.
abbrev pub calls_of : Process → LockCalls
calls_of p = record {
  process = p;
  acquire_faults = no_faults;
  read_fault = none;
  remove_fault = none;
}

abbrev pub idle_state : {W : Type 0} → Dict (Adapter W) → Disk → W → ServiceState W
idle_state adapters d w = record { adapters = adapters; held = none; disk = d; storage = w }

module _ {W : Type 0} (backends : Backends W) (c : Config) (p : Process) (done : ℕ → Bool)
    (plan : SyncPlan) where
  execute_sync-after :
      (adapters : Dict (Adapter W)) (d : Disk) (w : W) (r : Disk × Phase)
      → acquire p plan.rule_name no_faults none d ≡ r
      → execute_sync backends c (calls_of p) done plan (idle_state adapters d w)
        ≡ after_acquire backends c (calls_of p) done plan (idle_state adapters d w) r
  unfolding execute_sync
  execute_sync-after adapters d w r e =
      ap (after_acquire backends c (calls_of p) done plan (idle_state adapters d w)) e

  after_acquire-ok :
      (adapters : Dict (Adapter W)) (d : Disk) (w : W) (n m : ℕ)
      → after_acquire backends c (calls_of p) done plan (idle_state adapters d w) (
        disk (some (lock_file n (some (own_info p plan.rule_name)))) m,
        Phase.finished (some (own_info p plan.rule_name)) none,
      )
        ≡ let work = execute_locked backends c done plan adapters w in
          (
            record { adapters = work.0; held = none; disk = disk none m; storage = work.1.0 },
            work.1.1,
            work.1.2,
          )
  unfolding after_acquire
  after_acquire-ok adapters d w n m = rw (release_own p plan.rule_name n m) refl

  after_acquire-error :
      (adapters : Dict (Adapter W)) (d : Disk) (w : W) (x : LockFailure)
      → after_acquire backends c
          (calls_of p)
          done
          plan
          (idle_state adapters d w)
          (d, Phase.finished none (some x))
        ≡ (
          idle_state adapters d w,
          [],
          some (wrapped (codes "failed to acquire sync lock") (lock_error x)),
        )
  unfolding after_acquire
  after_acquire-error adapters d w x = refl

  -- Where the lock is free, ExecuteSync does the work under it, and whatever comes of the work, the
  -- lock file is gone afterwards and the lock is not held.
  pub execute_sync-unlocks :
      (adapters : Dict (Adapter W)) (d : Disk) (w : W)
      → Free p d
      → let r = execute_sync backends c (calls_of p) done plan (idle_state adapters d w) in
        let work = execute_locked backends c done plan adapters w in
        (r.0.disk.file ≡ none)
        × (r.0.held ≡ none)
        × (r.0.adapters ≡ work.0)
        × (r.0.storage ≡ work.1.0)
        × (r.1 ≡ work.1.1)
        × (r.2 ≡ work.1.2)
  execute_sync-unlocks adapters d w free =
      let (n, m, e) = (acquire-Free p plan.rule_name d).0 free in
      rw (execute_sync-after adapters d w _ e, after_acquire-ok adapters d w n m)
        (refl, refl, refl, refl, refl, refl)

  -- Where the lock is not free, it gives an error and changes nothing.
  pub execute_sync-locked_out :
      (adapters : Dict (Adapter W)) (d : Disk) (w : W)
      → (¬ Free p d)
      → let r = execute_sync backends c (calls_of p) done plan (idle_state adapters d w) in
        (r.0 ≡ idle_state adapters d w) × (r.1 ≡ []) × (e : Error) × (r.2 ≡ some e)
  execute_sync-locked_out adapters d w taken =
      let (x, e) = (acquire-Free p plan.rule_name d).1 taken in
      rw (execute_sync-after adapters d w _ e, after_acquire-error adapters d w x)
        (refl, refl, _, refl)
