-- ===== src/Service/Opening.antt =====
-- `NewSyncService`, the calls of the lock, and the reporter, of internal/service/sync.go.
use syncrules.Prelude.{
  Text, codes, Bool, not, Option, none, some, [], Result, ok, err, ◌≡◌, refl, arith, inl, inr,
  Result-cases,
}
use syncrules.Prelude.Dict.{Dict}
use syncrules.Domain.{Error, wrapped, other_error}
use syncrules.Config.{Config}
use syncrules.Config.Locations.{Environment, get_lock_path}
use syncrules.Adapter.{Adapter}
use syncrules.Lock.Access.{Disk, LockInfo, is_stale, remove_file}
use syncrules.Lock.{LockFailure, acquire, release, is_locked, get_holder, force_release, own_info}
use syncrules.Lock.Opening.{FileLock, new_file_lock, new_file_lock-keeps}
use syncrules.Lock.Sequential.{no_faults, acquire-Free, gone-Free}
use syncrules.Service.{LockCalls, ServiceState, lock_outcome}

-- `SyncService` as `NewSyncService` makes it; `W` is the storage of its adapters.
pub record SyncService (W : Type 0) : Type 0 where
  pub config : Config
  pub adapters : Dict (Adapter W)
  pub lock : FileLock

-- `NewSyncService`; the configuration may be nil.
unfoldable pub new_sync_service :
    {W S : Type 0}
    → (S → Text → S × Option Error)
    → Environment
    → Option Config
    → S
    → S × Result Error (SyncService W)
unfolding get_lock_path new_file_lock
new_sync_service mkdir_all env none s = (s, err (other_error (codes "config cannot be nil")))
new_sync_service mkdir_all env (some c) s =
    let (s1, made) = new_file_lock mkdir_all env.user_config_dir (get_lock_path env c) s in
    elim made [
      | err e ↦ (s1, err (wrapped (codes "failed to create file lock") e))
      | ok lock ↦ (s1, ok (record { config = c; adapters = []; lock = lock }))
    ]

-- The state of the service with a new lock field and lock file.
abbrev with_lock : {W : Type 0} → Disk → Option LockInfo → ServiceState W → ServiceState W
with_lock d held st = record st { disk = d; held = held }

module _ {W : Type 0} (calls : LockCalls) where
  -- `AcquireLock`
  unfoldable pub acquire_lock : Text → ServiceState W → ServiceState W × Option LockFailure
  unfolding acquire
  acquire_lock rule st =
      let (d, phase) = acquire calls.process rule calls.acquire_faults st.held st.disk in
      let (held, problem) = lock_outcome st.held phase in (with_lock d held st, problem)

  -- `ReleaseLock`
  unfoldable pub release_lock : ServiceState W → ServiceState W × Option Error
  unfolding release
  release_lock st =
      let (d, held, problem) =
        release calls.process calls.read_fault calls.remove_fault st.held st.disk in
      (with_lock d held st, problem)

  -- `IsLocked`
  unfoldable pub is_service_locked : ServiceState W → Bool
  unfolding is_locked
  is_service_locked st = is_locked calls.process calls.read_fault st.disk

  -- `GetLockHolder`
  unfoldable pub get_lock_holder : ServiceState W → Result Error LockInfo
  unfolding get_holder
  get_lock_holder st = get_holder calls.process calls.read_fault st.disk

  -- `ForceUnlock`
  unfoldable pub force_unlock : ServiceState W → ServiceState W × Option Error
  unfolding force_release
  force_unlock st =
      let (d, held, problem) = force_release calls.remove_fault st.held st.disk in
      (with_lock d held st, problem)

-- `getReporter`: the reporter that is set, or one that does nothing.
abbrev pub get_reporter : {R : Type 0} → R → Option R → R
get_reporter silent none = silent
get_reporter silent (some reporter) = reporter

pub new_sync_service-keeps :
    (W : Type 0) {S A : Type 0} (seen : S → A) (mkdir_all : S → Text → S × Option Error)
    (env : Environment) (c : Config) (s : S)
    → ((s : S) (p : Text) → seen (mkdir_all s p).0 ≡ seen s)
    → seen (new_sync_service {W = W} mkdir_all env (some c) s).0 ≡ seen s
unfolding new_sync_service
new_sync_service-keeps W seen mkdir_all env c s law =
    let kept = new_file_lock-keeps seen mkdir_all env.user_config_dir (get_lock_path env c) s law in
    elim (Result-cases (new_file_lock mkdir_all env.user_config_dir (get_lock_path env c) s).1) [
      | inr (x, e) ↦ rw (new_sync_service, e) kept
      | inl (l, e) ↦ rw (new_sync_service, e) kept
    ]

force_release-gone :
    (fault : Option Error) (held : Option LockInfo) (d : Disk)
    → fault ≡ none
    → ((force_release fault held d).0.file ≡ none) × ((force_release fault held d).1 ≡ none)
unfolding force_release remove_file
force_release-gone fault held d e = ground arith

-- Where no fault is met, AcquireLock after ForceUnlock succeeds whatever the lock file was and whoever
-- held it, and the lock is then this process's.
pub force_unlock-acquire_lock :
    {W : Type 0} (calls : LockCalls) (rule : Text) (st : ServiceState W)
    → calls.acquire_faults ≡ no_faults
    → calls.remove_fault ≡ none
    → let r = acquire_lock calls rule (force_unlock calls st).0 in
      (r.1 ≡ none)
      × (r.0.held ≡ some (own_info calls.process rule))
      × (is_service_locked (record calls { read_fault = none }) r.0
          ≡ not (is_stale calls.process (own_info calls.process rule)))
unfolding force_unlock acquire_lock is_service_locked
force_unlock-acquire_lock calls rule st e f =
    let r = force_release calls.remove_fault st.held st.disk in
    let (gone, free) = force_release-gone calls.remove_fault st.held st.disk f in
    let (n, m, h) = (acquire-Free calls.process rule r.0).0 (gone-Free calls.process r.0 gone) in
    rw (acquire_lock, e, free, h) (refl, refl, refl)
