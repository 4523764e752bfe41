-- ===== src/Lock/Processes.antt =====
-- internal/lock/process_unix.go, and its answer beside that of internal/daemon/pidfile_unix.go.
use syncrules.Prelude.{ℕ, Bool, true, false, Option, none, some, ◌≡◌, ◌↔◌, ◌⊎◌, arith}
use syncrules.Domain.{Error}
use syncrules.PidFile.{PidSystem, is_process_running}

-- What `Signal(0)` can fail with: `errors.Is(err, syscall.EPERM)` holds, or not.
pub data SignalError : Type 0 where
  not_permitted : SignalError
  other : Error → SignalError

pub record Processes (W : Type 0) : Type 0 where
  pub find_process : W → ℕ → Option Error
  pub signal_zero : W → ℕ → Option SignalError

-- `processExists`
unfoldable pub process_exists : {W : Type 0} → Processes W → W → ℕ → Bool
process_exists system w pid = elim (system.find_process w pid) [
  | some _ ↦ false
  | none ↦ elim (system.signal_zero w pid) [
    | none ↦ true
    | some not_permitted ↦ true
    | some (other _) ↦ false
  ]
]

-- Both ask one system.
pub SameSystem : {W : Type 0} → PidSystem W → Processes W → W → ℕ → Type 0
SameSystem os system w pid =
    (os.find_process w pid ≡ system.find_process w pid)
    × ((os.signal_zero w pid ≡ none) ↔ (system.signal_zero w pid ≡ none))

-- The lock takes a process to exist exactly where the PID file does, and also where this process is
-- not permitted to signal it; the PID file takes such a process, of another user, to have ended.
pub process_exists-is_process_running :
    {W : Type 0} (os : PidSystem W) (system : Processes W) (w : W) (pid : ℕ)
    → SameSystem os system w pid
    → (process_exists system w pid ≡ true) ↔ (
        (is_process_running os w pid ≡ true)
        ⊎ ((system.find_process w pid ≡ none)
            × (system.signal_zero w pid ≡ some not_permitted)
            × (is_process_running os w pid ≡ false)))
unfolding process_exists is_process_running SameSystem
process_exists-is_process_running os system w pid h = ground arith
