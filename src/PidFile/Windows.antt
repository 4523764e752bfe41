-- ===== src/PidFile/Windows.antt =====
-- internal/daemon/pidfile_windows.go. The calls of the system are a parameter.
use syncrules.Prelude.{
  ℕ, ◌%◌, ◌^◌, codes, nat_eq, Bool, false, Option, none, some, ◌==◌, Result, ok, err,
}
use syncrules.Domain.{Error, wrapped}

-- What `OpenProcess` can fail with: it is `ERROR_ACCESS_DENIED`, or not.
pub data OpenError : Type 0 where
  access_denied : OpenError
  other : Error → OpenError

-- The calls over the state of the system. A handle and an exit code are numbers, and the identifier of a
-- process is the bit pattern of an int; `open_process` is given the access asked for and a uint32.
pub record WindowsSystem (W : Type 0) : Type 0 where
  pub open_process : W → ℕ → ℕ → Result OpenError ℕ
  pub get_exit_code : W → ℕ → Result Error ℕ
  pub find_process : W → ℕ → Option Error
  pub terminate : W → ℕ → W × Option Error

-- `PROCESS_QUERY_INFORMATION`
abbrev pub query_information : ℕ
query_information = 1024

-- `STILL_ACTIVE`
abbrev pub still_active : ℕ
still_active = 259

module _ {W : Type 0} (system : WindowsSystem W) where
  -- `isProcessRunning`; the handle is closed at the end.
  unfoldable pub is_process_running : W → ℕ → Bool
  is_process_running w pid = elim (system.open_process w query_information (pid % 2 ^ 32)) [
    | err _ ↦ false
    | ok handle ↦ elim (system.get_exit_code w handle) [
      | err _ ↦ false
      | ok code ↦ code == still_active
    ]
  ]

  -- `killProcess`
  unfoldable pub kill_process : W → ℕ → W × Option Error
  kill_process w pid = elim (system.find_process w pid) [
    | some e ↦ (w, some (wrapped (codes "failed to find process") e))
    | none ↦
        let (w1, failure) = system.terminate w pid in
        elim failure [
          | none ↦ (w1, none)
          | some e ↦ (w1, some (wrapped (codes "failed to terminate process") e))
        ]
  ]
