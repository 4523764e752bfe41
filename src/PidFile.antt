-- ===== src/PidFile.antt =====
-- internal/daemon/pidfile.go and internal/daemon/pidfile_unix.go. The system calls are a parameter.
pub mod Decimal
pub mod Exclusive
pub mod Windows
use syncrules.Prelude.{
  ℕ, ◌^◌, Text, codes, Bool, true, false, Option, none, some, [], ◌∷◌, ◌++◌, if◌then◌else◌, Result,
  ok, err, trim_space,
}
use syncrules.Paths.{join_all}
use syncrules.Domain.{Error, other_error, wrapped}
use syncrules.PidFile.Decimal.{print_int, parse_int}

-- What `os.ReadFile` and `os.Remove` can fail with: `os.IsNotExist` holds, or not.
pub data FileError : Type 0 where
  missing : FileError
  other : Text → FileError

-- The calls on the file, and `os.FindProcess` with `Signal`, over the state of the system. A process
-- identifier is the bit pattern of an int.
pub record PidSystem (W : Type 0) : Type 0 where
  pub exists : W → Bool
  pub read_file : W → Result FileError Text
  pub write_file : W → Text → W × Option Error
  pub remove : W → W × Option FileError
  pub find_process : W → ℕ → Option Error
  pub signal_zero : W → ℕ → Option Error
  pub terminate : W → ℕ → W × Option Error

-- `isProcessRunning`
unfoldable pub is_process_running : {W : Type 0} → PidSystem W → W → ℕ → Bool
is_process_running os w pid = elim (os.find_process w pid) [
  | some _ ↦ false
  | none ↦ elim (os.signal_zero w pid) [ none ↦ true | some _ ↦ false ]
]

-- `killProcess`
kill_process : {W : Type 0} → PidSystem W → W → ℕ → W × Option Error
kill_process os w pid = elim (os.find_process w pid) [
  | some e ↦ (w, some (wrapped (codes "failed to find process") e))
  | none ↦
      let (w1, failure) = os.terminate w pid in
      elim failure [
        | none ↦ (w1, none)
        | some e ↦ (w1, some (wrapped (codes "failed to signal process") e))
      ]
]

-- `running, _ := p.IsRunning()`
abbrev says_running : Result Error Bool → Bool
says_running (ok running) = running
says_running (err _) = false

-- `DefaultPIDPath`, from what `os.UserHomeDir` gives.
unfoldable pub default_pid_path :
    {W : Type 0} → (W → Text → W × Option Error) → Result Error Text → W → W × Result Error Text
unfolding join_all
default_pid_path mkdir_all (err e) w = (w, err (wrapped (codes "failed to get home directory") e))
default_pid_path mkdir_all (ok home) w =
    let dir = join_all (home ∷ codes ".config" ∷ codes "syncrules" ∷ []) in
    let (w1, failed) = mkdir_all w dir in
    elim failed [
      | some e ↦ (w1, err (wrapped (codes "failed to create PID directory") e))
      | none ↦ (w1, ok (join_all (dir ∷ codes "daemon.pid" ∷ [])))
    ]

module _ {W : Type 0} (os : PidSystem W) where
  -- `Read`
  unfoldable pub read : W → Result Error ℕ
  read w = elim (os.read_file w) [
    | err missing ↦ err (other_error (codes "PID file does not exist"))
    | err (other text) ↦ err (wrapped (codes "failed to read PID file") (other_error text))
    | ok content ↦ elim (parse_int (trim_space content)) [
      | none ↦ err (other_error (codes "invalid PID in file"))
      | some pid ↦ ok pid
    ]
  ]

  -- `IsRunning`
  unfoldable pub is_running : W → Result Error Bool
  unfolding read is_process_running
  is_running w = elim (read w) [ err e ↦ err e | ok pid ↦ ok (is_process_running os w pid) ]

  unfoldable pub write_pid : W → ℕ → W × Option Error
  write_pid w pid =
      let (w1, failure) = os.write_file w (print_int pid ++ 10 ∷ []) in
      elim failure [
        | none ↦ (w1, none)
        | some e ↦ (w1, some (wrapped (codes "failed to write PID file") e))
      ]

  -- `Write` of the process that `os.Getpid` names; an error of the removal is passed over.
  unfoldable pub write : ℕ → W → W × Option Error
  unfolding is_running write_pid
  write pid w =
      if os.exists w
      then (if says_running (is_running w)
          then (w, some (other_error (codes "daemon is already running")))
          else write_pid (os.remove w).0 pid)
      else write_pid w pid

  -- `Remove`
  unfoldable pub remove : W → W × Option Error
  remove w =
      let (w1, failure) = os.remove w in
      elim failure [
        | none ↦ (w1, none)
        | some missing ↦ (w1, none)
        | some (other text) ↦
            (w1, some (wrapped (codes "failed to remove PID file") (other_error text)))
      ]

  -- `Kill`
  unfoldable pub kill : W → W × Option Error
  unfolding read kill_process
  kill w = elim (read w) [ err e ↦ (w, some e) | ok pid ↦ kill_process os w pid ]
