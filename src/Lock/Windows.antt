-- ===== src/Lock/Windows.antt =====
-- internal/lock/process_windows.go, and its answer beside that of internal/daemon/pidfile_windows.go.
use syncrules.Prelude.{
  ℕ, ◌%◌, ◌^◌, nat_eq, Bool, true, false, ok, err, ◌≡◌, inl, inr, arith, Result-cases,
}
use syncrules.PidFile.Windows.{
  access_denied, other, WindowsSystem, query_information, is_process_running,
}

-- `PROCESS_QUERY_LIMITED_INFORMATION`
abbrev query_limited_information : ℕ
query_limited_information = 4096

module _ {W : Type 0} (system : WindowsSystem W) where
  -- `processExists`; the handle is closed.
  unfoldable pub process_exists : W → ℕ → Bool
  process_exists w pid = elim (system.open_process w query_limited_information (pid % 2 ^ 32)) [
    | ok _ ↦ true
    | err access_denied ↦ true
    | err (other _) ↦ false
  ]

  -- A process can be opened for less access where it can for more.
  abbrev OpensForLess : Type 0
  OpensForLess =
      (w : W) (pid handle : ℕ)
      → system.open_process w query_information pid ≡ ok handle
      → (h : ℕ) × (system.open_process w query_limited_information pid ≡ ok h)

  -- The lock takes every process to exist that the PID file takes to run.
  pub is_process_running-process_exists :
      OpensForLess
      → (w : W) (pid : ℕ) → is_process_running system w pid ≡ true
      → process_exists w pid ≡ true
  unfolding process_exists is_process_running
  is_process_running-process_exists less w pid running =
      elim (Result-cases (system.open_process w query_information (pid % 2 ^ 32))) [
        | inl (handle, e) ↦ let (h, opened) = less w (pid % 2 ^ 32) handle e in ground arith
        | inr (e, failed) ↦ absurd (ground arith)
      ]
