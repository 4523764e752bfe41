-- ===== src/PidFile/Exclusive.antt =====
-- `PIDFile` of internal/daemon/pidfile.go: what one process writes, and what another one finds.
use mathlib.Core.Path.{subst}
use syncrules.Prelude.{
  ℕ, ◌^◌, ◌<◌, Text, true, none, [], ◌∷◌, ◌++◌, Option-cases, Bool-cases, ok, ◌≡◌, ◌≢◌, inl, inr,
  arith,
}
use syncrules.PidFile.{
  PidSystem, is_process_running, read, is_running, says_running, write_pid, write,
}
use syncrules.PidFile.Decimal.{print_int, parse_int-print_int}

module _ {W : Type 0} (os : PidSystem W) where
  -- What is documented of writing: the file is there and holds what was written.
  abbrev pub WritesFile : Type 0
  WritesFile =
      (w : W) (s : Text)
      → (os.write_file w s).1 ≡ none
      → (os.exists (os.write_file w s).0 ≡ true) × (os.read_file (os.write_file w s).0 ≡ ok s)

  -- The process is found and takes the signal 0 without an error.
  abbrev pub CanBeSignalled : W → ℕ → Type 0
  CanBeSignalled w pid = (os.find_process w pid ≡ none) × (os.signal_zero w pid ≡ none)

  write_inv :
      (pid : ℕ) (w w' : W)
      → write os pid w ≡ (w', none)
      → (w0 : W) × (write_pid os w0 pid ≡ (w', none))
  unfolding write
  write_inv pid w w' h = elim (Bool-cases (os.exists w)) [
    | inr absent ↦ (w, ground arith)
    | inl present ↦ elim (Bool-cases (says_running (is_running os w))) [
      | inl running ↦ absurd (ground arith)
      | inr stale ↦ ((os.remove w).0, ground arith)
    ]
  ]

  written :
      (laws : WritesFile) (pid : ℕ) (w w' : W)
      → write_pid os w pid ≡ (w', none)
      → (os.exists w' ≡ true) × (os.read_file w' ≡ ok (print_int pid ++ 10 ∷ []))
  unfolding write_pid
  written laws pid w w' h = elim (Option-cases (os.write_file w (print_int pid ++ 10 ∷ [])).1) [
    | inl e ↦
        let (there, holds) = laws w (print_int pid ++ 10 ∷ []) e in
        let at : (os.write_file w (print_int pid ++ 10 ∷ [])).0 ≡ w' = ground arith in
        (
          subst (λ x. os.exists x ≡ true) at there,
          subst (λ x. os.read_file x ≡ ok (print_int pid ++ 10 ∷ [])) at holds,
        )
    | inr (x, e) ↦ absurd (ground arith)
  ]

  read-written :
      (pid : ℕ) (w : W)
      → pid < 2 ^ 63
      → os.read_file w ≡ ok (print_int pid ++ 10 ∷ [])
      → read os w ≡ ok pid
  unfolding read
  read-written pid w small h = ground (arith, parse_int-print_int pid small)

  running-refused :
      (pid other : ℕ) (w : W)
      → os.exists w ≡ true
      → read os w ≡ ok pid
      → CanBeSignalled w pid
      → ((write os other w).0 ≡ w) × ((write os other w).1 ≢ none)
  unfolding write is_running is_process_running
  running-refused pid other w there holds (found, alive) = ground arith

  -- After `Write` of a process has succeeded, where writing does what is documented of it, `Read` gives
  -- the process; and if this process can be signalled, a `Write` of any other process is then refused and
  -- changes nothing.
  pub write-Exclusive :
      (laws : WritesFile) (pid other : ℕ) (w w' : W)
      → pid < 2 ^ 63
      → write os pid w ≡ (w', none)
      → (read os w' ≡ ok pid)
        × (CanBeSignalled w' pid → ((write os other w').0 ≡ w') × ((write os other w').1 ≢ none))
  write-Exclusive laws pid other w w' small h =
      let (w0, wrote) = write_inv pid w w' h in
      let (there, holds) = written laws pid w0 w' wrote in
      let back = read-written pid w' small holds in (back, running-refused pid other w' there back)
