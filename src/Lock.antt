-- ===== src/Lock.antt =====
-- internal/lock/lock.go: `Acquire` is a machine whose steps are its accesses to the lock file, since
-- other processes may act between them; the other operations are functions.
pub mod Access
pub mod Processes
pub mod Windows
pub mod Opening
pub mod Sequential
pub mod Exclusion
pub mod Race
pub mod Ends
use syncrules.Prelude.{
  ℕ, zero, suc, ◌+◌, ltb, Text, text_eq, nat_eq, codes, Bool, true, false, not, Option, none, some,
  List, [], ◌∷◌, ◌==◌, ◌&&◌, if◌then◌else◌, Result, ok, err,
}
use syncrules.Domain.{Error, not_found, already_exists, wrapped, other_error}
use syncrules.Lock.Access.{
  LockInfo, Disk, Process, read_lock_info, write_lock_info, remove_file, create_file, encode,
  is_stale, is_held_by_this_instance,
}

pub data LockFailure : Type 0 where
  -- `LockError`: the holder and the reason
  held : LockInfo → Text → LockFailure
  failure : Error → LockFailure

-- Where `Acquire` is before its next access to the file. A finished call leaves the field `info` and gives an error or none.
pub data Phase : Type 0 where
  checking_own : LockInfo → Phase
  rewriting : LockInfo → LockInfo → Phase
  checking : Option LockInfo → Phase
  removing : Option LockInfo → Phase
  creating : Option LockInfo → Phase
  reading_holder : Option LockInfo → Error → Phase
  encoding : Option LockInfo → ℕ → Phase
  cleaning : Option LockInfo → Error → Phase
  finished : Option LockInfo → Option LockFailure → Phase

unfoldable pub start_acquire : Option LockInfo → Phase
start_acquire none = Phase.checking none
start_acquire (some own) = Phase.checking_own own

abbrev pub with_rule : Text → LockInfo → LockInfo
with_rule rule info = record {
  pid = info.pid;
  hostname = info.hostname;
  start_time = info.start_time;
  rule_name = rule;
}

-- The record that a process writes.
abbrev pub own_info : Process → Text → LockInfo
own_info p rule = record {
  pid = p.pid;
  hostname = p.hostname;
  start_time = p.now;
  rule_name = rule;
}

module _ (p : Process) (rule : Text) where
  -- After reading the file with no lock of one's own.
  checked : Option LockInfo → Result Error LockInfo → Phase
  unfolding is_stale
  checked own (err e) = Phase.creating own
  checked own (ok existing) =
      if is_stale p existing
      then Phase.removing own
      else Phase.finished own
          (some (LockFailure.held existing (codes "lock is held by another process")))

  checked_own : LockInfo → Result Error LockInfo → Phase
  unfolding is_held_by_this_instance
  checked_own own (err e) = Phase.checking (some own)
  checked_own own (ok existing) =
      if is_held_by_this_instance p (some own) existing
      then Phase.rewriting own (with_rule rule existing)
      else Phase.checking (some own)

  rewritten : LockInfo → Option Error → Phase
  rewritten own (some e) = Phase.finished (some own) (some (LockFailure.failure e))
  rewritten own none = Phase.finished (some (with_rule rule own)) none

  removed : Option LockInfo → Option Error → Phase
  removed own (some e) =
      Phase.finished own
        (some (LockFailure.failure (wrapped (codes "failed to remove stale lock") e)))
  removed own none = Phase.creating own

  -- `os.IsExist(err)` is asked of the error of `os.OpenFile`.
  created : Option LockInfo → Result Error ℕ → Phase
  created own (ok handle) = Phase.encoding own handle
  created own (err already_exists) = Phase.reading_holder own already_exists
  created own (err e) =
      Phase.finished own
        (some (LockFailure.failure (wrapped (codes "failed to create lock file") e)))

  holder_read : Option LockInfo → Error → Result Error LockInfo → Phase
  holder_read own e (err _) =
      Phase.finished own
        (some (LockFailure.failure (wrapped (codes "lock acquisition race condition") e)))
  holder_read own e (ok existing) = Phase.finished own (
      some
        (LockFailure.held existing (codes "lock acquired by another process during acquisition")))

  encoded : Option LockInfo → Option Error → Phase
  encoded own (some e) = Phase.cleaning own e
  encoded own none = Phase.finished (some (own_info p rule)) none

  -- One access of `Acquire` to the file, and what the code does with its result.
  unfoldable pub step : Option Error → Disk → Phase → Disk × Phase
  unfolding read_lock_info write_lock_info remove_file create_file encode checked checked_own
      rewritten removed created holder_read encoded
  step fault d (Phase.checking_own own) = (d, checked_own own (read_lock_info fault d))
  step fault d (Phase.rewriting own info) =
      let r = write_lock_info fault info d in (r.0, rewritten own r.1)
  step fault d (Phase.checking own) = (d, checked own (read_lock_info fault d))
  step fault d (Phase.removing own) = let r = remove_file fault d in (r.0, removed own r.1)
  step fault d (Phase.creating own) = let r = create_file fault d in (r.0, created own r.1)
  step fault d (Phase.reading_holder own e) = (d, holder_read own e (read_lock_info fault d))
  step fault d (Phase.encoding own handle) =
      let r = encode fault handle (own_info p rule) d in (r.0, encoded own r.1)
  step fault d (Phase.cleaning own e) =
      let r = remove_file fault d in
      (
        r.0,
        Phase.finished own
            (some (LockFailure.failure (wrapped (codes "failed to write lock info") e))),
      )
  step fault d (Phase.finished own result) = (d, Phase.finished own result)

  -- A number of steps with no other process in between; `faults n` is met when n more accesses follow.
  unfoldable pub steps : (ℕ → Option Error) → ℕ → Disk → Phase → Disk × Phase
  unfolding step
  steps faults zero d phase = (d, phase)
  steps faults (suc n) d phase = let r = step (faults n) d phase in steps faults n r.0 r.1

  -- A call with no other process in between, run for six accesses.
  unfoldable pub acquire : (ℕ → Option Error) → Option LockInfo → Disk → Disk × Phase
  unfolding start_acquire steps
  acquire faults own d = steps faults 6 d (start_acquire own)

-- `Release`, with the faults of its two accesses: the disk, the field `info` and the error.
unfoldable pub release :
    Process
    → Option Error
    → Option Error
    → Option LockInfo
    → Disk
    → Disk × Option LockInfo × Option Error
unfolding read_lock_info is_held_by_this_instance remove_file
release p read_fault remove_fault none d = (d, none, none)
release p read_fault remove_fault (some own) d = elim (read_lock_info read_fault d) [
  | err e ↦ (d, none, none)
  | ok existing ↦
      if not (is_held_by_this_instance p (some own) existing)
      then (d, none, some (other_error (codes "lock was stolen by another process")))
      else elim (remove_file remove_fault d).1 [
        | none ↦ ((remove_file remove_fault d).0, none, none)
        | some not_found ↦ ((remove_file remove_fault d).0, none, none)
        | some e ↦ (
          (remove_file remove_fault d).0,
          some own,
          some (wrapped (codes "failed to remove lock file") e),
        )
      ]
]

unfoldable pub is_locked : Process → Option Error → Disk → Bool
unfolding read_lock_info is_stale
is_locked p fault d = elim (read_lock_info fault d) [
  | err _ ↦ false
  | ok info ↦ not (is_stale p info)
]

unfoldable pub get_holder : Process → Option Error → Disk → Result Error LockInfo
unfolding read_lock_info is_stale
get_holder p fault d = elim (read_lock_info fault d) [
  | err e ↦ err e
  | ok info ↦ if is_stale p info then err (other_error (codes "lock is stale")) else ok info
]

unfoldable pub force_release :
    Option Error → Option LockInfo → Disk → Disk × Option LockInfo × Option Error
unfolding remove_file
force_release fault own d = elim (remove_file fault d).1 [
  | none ↦ ((remove_file fault d).0, none, none)
  | some not_found ↦ ((remove_file fault d).0, none, none)
  | some e ↦ ((remove_file fault d).0, own, some (wrapped (codes "failed to force remove lock") e))
]
