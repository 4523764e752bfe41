-- ===== src/Lock/Ends.antt =====
-- internal/lock/lock.go: how many accesses to the file `Acquire` makes.
use syncrules.Prelude.{
  ℕ, zero, suc, ◌-◌, ◌≤◌, Text, text_eq, nat_eq, Option, none, some, ◌≡◌, refl, arith,
}
use syncrules.Domain.{Error}
use syncrules.Lock.Access.{LockInfo, Disk, Process}
use syncrules.Lock.{
  LockFailure, Phase, start_acquire, step, steps, acquire, checked, checked_own, rewritten, removed,
  created, holder_read, encoded,
}

-- How many accesses a call can still make.
abbrev rank : Phase → ℕ
rank (Phase.checking_own _) = 6
rank (Phase.rewriting _ _) = 1
rank (Phase.checking _) = 5
rank (Phase.removing _) = 4
rank (Phase.creating _) = 3
rank (Phase.reading_holder _ _) = 1
rank (Phase.encoding _ _) = 2
rank (Phase.cleaning _ _) = 1
rank (Phase.finished _ _) = 0

step-rank :
    (p : Process) (rule : Text) (fault : Option Error) (d : Disk) (phase : Phase)
    → rank (step p rule fault d phase).1 ≤ rank phase - 1
unfolding step checked checked_own rewritten removed created holder_read encoded
step-rank p rule fault d (Phase.checking_own own) = ground arith
step-rank p rule fault d (Phase.rewriting own info) = ground arith
step-rank p rule fault d (Phase.checking own) = ground arith
step-rank p rule fault d (Phase.removing own) = ground arith
step-rank p rule fault d (Phase.creating own) = ground arith
step-rank p rule fault d (Phase.reading_holder own e) = ground arith
step-rank p rule fault d (Phase.encoding own handle) = ground arith
step-rank p rule fault d (Phase.cleaning own e) = ground arith
step-rank p rule fault d (Phase.finished own result) = ground arith

steps-rank :
    (p : Process) (rule : Text) (faults : ℕ → Option Error) (n : ℕ) (d : Disk) (phase : Phase)
    → rank phase ≤ n
    → rank (steps p rule faults n d phase).1 ≡ 0
unfolding steps
steps-rank p rule faults zero d phase h = omega arith
steps-rank p rule faults (suc n) d phase h =
    let r = step p rule (faults n) d phase in
    steps-rank p rule faults n r.0 r.1 (omega (arith, step-rank p rule (faults n) d phase))

-- The call is over.
abbrev pub Finished : Phase → Type 0
Finished phase =
    (own : Option LockInfo) × (result : Option LockFailure) × (phase ≡ Phase.finished own result)

rank-Finished : (phase : Phase) → rank phase ≡ 0 → Finished phase
rank-Finished (Phase.finished own result) h = (own, result, refl)
rank-Finished (Phase.checking_own own) h = ground arith
rank-Finished (Phase.rewriting own info) h = ground arith
rank-Finished (Phase.checking own) h = ground arith
rank-Finished (Phase.removing own) h = ground arith
rank-Finished (Phase.creating own) h = ground arith
rank-Finished (Phase.reading_holder own e) h = ground arith
rank-Finished (Phase.encoding own handle) h = ground arith
rank-Finished (Phase.cleaning own e) h = ground arith

-- A call of Acquire is over after at most six accesses, whatever faults it meets.
pub acquire-Finished :
    (p : Process) (rule : Text) (faults : ℕ → Option Error) (own : Option LockInfo) (d : Disk)
    → Finished (acquire p rule faults own d).1
unfolding acquire start_acquire
acquire-Finished p rule faults none d =
    rank-Finished _ (steps-rank p rule faults 6 d (Phase.checking none) (omega arith))
acquire-Finished p rule faults (some own) d =
    rank-Finished _ (steps-rank p rule faults 6 d (Phase.checking_own own) (omega arith))
