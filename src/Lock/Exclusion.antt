-- ===== src/Lock/Exclusion.antt =====
-- internal/lock/lock.go: two processes call `Acquire`, and their accesses to the file interleave in
-- any order, with any faults.
use syncrules.Prelude.{
  Text, text_eq, nat_eq, Bool, true, false, Option, none, some, List, [], ◌∷◌, if◌then◌else◌, ◌≡◌,
  refl, arith, Bool-cases,
}
use syncrules.Domain.{Error}
use syncrules.Lock.Access.{
  LockInfo, LockFile, Disk, Process, read_lock_info, remove_file, create_file, encode, is_stale,
}
use syncrules.Lock.{Phase, own_info, step, checked, created, holder_read, encoded}

-- A call has made the file and not given it up.
abbrev owns : Phase → Bool
owns (Phase.encoding _ _) = true
owns (Phase.cleaning _ _) = true
owns (Phase.finished _ none) = true
owns _ = false

-- Where a call on a lock that is not held can be, as long as it finds no stale lock.
abbrev proper : Phase → Bool
proper (Phase.checking_own _) = false
proper (Phase.rewriting _ _) = false
proper (Phase.removing _) = false
proper _ = true

-- The file holds no record that one of the processes takes for stale.
abbrev pub Live : Process → Process → Option LockFile → Type 0
Live p q none = Unit
Live p q (some f) = elim f.content [
  | none ↦ Unit
  | some info ↦ (is_stale p info ≡ false) × (is_stale q info ≡ false)
]

abbrev present : Option LockFile → Bool
present none = false
present (some _) = true

-- A process in its phase, beside another that has made the file or not.
abbrev Safe : Process → Process → Option LockFile → Phase → Bool → Type 0
Safe p q file phase other =
    (proper phase ≡ true)
    × Live p q file
    × (owns phase ≡ true → present file ≡ true)
    × (other ≡ true → present file ≡ true)
    × (owns phase ≡ true → other ≡ false)

module _ (p q : Process) (rule : Text) (live_p : is_stale p (own_info p rule) ≡ false)
    (live_q : is_stale q (own_info p rule) ≡ false) where
  step-Safe :
      (fault : Option Error) (d : Disk) (phase : Phase) (other : Bool)
      → Safe p q d.file phase other
      → Safe p q (step p rule fault d phase).0.file (step p rule fault d phase).1 other
  unfolding step checked read_lock_info created create_file holder_read encode encoded remove_file
  step-Safe fault d (Phase.checking own) other safe = ground arith
  step-Safe fault d (Phase.creating own) other safe = ground arith
  step-Safe fault d (Phase.reading_holder own e) other safe = ground arith
  step-Safe fault d (Phase.encoding own handle) other safe = ground arith
  step-Safe fault d (Phase.cleaning own e) other safe = ground arith
  step-Safe fault d (Phase.finished own result) other safe = ground arith
  step-Safe fault d (Phase.checking_own own) other safe = ground arith
  step-Safe fault d (Phase.rewriting own info) other safe = ground arith
  step-Safe fault d (Phase.removing own) other safe = ground arith

-- Two calls at once, the first of process `p` and the second of process `q`. A move says whether the
-- first one makes its next access, and which fault that access meets.
abbrev pub interleave :
    Process
    → Process
    → Text
    → Text
    → List (Bool × Option Error)
    → Disk × Phase × Phase
    → Disk × Phase × Phase
interleave p q rule_p rule_q [] state = state
interleave p q rule_p rule_q ((first, fault) ∷ moves) (d, phase_p, phase_q) =
    let after_p = step p rule_p fault d phase_p in
    let after_q = step q rule_q fault d phase_q in
    interleave p q rule_p rule_q moves
      (if first then (after_p.0, after_p.1, phase_q) else (after_q.0, phase_p, after_q.1))

-- The call has succeeded.
abbrev pub Acquired : Phase → Type 0
Acquired phase = (own : Option LockInfo) × (phase ≡ Phase.finished own none)

-- No process takes the other's record, or its own, for stale.
abbrev pub TrustEachOther : Process → Process → Text → Text → Type 0
TrustEachOther p q rule_p rule_q =
    (is_stale p (own_info p rule_p) ≡ false)
    × (is_stale q (own_info p rule_p) ≡ false)
    × (is_stale q (own_info q rule_q) ≡ false)
    × (is_stale p (own_info q rule_q) ≡ false)

abbrev BothSafe : Process → Process → Disk × Phase × Phase → Type 0
BothSafe p q (d, phase_p, phase_q) =
    Safe p q d.file phase_p (owns phase_q) × Safe q p d.file phase_q (owns phase_p)

Live-swap : (p q : Process) (file : Option LockFile) → Live p q file → Live q p file
Live-swap p q none h = tt
Live-swap p q (some f) h = ground arith

other-Safe :
    (p q : Process) (before after : Option LockFile) (phase_p phase_p' phase_q : Phase)
    → Safe q p before phase_q (owns phase_p)
    → Safe p q after phase_p' (owns phase_q)
    → Safe q p after phase_q (owns phase_p')
other-Safe p q before after phase_p phase_p' phase_q s t =
    ground (arith, Live-swap p q after, Bool-cases (owns phase_p'))

interleave-BothSafe :
    (p q : Process) (rule_p rule_q : Text)
    → TrustEachOther p q rule_p rule_q
    → (moves : List (Bool × Option Error)) (state : Disk × Phase × Phase) → BothSafe p q state
    → BothSafe p q (interleave p q rule_p rule_q moves state)
interleave-BothSafe p q rule_p rule_q trust [] state safe = safe
interleave-BothSafe p q rule_p rule_q trust ((true, fault) ∷ moves) (d, phase_p, phase_q)
      (safe_p, safe_q) =
    let r = step p rule_p fault d phase_p in
    let safe_p' = step-Safe p q rule_p trust.0 trust.1 fault d phase_p (owns phase_q) safe_p in
    interleave-BothSafe p q rule_p rule_q trust moves (r.0, r.1, phase_q)
      (safe_p', other-Safe p q d.file r.0.file phase_p r.1 phase_q safe_q safe_p')
interleave-BothSafe p q rule_p rule_q trust ((false, fault) ∷ moves) (d, phase_p, phase_q)
      (safe_p, safe_q) =
    let r = step q rule_q fault d phase_q in
    let safe_q' = step-Safe q p rule_q trust.2 trust.3 fault d phase_q (owns phase_p) safe_q in
    interleave-BothSafe p q rule_p rule_q trust moves (r.0, phase_p, r.1)
      (other-Safe q p d.file r.0.file phase_q r.1 phase_p safe_p safe_q', safe_q')

Acquired-owns : (phase : Phase) → Acquired phase → owns phase ≡ true
Acquired-owns phase (own, e) = rw e refl

-- Two processes that trust each other's records call Acquire at once, neither holds the lock before,
-- and the file, if there is one, holds no record that is stale for one of them. Then in no
-- interleaving of their accesses, with whatever faults, do both calls succeed.
pub interleave-exclusive :
    (p q : Process) (rule_p rule_q : Text) (d : Disk) (moves : List (Bool × Option Error))
    → TrustEachOther p q rule_p rule_q
    → Live p q d.file
    → let after =
        interleave p q rule_p rule_q moves (d, Phase.checking none, Phase.checking none) in
      ¬ (Acquired after.1 × Acquired after.2)
interleave-exclusive p q rule_p rule_q d moves trust live (a, b) =
    let after = interleave p q rule_p rule_q moves (d, Phase.checking none, Phase.checking none) in
    let safe =
      interleave-BothSafe p q rule_p rule_q trust moves
        (d, Phase.checking none, Phase.checking none) ground (arith, Live-swap p q d.file live) in
    ground (arith, safe, Acquired-owns after.1 a, Acquired-owns after.2 b)
