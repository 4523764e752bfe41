-- ===== src/Lock/Sequential.antt =====
-- internal/lock/lock.go: calls of one process with no other process in between.
use syncrules.Prelude.{
  ℕ, suc, ◌+◌, ◌≤◌, Text, text_eq, text_iff, nat_eq, nat_same_iff, codes, true, false, Option, none,
  some, ok, ◌≡◌, ◌≢◌, ◌⊎◌, inl, inr, refl, arith, Bool-cases,
}
use syncrules.Domain.{Error, already_exists, wrapped}
use syncrules.Lock.Access.{
  LockInfo, LockFile, Disk, Process, read_lock_info, encode, is_stale, is_held_by_this_instance,
  is_held_by_current_process,
}
use syncrules.Lock.{LockFailure, Phase, own_info, step, acquire, release, is_locked}

abbrev pub no_faults : ℕ → Option Error
no_faults n = none

-- There is no lock file, or it holds the record of a lock that the process takes for stale.
abbrev pub Free : Process → Disk → Type 0
Free p d = elim d.file [
  | none ↦ Unit
  | some f ↦ elim f.content [ none ↦ ⊥ | some info ↦ is_stale p info ≡ true ]
]

pub gone-Free : (p : Process) (d : Disk) → d.file ≡ none → Free p d
gone-Free p d h = ground arith

abbrev pub disk : Option LockFile → ℕ → Disk
disk file n = record { file = file; next_inode = n }

abbrev pub lock_file : ℕ → Option LockInfo → LockFile
lock_file i content = record { inode = i; content = content }

pub encode-same :
    (n m : ℕ) (info : LockInfo) (content : Option LockInfo)
    → encode none n info (disk (some (lock_file n content)) m)
      ≡ (disk (some (lock_file n (some info))) m, none)
unfolding encode
encode-same n m info content = rw ((nat_same_iff n n).1 refl) refl

acquire-absent :
    (p : Process) (rule : Text) (n : ℕ)
    → acquire p rule no_faults none (disk none n) ≡ (
      disk (some (lock_file n (some (own_info p rule)))) (suc n),
      Phase.finished (some (own_info p rule)) none,
    )
unfolding acquire step
acquire-absent p rule n = rw (encode-same n (suc n) (own_info p rule) none) refl

acquire-stale :
    (p : Process) (rule : Text) (i n : ℕ) (info : LockInfo)
    → is_stale p info ≡ true
    → acquire p rule no_faults none (disk (some (lock_file i (some info))) n) ≡ (
      disk (some (lock_file n (some (own_info p rule)))) (suc n),
      Phase.finished (some (own_info p rule)) none,
    )
unfolding acquire step
acquire-stale p rule i n info h = rw (h, encode-same n (suc n) (own_info p rule) none) refl

acquire-live :
    (p : Process) (rule : Text) (i n : ℕ) (info : LockInfo)
    → is_stale p info ≡ false
    → acquire p rule no_faults none (disk (some (lock_file i (some info))) n) ≡ (
      disk (some (lock_file i (some info))) n,
      Phase.finished none (some (LockFailure.held info (codes "lock is held by another process"))),
    )
unfolding acquire step
acquire-live p rule i n info h = rw h refl

acquire-corrupt :
    (p : Process) (rule : Text) (i n : ℕ)
    → acquire p rule no_faults none (disk (some (lock_file i none)) n) ≡ (
      disk (some (lock_file i none)) n,
      Phase.finished none (
          some (
            LockFailure.failure
              (wrapped (codes "lock acquisition race condition") already_exists))),
    )
unfolding acquire step
acquire-corrupt p rule i n = refl

-- The call succeeds, and the file holds the caller's record.
abbrev pub Taken : Process → Text → Disk × Phase → Type 0
Taken p rule r =
    (n : ℕ) × (m : ℕ) × (r ≡ (
      disk (some (lock_file n (some (own_info p rule)))) m,
      Phase.finished (some (own_info p rule)) none,
    ))

-- The call gives an error, and the disk is as it was.
abbrev pub Refused : Disk → Disk × Phase → Type 0
Refused d r = (e : LockFailure) × (r ≡ (d, Phase.finished none (some e)))

abbrev pub Admits : Process → Text → Disk → Type 0
Admits p rule d =
    (Free p d → Taken p rule (acquire p rule no_faults none d))
    × ((¬ Free p d) → Refused d (acquire p rule no_faults none d))

content-Admits :
    (p : Process) (rule : Text) (i : ℕ) (content : Option LockInfo) (n : ℕ)
    → Admits p rule (disk (some (lock_file i content)) n)
content-Admits p rule i none n = (λ h. absurd h, λ _. (_, acquire-corrupt p rule i n))
content-Admits p rule i (some info) n = elim (Bool-cases (is_stale p info)) [
  | inl e ↦ (λ _. (n, suc n, acquire-stale p rule i n info e), λ h. absurd (h e))
  | inr e ↦ (λ h. cc, λ _. (_, acquire-live p rule i n info e))
]

file-Admits :
    (p : Process) (rule : Text) (file : Option LockFile) (n : ℕ) → Admits p rule (disk file n)
file-Admits p rule none n = (λ _. (n, suc n, acquire-absent p rule n), λ h. absurd (h tt))
file-Admits p rule (some f) n = content-Admits p rule f.inode f.content n

-- A call on a lock that is not held succeeds where the file is free, and leaves a file with the
-- caller's record; elsewhere it gives an error and leaves the disk alone.
pub acquire-Free : (p : Process) (rule : Text) (d : Disk) → Admits p rule d
acquire-Free p rule d = file-Admits p rule d.file d.next_inode

own_is_held :
    (p : Process) (rule : Text)
    → is_held_by_this_instance p (some (own_info p rule)) (own_info p rule) ≡ true
unfolding is_held_by_this_instance is_held_by_current_process
own_is_held p rule = ground (
  arith,
  nat_same_iff p.pid p.pid,
  nat_same_iff p.now p.now,
  text_iff p.hostname p.hostname,
  text_iff rule rule,
)

pub release_own :
    (p : Process) (rule : Text) (i n : ℕ)
    → release p none none
        (some (own_info p rule))
        (disk (some (lock_file i (some (own_info p rule)))) n)
      ≡ (disk none n, none, none)
unfolding release
release_own p rule i n = rw (own_is_held p rule) refl

-- The time that a record stands for has not run out for another process: on the same host the process of the
-- record exists; on another one the timeout has not passed since its start.
abbrev pub Stands : Process → LockInfo → Type 0
Stands q info =
    ((info.hostname ≡ q.hostname) × (q.process_exists info.pid ≡ true))
    ⊎ ((info.hostname ≢ q.hostname) × (q.now ≤ info.start_time + q.stale_timeout))

Stands-is_stale : (q : Process) (info : LockInfo) → Stands q info → is_stale q info ≡ false
unfolding is_stale
Stands-is_stale q info h = ground (arith, text_iff info.hostname q.hostname)

-- Where no access to the file meets a fault and no other process acts in between: a call of a process that
-- finds no lock file, or a stale record, takes the lock. Then another process for which the new record
-- stands finds the lock held, by this process and for this rule, and its own call gives an error and leaves
-- the file alone. After the release, which gives no error, the file is gone, the other process no longer
-- finds the lock held, and its call takes it.
pub acquire-release :
    (p q : Process) (rule other_rule : Text) (d : Disk)
    → Free p d
    → Stands q (own_info p rule)
    → let r = acquire p rule no_faults none d in
      let s = release p none none (some (own_info p rule)) r.0 in
      (r.1 ≡ Phase.finished (some (own_info p rule)) none)
      × (is_locked q none r.0 ≡ true)
      × (read_lock_info none r.0 ≡ ok (own_info p rule))
      × Refused r.0 (acquire q other_rule no_faults none r.0)
      × (s.0.file ≡ none)
      × (s.1 ≡ none)
      × (s.2 ≡ none)
      × (is_locked q none s.0 ≡ false)
      × Taken q other_rule (acquire q other_rule no_faults none s.0)
unfolding is_locked read_lock_info
acquire-release p q rule other_rule d free stands =
    let (n, m, e) = (acquire-Free p rule d).0 free in
    let fresh = Stands-is_stale q (own_info p rule) stands in
    rw e (
      rw (release_own p rule n m) (
        refl,
        rw (fresh, is_locked) refl,
        refl,
        (acquire-Free q other_rule (disk (some (lock_file n (some (own_info p rule)))) m)).1
            (λ f. absurd (ground arith)),
        refl,
        refl,
        refl,
        refl,
        (acquire-Free q other_rule (disk none m)).0 tt,
      ))

-- `Release` leaves the file alone unless it holds the record of this very lock, whatever faults it meets.
pub release-own_only :
    (p : Process) (read_fault remove_fault : Option Error) (own : Option LockInfo) (d : Disk)
    → ((release p read_fault remove_fault own d).0 ≡ d)
      ⊎ ((info : LockInfo) × (read_lock_info none d ≡ ok info)
          × (is_held_by_this_instance p own info ≡ true))
unfolding release read_lock_info
release-own_only p read_fault remove_fault own d = ground arith
