-- ===== src/Tests/Locks.antt =====
-- Runs and instances of the lock.
use syncrules.Prelude.{
  inl, ok, ℕ, codes, text_beq, true, false, none, some, [], ◌∷◌, ◌≡◌, refl, ltb,
}
use syncrules.Domain.{timeout}
use syncrules.Lock.Access.{LockInfo, Disk, Process, read_lock_info, is_stale}
use syncrules.Lock.{Phase, own_info, acquire, release, is_locked}
use syncrules.Lock.Sequential.{no_faults, Taken, Refused, acquire-release, disk}
use syncrules.Lock.Exclusion.{interleave, Acquired, interleave-exclusive}
use syncrules.Lock.Race.{both_remove, stale_disk, interleave-race}

-- Only the processes below 10 run.
abbrev pub laptop : ℕ → Process
laptop pid = record {
  pid = pid;
  hostname = codes "laptop";
  now = 1000;
  process_exists = λ n. ltb n 10;
  stale_timeout = 60;
}

abbrev pub absent : Disk
absent = disk none 5

abbrev crashed : LockInfo
crashed = record { pid = 99; hostname = codes "laptop"; start_time = 10; rule_name = codes "docs" }

acquire-release_example :
    let r = acquire (laptop 1) (codes "docs") no_faults none absent in
    let s = release (laptop 1) none none (some (own_info (laptop 1) (codes "docs"))) r.0 in
    (r.1 ≡ Phase.finished (some (own_info (laptop 1) (codes "docs"))) none)
    × (is_locked (laptop 2) none r.0 ≡ true)
    × (read_lock_info none r.0 ≡ ok (own_info (laptop 1) (codes "docs")))
    × Refused r.0 (acquire (laptop 2) (codes "pics") no_faults none r.0)
    × (s.0.file ≡ none)
    × (s.1 ≡ none)
    × (s.2 ≡ none)
    × (is_locked (laptop 2) none s.0 ≡ false)
    × Taken (laptop 2) (codes "pics") (acquire (laptop 2) (codes "pics") no_faults none s.0)
acquire-release_example =
    acquire-release (laptop 1) (laptop 2) (codes "docs") (codes "pics") absent tt (inl (refl, refl))

interleave-exclusive_example :
    let after =
      interleave
        (laptop 1)
        (laptop 2)
        (codes "docs")
        (codes "pics")
        ((true, none) ∷ (false, none) ∷ (true, none) ∷ (false, none) ∷ (true, some timeout) ∷ [])
        (absent, Phase.checking none, Phase.checking none) in
    ¬ (Acquired after.1 × Acquired after.2)
unfolding is_stale text_beq
interleave-exclusive_example =
    interleave-exclusive (laptop 1) (laptop 2) (codes "docs") (codes "pics") absent
      ((true, none) ∷ (false, none) ∷ (true, none) ∷ (false, none) ∷ (true, some timeout) ∷ [])
      (refl, refl, refl, refl) tt

interleave-race_example :
    let after =
      interleave
        (laptop 1)
        (laptop 2)
        (codes "docs")
        (codes "pics")
        both_remove
        (stale_disk crashed 3 4, Phase.checking none, Phase.checking none) in
    Acquired after.1 × Acquired after.2
unfolding is_stale text_beq
interleave-race_example =
    interleave-race (laptop 1) (laptop 2) (codes "docs") (codes "pics") crashed 3 4 refl refl
