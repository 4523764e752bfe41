-- ===== src/Lock/Race.antt =====
-- internal/lock/lock.go: two processes that find a stale lock at once.
use syncrules.Prelude.{
  ℕ, suc, Text, text_eq, nat_eq, Bool, true, false, Option, none, some, List, [], ◌∷◌, ◌≡◌, refl,
}
use syncrules.Domain.{Error}
use syncrules.Lock.Access.{LockInfo, Disk, Process, is_stale}
use syncrules.Lock.{Phase, own_info, step}
use syncrules.Lock.Exclusion.{interleave, Acquired}
use syncrules.Lock.Sequential.{encode-same}

-- Both processes read the file; the first replaces it; the second removes the new file and makes its own.
abbrev pub both_remove : List (Bool × Option Error)
both_remove =
    (true, none)
    ∷ (false, none)
    ∷ (true, none)
    ∷ (true, none)
    ∷ (true, none)
    ∷ (false, none)
    ∷ (false, none)
    ∷ (false, none)
    ∷ []

abbrev pub stale_disk : LockInfo → ℕ → ℕ → Disk
stale_disk info i n = record {
  file = some (record { inode = i; content = some info });
  next_inode = n;
}

-- Whatever stale record the file holds, two processes that both take it for stale can both succeed,
-- although neither takes the other's record for stale.
pub interleave-race :
    (p q : Process) (rule_p rule_q : Text) (info : LockInfo) (i n : ℕ)
    → is_stale p info ≡ true
    → is_stale q info ≡ true
    → let after =
        interleave p q rule_p rule_q both_remove
          (stale_disk info i n, Phase.checking none, Phase.checking none) in
      Acquired after.1 × Acquired after.2
unfolding step
interleave-race p q rule_p rule_q info i n stale_p stale_q =
    rw
      (
        stale_p,
        stale_q,
        encode-same n (suc n) (own_info p rule_p) none,
        encode-same (suc n) (suc (suc n)) (own_info q rule_q) none,
      )
      ((_, refl), (_, refl))
