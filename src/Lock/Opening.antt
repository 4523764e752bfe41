-- ===== src/Lock/Opening.antt =====
-- `NewFileLock` of internal/lock/lock.go.
use syncrules.Prelude.{
  ℕ, ◌*◌, Text, codes, Bool, true, false, Option, none, some, [], ◌∷◌, Result, ok, err, ◌≡◌, refl,
  inl, inr, Result-cases, Option-cases,
}
use syncrules.Paths.{join_all}
use syncrules.Domain.{Error, wrapped}
use syncrules.Lock.{LockFailure, held, failure}
use syncrules.Lock.Access.{LockInfo}

abbrev lock_file_name : Text
lock_file_name = codes ".syncrules.lock"

-- In nanoseconds.
abbrev default_stale_timeout : ℕ
default_stale_timeout = 30 * 60 * 1000000000

pub record FileLock : Type 0 where
  pub lock_path : Text
  pub stale_timeout : ℕ
  pub info : Option LockInfo

abbrev pub set_stale_timeout : ℕ → FileLock → FileLock
set_stale_timeout d l = record l { stale_timeout = d }

-- The directory, from what `os.UserConfigDir` gives.
lock_dir_or : Result Error Text → Text → Result Error Text
unfolding join_all
lock_dir_or config_dir [] = elim config_dir [
  | err e ↦ err (wrapped (codes "failed to get config dir") e)
  | ok d ↦ ok (join_all (d ∷ codes "syncrules" ∷ []))
]
lock_dir_or config_dir (c ∷ dir) = ok (c ∷ dir)

-- From `os.MkdirAll` on.
in_dir : {W : Type 0} → (W → Text → W × Option Error) → Text → W → W × Result Error FileLock
unfolding join_all
in_dir mkdir_all dir w =
    let (w1, failed) = mkdir_all w dir in
    elim failed [
      | some e ↦ (w1, err (wrapped (codes "failed to create lock directory") e))
      | none ↦ (
        w1,
        ok (record {
          lock_path = join_all (dir ∷ lock_file_name ∷ []);
          stale_timeout = default_stale_timeout;
          info = none;
        }),
      )
    ]

-- `NewFileLock`
unfoldable pub new_file_lock :
    {W : Type 0}
    → (W → Text → W × Option Error)
    → Result Error Text
    → Text
    → W
    → W × Result Error FileLock
unfolding lock_dir_or in_dir
new_file_lock mkdir_all config_dir dir w = elim (lock_dir_or config_dir dir) [
  | err e ↦ (w, err e)
  | ok d ↦ in_dir mkdir_all d w
]

-- `IsLockError`
abbrev pub is_lock_error : LockFailure → Bool
is_lock_error (held _ _) = true
is_lock_error (failure _) = false

-- What making a directory leaves alone, NewFileLock leaves alone.
pub new_file_lock-keeps :
    {W A : Type 0} (seen : W → A) (mkdir_all : W → Text → W × Option Error)
    (config_dir : Result Error Text) (dir : Text) (w : W)
    → ((w : W) (p : Text) → seen (mkdir_all w p).0 ≡ seen w)
    → seen (new_file_lock mkdir_all config_dir dir w).0 ≡ seen w
unfolding new_file_lock
new_file_lock-keeps seen mkdir_all config_dir dir w law =
    elim (Result-cases (lock_dir_or config_dir dir)) [
      | inr (x, e) ↦ rw (e, new_file_lock) refl
      | inl (d, e) ↦ elim (Option-cases (mkdir_all w d).1) [
        | inl f ↦ rw (e, new_file_lock, in_dir, f) (law w d)
        | inr (x, f) ↦ rw (e, new_file_lock, in_dir, f) (law w d)
      ]
    ]
