-- ===== src/Conflict/Outcome.antt =====
-- What `Resolve` of internal/core/conflict/resolver.go chooses.
use syncrules.Prelude.{Text, text_eq, nat_eq, some, [], ◌≡◌, ◌≢◌, ◌⊎◌, ◌↔◌, ◌<◌, arith, text_facts}
use syncrules.Domain.{
  FileInfo, keep_newest, copy, conflict, skip, SyncDirection, source_to_target, target_to_source,
  SyncAction,
}
use syncrules.Conflict.{resolve}

abbrev pub opposite : SyncDirection → SyncDirection
opposite source_to_target = target_to_source
opposite target_to_source = source_to_target

-- The file that a copy in this direction keeps, and the one that it overwrites.
abbrev pub winner : SyncDirection → FileInfo → FileInfo → FileInfo
winner source_to_target s t = s
winner target_to_source s t = t

-- A modified pair under "keep newest": the newer file is copied over the older one, and equal times
-- with different sizes are left as a conflict.
pub record NewestWins (s t : FileInfo) (a : SyncAction) : Type 0 where
  pub copy_is_newer :
      a.type ≡ copy
      → (winner (opposite a.direction) s t).mod_time < (winner a.direction s t).mod_time
  pub conflict_iff : (a.type ≡ conflict) ↔ ((s.mod_time ≡ t.mod_time) × (s.size ≢ t.size))
  pub three_outcomes : (a.type ≡ copy) ⊎ (a.type ≡ skip) ⊎ (a.type ≡ conflict)
  pub both_infos : (a.source_info ≡ some s) × (a.target_info ≡ some t)

pub resolve-NewestWins :
    (path : Text) (s t : FileInfo)
    → (s.checksum ≡ []) ⊎ (s.checksum ≢ t.checksum)
    → NewestWins s t (resolve keep_newest path (some s) (some t))
unfolding resolve
resolve-NewestWins path s t h = ground (arith, text_facts s.checksum t.checksum)
