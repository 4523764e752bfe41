-- ===== src/Planner/TwoWay/Winners.antt =====
-- Which file `PlanTwoWay` of internal/core/planner/planner.go copies over the other, by the rule's strategy.
use syncrules.Prelude.{
  Text, text_eq, nat_eq, Bool, Option, none, some, [], ◌<◌, ◌≡◌, ◌≢◌, ◌⊎◌, arith, text_facts,
  if◌then◌else◌,
}
use syncrules.Prelude.Dict.{Dict, lookup}
use syncrules.Domain.{
  FileInfo, is_dir, regular, directory, file_type_iff, SyncAction, SyncRule, copy, mkdir, conflict,
  skip, source_to_target, target_to_source, ConflictStrategy, keep_remote, keep_newest,
}
use syncrules.Diff.Content.{SameContent, compare-SameContent}
use syncrules.Conflict.{resolve}
use syncrules.Planner.TwoWay.{two_way_cases, two_way_step}
use syncrules.Planner.TwoWay.Actions.{two_way_cases-path}

-- Two regular files that `Compare` finds modified.
abbrev pub Differ : FileInfo → FileInfo → Type 0
Differ f t = (f.type ≡ regular) × (t.type ≡ regular) × (¬ SameContent f t)

-- Under "keep newest" files with one checksum are left as they are.
abbrev pub SumsDiffer : FileInfo → FileInfo → Type 0
SumsDiffer f t = (f.checksum ≡ []) ⊎ (f.checksum ≢ t.checksum)

-- Which of two modified files is copied over the other.
abbrev pub SourceWins : ConflictStrategy → FileInfo → FileInfo → Type 0
SourceWins strategy f t =
    (strategy ≡ keep_remote)
    ⊎ ((strategy ≡ keep_newest) × (t.mod_time < f.mod_time) × SumsDiffer f t)

abbrev pub TargetWins : ConflictStrategy → FileInfo → FileInfo → Type 0
TargetWins strategy f t = (strategy ≡ keep_newest) × (f.mod_time < t.mod_time) × SumsDiffer f t

-- The action, or none, for a path that both sides have, by who wins.
abbrev pub Verdict : ConflictStrategy → FileInfo → FileInfo → Option SyncAction → Type 0
Verdict strategy f t none = Differ f t → (¬ SourceWins strategy f t) × (¬ TargetWins strategy f t)
Verdict strategy f t (some a) =
    (Differ f t × SourceWins strategy f t × (a.type ≡ copy) × (a.direction ≡ source_to_target))
    ⊎ ((Differ f t × TargetWins strategy f t × (a.type ≡ copy) × (a.direction ≡ target_to_source))
        ⊎ (((a.type ≡ skip) ⊎ (a.type ≡ conflict))
            × (Differ f t → (¬ SourceWins strategy f t) × (¬ TargetWins strategy f t))))

resolve-Verdict :
    (strategy : ConflictStrategy) (path : Text) (f t : FileInfo)
    → Differ f t
    → Verdict strategy f t (some (resolve strategy path (some f) (some t)))
unfolding resolve
resolve-Verdict strategy path f t h = ground (arith, text_facts f.checksum t.checksum)

-- The type of the action for a path that one side does not have.
pub missing_folder :
    (f : FileInfo) → f.type ≡ directory → (if is_dir f then mkdir else copy) ≡ mkdir
missing_folder f e = ground (arith, file_type_iff f.type directory)

pub missing_file : (f : FileInfo) → f.type ≢ directory → (if is_dir f then mkdir else copy) ≡ copy
missing_file f n = ground (arith, file_type_iff f.type directory)

module _ (glob : Text → Text → Option Bool) (rule : SyncRule) where
  pub cases-Verdict :
      (path : Text) (f t : FileInfo)
      → Verdict rule.conflict_strategy f t (two_way_cases glob rule path (some f) (some t))
  unfolding two_way_cases
  cases-Verdict path f t = ground (
    arith,
    compare-SameContent f t,
    file_type_iff f.type t.type,
    resolve-Verdict rule.conflict_strategy path f t,
  )

  pub step-path :
      (s t : Dict FileInfo) (path : Text) (a : SyncAction)
      → two_way_step glob rule s t path ≡ some a
      → a.path ≡ path
  unfolding two_way_step
  step-path s t path a h =
      ground (arith, two_way_cases-path glob rule path (lookup path s) (lookup path t) a)
