-- ===== src/Tests/Planning.antt =====
-- Plans over the sample maps.
use syncrules.Prelude.{
  Text, codes, text_beq, text_ne, false, none, some, List, [], ◌∷◌, map, ◌≡◌, refl, ◌↔◌, Member,
}
use syncrules.Prelude.Dict.{NodupKeys, lookup}
use syncrules.Domain.{
  file_type_beq, SyncAction, SyncPlan, copy, delete, mkdir, source_to_target, ActionType,
}
use syncrules.Diff.{compare}
use syncrules.Planner.Ignore.{should_ignore}
use syncrules.Planner.OneWay.{plan_one_way}
use syncrules.Planner.OneWay.Actions.{planned}
use syncrules.Planner.OneWay.Plans.{InSync, Member-plan_one_way, plan_one_way-InSync}
use syncrules.Planner.Order.{sort_actions, less}
use syncrules.Planner.Order.Sorted.{IsSorted, DistinctPaths}
use syncrules.Planner.Stats.{calculate_stats}
use syncrules.Planner.TwoWay.{plan_two_way}
use syncrules.Planner.TwoWay.Plans.{plan_two_way-InSync}
use syncrules.Planner.WellFormed.{
  IsWellFormed, plan_one_way-IsWellFormed, plan_two_way-IsWellFormed,
}
use syncrules.Tests.Samples.{exact, rule, source, target, dir_a, file_c}

abbrev pub push_deletion : SyncAction
push_deletion = record {
  type = delete;
  direction = source_to_target;
  path = codes "c";
  source_info = none;
  target_info = some file_c;
  reason = "file does not exist on source";
}

abbrev pub push_mkdir : SyncAction
push_mkdir = record {
  type = mkdir;
  direction = source_to_target;
  path = codes "a";
  source_info = some dir_a;
  target_info = none;
  reason = "directory does not exist";
}

push_plan : SyncPlan
unfolding plan_one_way calculate_stats sort_actions should_ignore text_beq lookup file_type_beq
    compare
push_plan = plan_one_way exact rule source_to_target source target

abbrev outline : SyncAction → ActionType × Text
outline a = (a.type, a.path)

push_actions :
    map outline push_plan.actions
    ≡ (mkdir, codes "a") ∷ (copy, codes "a/b") ∷ (delete, codes "c") ∷ []
unfolding push_plan
push_actions = refl

source-NodupKeys : NodupKeys source
unfolding lookup text_beq
source-NodupKeys = (refl, (refl, (refl, tt)))

target-NodupKeys : NodupKeys target
unfolding lookup text_beq
target-NodupKeys = (refl, (refl, tt))

Member-plan_one_way_example :
    Member (push_deletion) (plan_one_way exact rule source_to_target source target).actions
    ↔ (planned exact rule source_to_target source target (codes "c") ≡ some push_deletion)
Member-plan_one_way_example =
    Member-plan_one_way exact rule source_to_target source target push_deletion source-NodupKeys
      target-NodupKeys

plan_one_way-InSync_example :
    ((plan_one_way exact rule source_to_target source target).actions ≡ []) ↔ (
      (path : Text)
      → should_ignore exact path rule.ignore_patterns ≡ false
      → InSync (lookup path source) (lookup path target))
plan_one_way-InSync_example =
    plan_one_way-InSync exact rule source_to_target source target source-NodupKeys target-NodupKeys

plan_two_way-InSync_example : ((plan_two_way exact rule source target).actions ≡ []) ↔ (
    (path : Text)
    → should_ignore exact path rule.ignore_patterns ≡ false
    → InSync (lookup path source) (lookup path target))
plan_two_way-InSync_example = plan_two_way-InSync exact rule source target

plan_one_way-IsWellFormed_example :
    IsWellFormed (plan_one_way exact rule source_to_target source target)
plan_one_way-IsWellFormed_example =
    plan_one_way-IsWellFormed exact rule source_to_target source target source-NodupKeys
      target-NodupKeys

plan_two_way-IsWellFormed_example : IsWellFormed (plan_two_way exact rule source target)
plan_two_way-IsWellFormed_example = plan_two_way-IsWellFormed exact rule source target

abbrev unsorted : List SyncAction
unsorted = push_deletion ∷ push_mkdir ∷ []

abbrev ordered : List SyncAction
ordered = push_mkdir ∷ push_deletion ∷ []

unsorted-DistinctPaths : DistinctPaths unsorted
unfolding text_beq
unsorted-DistinctPaths = ((text_ne _ _ refl, tt), (tt, tt))

ordered-DistinctPaths : DistinctPaths ordered
unfolding text_beq
ordered-DistinctPaths = ((text_ne _ _ refl, tt), (tt, tt))

ordered-IsSorted : IsSorted ordered
unfolding less
ordered-IsSorted = ((refl, tt), (tt, tt))
