-- ===== src/Planner/WellFormed.antt =====
-- What holds of every plan of internal/core/planner/planner.go.
use syncrules.Prelude.{Text, Bool, Option, List, ◌≡◌}
use syncrules.Prelude.Dict.{Dict, NodupKeys}
use syncrules.Domain.{FileInfo, SyncAction, SyncDirection, SyncPlan, SyncRule}
use syncrules.Planner.OneWay.{plan_one_way, one_way_actions}
use syncrules.Planner.OneWay.Actions.{
  one_way_actions-DistinctPaths, plan_one_way-actions, plan_one_way-Counted,
}
use syncrules.Planner.Order.{sort_actions}
use syncrules.Planner.Order.Sorted.{IsSorted, DistinctPaths, sort_actions_lem}
use syncrules.Planner.Order.Unique.{sort_actions-DistinctPaths}
use syncrules.Planner.Order.Parents.{ParentsSafe, sort_actions-ParentsSafe}
use syncrules.Planner.Stats.Counts.{Counted}
use syncrules.Planner.TwoWay.{plan_two_way, two_way_actions}
use syncrules.Planner.TwoWay.Actions.{
  two_way_actions-DistinctPaths, plan_two_way-actions, plan_two_way-Counted,
}

-- The actions are sorted, make parents first, touch each path once, and are counted.
pub record IsWellFormed (p : SyncPlan) : Type 0 where
  pub sorted : IsSorted p.actions
  pub parents : ParentsSafe p.actions
  pub distinct : DistinctPaths p.actions
  pub counted : Counted p

of_sort_actions :
    (p : SyncPlan) (actions : List SyncAction)
    → p.actions ≡ sort_actions actions
    → DistinctPaths actions
    → Counted p
    → IsWellFormed p
of_sort_actions p actions e d c = record {
  sorted = rw e (sort_actions_lem actions).0;
  parents = rw e (sort_actions-ParentsSafe actions);
  distinct = rw e (sort_actions-DistinctPaths actions d);
  counted = c;
}

module _ (glob : Text → Text → Option Bool) (rule : SyncRule) where
  -- A one-way plan is sorted, makes each directory before it touches what lies below it, deletes each
  -- directory after what lies below it, has one action for a path at most, and its statistics and its
  -- list of conflicts are those of its actions.
  pub plan_one_way-IsWellFormed :
      (direction : SyncDirection) (from_map to_map : Dict FileInfo)
      → NodupKeys from_map
      → NodupKeys to_map
      → IsWellFormed (plan_one_way glob rule direction from_map to_map)
  plan_one_way-IsWellFormed direction from_map to_map u v =
      of_sort_actions _ (one_way_actions glob rule direction from_map to_map)
        (plan_one_way-actions glob rule direction from_map to_map)
        (one_way_actions-DistinctPaths glob rule direction from_map to_map u v)
        (plan_one_way-Counted glob rule direction from_map to_map)

  -- So is a two-way plan.
  pub plan_two_way-IsWellFormed : (s t : Dict FileInfo) → IsWellFormed (plan_two_way glob rule s t)
  plan_two_way-IsWellFormed s t =
      of_sort_actions _ (two_way_actions glob rule s t) (plan_two_way-actions glob rule s t)
        (two_way_actions-DistinctPaths glob rule s t) (plan_two_way-Counted glob rule s t)
