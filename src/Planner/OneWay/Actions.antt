-- ===== src/Planner/OneWay/Actions.antt =====
-- Which actions `PlanOneWay` of internal/core/planner/planner.go plans, path by path.
use syncrules.Prelude.{
  Text, text_eq, Bool, Option, none, some, List, if◌then◌else◌, ◌≡◌, ◌≢◌, ◌⊎◌, ◌↔◌, arith, Member,
  Member-append,
}
use syncrules.Prelude.Dict.{Dict, lookup, NodupKeys}
use syncrules.Domain.{FileInfo, SyncAction, SyncDirection, SyncRule}
use syncrules.Planner.Ignore.{should_ignore}
use syncrules.Planner.Loop.{collect, at_key}
use syncrules.Planner.Loop.Members.{KeepsPath, Member-collect, collect-DistinctPaths}
use syncrules.Planner.OneWay.{
  one_way_both, one_way_missing, one_way_delete, update_step, delete_step, one_way_actions,
  plan_one_way,
}
use syncrules.Planner.Order.{sort_actions}
use syncrules.Planner.Order.Sorted.{DistinctPaths}
use syncrules.Planner.Order.Unique.{append-DistinctPaths}
use syncrules.Planner.Stats.Counts.{Counted, calculate_stats-Counted, calculate_stats-actions}

module _ (glob : Text → Text → Option Bool) (rule : SyncRule) (direction : SyncDirection) where
  -- The rule for one path, from what each side has there.
  unfoldable pub one_way_rule : Text → Option FileInfo → Option FileInfo → Option SyncAction
  unfolding one_way_both one_way_missing one_way_delete
  one_way_rule path none none = none
  one_way_rule path (some from) none = some (one_way_missing direction path from)
  one_way_rule path none (some to) = some (one_way_delete direction path to)
  one_way_rule path (some from) (some to) = one_way_both direction path from to

  update_step-KeepsPath :
      (to_map : Dict FileInfo) → KeepsPath (update_step glob rule direction to_map)
  unfolding update_step
  update_step-KeepsPath to_map path from a h = ground arith

  delete_step-KeepsPath :
      (from_map : Dict FileInfo) → KeepsPath (delete_step glob rule direction from_map)
  unfolding delete_step
  delete_step-KeepsPath from_map path to a h = ground arith

  -- The two loops together append the action of the rule.
  at_key-rule :
      (from_map to_map : Dict FileInfo) (path : Text) (a : SyncAction)
      → ((at_key (update_step glob rule direction to_map) from_map path ≡ some a)
          ⊎ (at_key (delete_step glob rule direction from_map) to_map path ≡ some a))
        ↔ ((if should_ignore glob path rule.ignore_patterns
              then none
              else one_way_rule path (lookup path from_map) (lookup path to_map))
            ≡ some a)
  unfolding update_step delete_step one_way_rule
  at_key-rule from_map to_map path a = ground arith

  -- What the plan holds for a path: nothing if it is ignored, else the action of the rule.
  unfoldable pub planned : Dict FileInfo → Dict FileInfo → Text → Option SyncAction
  unfolding one_way_rule
  planned from_map to_map path =
      if should_ignore glob path rule.ignore_patterns
      then none
      else one_way_rule path (lookup path from_map) (lookup path to_map)

  pub Member-one_way_actions :
      (from_map to_map : Dict FileInfo) (a : SyncAction)
      → NodupKeys from_map
      → NodupKeys to_map
      → Member a (one_way_actions glob rule direction from_map to_map)
        ↔ (planned from_map to_map a.path ≡ some a)
  unfolding one_way_actions planned
  Member-one_way_actions from_map to_map a u v = ground (
    arith,
    Member-append a (collect (update_step glob rule direction to_map) from_map)
        (collect (delete_step glob rule direction from_map) to_map),
    Member-collect (update_step glob rule direction to_map) (update_step-KeepsPath to_map) from_map
        a u,
    Member-collect (delete_step glob rule direction from_map) (delete_step-KeepsPath from_map)
        to_map a v,
    at_key-rule from_map to_map a.path a,
  )

  update_needs_key :
      (from_map to_map : Dict FileInfo) (path : Text) (a : SyncAction)
      → at_key (update_step glob rule direction to_map) from_map path ≡ some a
      → lookup path from_map ≢ none
  update_needs_key from_map to_map path a h = ground arith

  delete_needs_absence :
      (from_map to_map : Dict FileInfo) (path : Text) (a : SyncAction)
      → at_key (delete_step glob rule direction from_map) to_map path ≡ some a
      → lookup path from_map ≡ none
  unfolding delete_step
  delete_needs_absence from_map to_map path a h = ground arith

  pub one_way_actions-DistinctPaths :
      (from_map to_map : Dict FileInfo)
      → NodupKeys from_map
      → NodupKeys to_map
      → DistinctPaths (one_way_actions glob rule direction from_map to_map)
  unfolding one_way_actions
  one_way_actions-DistinctPaths from_map to_map u v =
      append-DistinctPaths updates deletes
        (collect-DistinctPaths (update_step glob rule direction to_map)
          (update_step-KeepsPath to_map) from_map u)
        (collect-DistinctPaths (delete_step glob rule direction from_map)
          (delete_step-KeepsPath from_map) to_map v)
        (λ a b ma mb e.
          update_needs_key from_map to_map a.path a
            ((Member-collect (update_step glob rule direction to_map) (update_step-KeepsPath to_map)
                from_map a u).0
              ma)
            (rw e (
              delete_needs_absence from_map to_map b.path b (
                (Member-collect (delete_step glob rule direction from_map)
                    (delete_step-KeepsPath from_map) to_map b v).0
                  mb))))
    where
      updates : List SyncAction
      updates = collect (update_step glob rule direction to_map) from_map

      deletes : List SyncAction
      deletes = collect (delete_step glob rule direction from_map) to_map

  pub plan_one_way-actions :
      (from_map to_map : Dict FileInfo)
      → (plan_one_way glob rule direction from_map to_map).actions
        ≡ sort_actions (one_way_actions glob rule direction from_map to_map)
  unfolding plan_one_way
  plan_one_way-actions from_map to_map = calculate_stats-actions _

  pub plan_one_way-Counted :
      (from_map to_map : Dict FileInfo) → Counted (plan_one_way glob rule direction from_map to_map)
  unfolding plan_one_way
  plan_one_way-Counted from_map to_map = calculate_stats-Counted rule.name _
