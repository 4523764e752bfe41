-- ===== src/Planner/OneWay.antt =====
-- `PlanOneWay` of internal/core/planner/planner.go.
pub mod Actions
pub mod Plans
use syncrules.Prelude.{
  Text, String, Bool, true, false, not, Option, none, some, List, [], ◌∷◌, ◌++◌, ◌==◌, ◌&&◌,
  if◌then◌else◌,
}
use syncrules.Prelude.Dict.{Dict, lookup}
use syncrules.Domain.{
  file_type_eq, FileInfo, is_dir, is_file, ActionType, copy, delete, mkdir, conflict, SyncDirection,
  SyncAction, SyncPlan, SyncRule,
}
use syncrules.Diff.{DiffResult, file_modified, compare}
use syncrules.Planner.Ignore.{should_ignore}
use syncrules.Planner.Loop.{collect}
use syncrules.Planner.Order.{sort_actions}
use syncrules.Planner.Stats.{zero_stats, calculate_stats}

abbrev pub is_modified : DiffResult → Bool
is_modified file_modified = true
is_modified _ = false

-- What the first loop appends for a path that both sides have.
unfoldable pub one_way_both : SyncDirection → Text → FileInfo → FileInfo → Option SyncAction
one_way_both direction path from to =
    if not (from.type == to.type)
    then some (record {
      type = conflict;
      direction = direction;
      path = path;
      source_info = some from;
      target_info = some to;
      reason = "type mismatch: file vs directory";
    })
    else if is_file from && is_file to && is_modified (compare (some from) (some to))
    then some (record {
      type = copy;
      direction = direction;
      path = path;
      source_info = some from;
      target_info = some to;
      reason = "file modified";
    })
    else none

-- What it appends for a path that only "from" has.
unfoldable pub one_way_missing : SyncDirection → Text → FileInfo → SyncAction
one_way_missing direction path from = record {
  type = if is_dir from then mkdir else copy;
  direction = direction;
  path = path;
  source_info = some from;
  target_info = none;
  reason = if is_dir from then "directory does not exist" else "file does not exist";
}

unfoldable pub one_way_delete : SyncDirection → Text → FileInfo → SyncAction
one_way_delete direction path to = record {
  type = delete;
  direction = direction;
  path = path;
  source_info = none;
  target_info = some to;
  reason = "file does not exist on source";
}

module _ (glob : Text → Text → Option Bool) (rule : SyncRule) (direction : SyncDirection) where
  -- The body of the first loop.
  update_step : Dict FileInfo → Text → FileInfo → Option SyncAction
  unfolding one_way_both one_way_missing
  update_step to_map path from =
      if should_ignore glob path rule.ignore_patterns then none else elim (lookup path to_map) [
        | none ↦ some (one_way_missing direction path from)
        | some to ↦ one_way_both direction path from to
      ]

  -- The body of the second loop.
  delete_step : Dict FileInfo → Text → FileInfo → Option SyncAction
  unfolding one_way_delete
  delete_step from_map path to =
      if should_ignore glob path rule.ignore_patterns then none else elim (lookup path from_map) [
        | none ↦ some (one_way_delete direction path to)
        | some _ ↦ none
      ]

  -- The actions before they are sorted.
  pub one_way_actions : Dict FileInfo → Dict FileInfo → List SyncAction
  unfolding update_step delete_step
  one_way_actions from_map to_map =
      collect (update_step to_map) from_map ++ collect (delete_step from_map) to_map

  unfoldable pub plan_one_way : Dict FileInfo → Dict FileInfo → SyncPlan
  unfolding one_way_actions collect
  plan_one_way from_map to_map = calculate_stats (record {
    rule_name = rule.name;
    actions = sort_actions (one_way_actions from_map to_map);
    conflicts = [];
    stats = zero_stats;
  })
