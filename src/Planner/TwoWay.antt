-- ===== src/Planner/TwoWay.antt =====
-- `PlanTwoWay` of internal/core/planner/planner.go.
pub mod Actions
pub mod Plans
pub mod Winners
use syncrules.Prelude.{
  Text, String, Bool, true, false, not, Option, none, some, List, [], ◌∷◌, ◌++◌, ◌==◌, ◌&&◌,
  if◌then◌else◌,
}
use syncrules.Prelude.Dict.{Dict, lookup, insert}
use syncrules.Domain.{
  file_type_eq, FileInfo, is_dir, is_file, copy, mkdir, conflict, SyncDirection, source_to_target,
  target_to_source, SyncAction, SyncPlan, SyncRule,
}
use syncrules.Diff.{compare}
use syncrules.Conflict.{resolve}
use syncrules.Planner.Ignore.{should_ignore}
use syncrules.Planner.Loop.{collect}
use syncrules.Planner.Order.{sort_actions}
use syncrules.Planner.Stats.{zero_stats, calculate_stats}
use syncrules.Planner.OneWay.{is_modified}

-- `allPaths[path] = true` for every key of a map.
add_paths : Dict FileInfo → Dict Bool → Dict Bool
add_paths [] paths = paths
add_paths ((path, _) ∷ rest) paths = add_paths rest (insert path true paths)

unfoldable pub all_paths : Dict FileInfo → Dict FileInfo → Dict Bool
unfolding add_paths
all_paths source_map target_map = add_paths target_map (add_paths source_map [])

source_only : Text → FileInfo → SyncAction
source_only path src = record {
  type = if is_dir src then mkdir else copy;
  direction = source_to_target;
  path = path;
  source_info = some src;
  target_info = none;
  reason = if is_dir src then "directory only exists on source" else "file only exists on source";
}

target_only : Text → FileInfo → SyncAction
target_only path tgt = record {
  type = if is_dir tgt then mkdir else copy;
  direction = target_to_source;
  path = path;
  source_info = none;
  target_info = some tgt;
  reason = if is_dir tgt then "directory only exists on target" else "file only exists on target";
}

module _ (glob : Text → Text → Option Bool) (rule : SyncRule) where
  -- What the loop appends for a path that both sides have.
  two_way_both : Text → FileInfo → FileInfo → Option SyncAction
  two_way_both path src tgt =
      if not (src.type == tgt.type)
      then some (record {
        type = conflict;
        direction = source_to_target;
        path = path;
        source_info = some src;
        target_info = some tgt;
        reason = "type mismatch: file vs directory";
      })
      else if is_file src && is_file tgt && is_modified (compare (some src) (some tgt))
      then some (resolve rule.conflict_strategy path (some src) (some tgt))
      else none

  -- The switch; a path that neither side has meets no case.
  unfoldable pub two_way_cases : Text → Option FileInfo → Option FileInfo → Option SyncAction
  unfolding two_way_both source_only target_only
  two_way_cases path none none = none
  two_way_cases path (some src) none = some (source_only path src)
  two_way_cases path none (some tgt) = some (target_only path tgt)
  two_way_cases path (some src) (some tgt) = two_way_both path src tgt

  -- The body of the loop.
  unfoldable pub two_way_step : Dict FileInfo → Dict FileInfo → Text → Option SyncAction
  unfolding two_way_cases
  two_way_step source_map target_map path =
      if should_ignore glob path rule.ignore_patterns
      then none
      else two_way_cases path (lookup path source_map) (lookup path target_map)

  -- The actions before they are sorted.
  pub two_way_actions : Dict FileInfo → Dict FileInfo → List SyncAction
  unfolding two_way_step all_paths
  two_way_actions source_map target_map =
      collect (λ path _. two_way_step source_map target_map path) (all_paths source_map target_map)

  unfoldable pub plan_two_way : Dict FileInfo → Dict FileInfo → SyncPlan
  unfolding two_way_actions collect
  plan_two_way source_map target_map = calculate_stats (record {
    rule_name = rule.name;
    actions = sort_actions (two_way_actions source_map target_map);
    conflicts = [];
    stats = zero_stats;
  })
