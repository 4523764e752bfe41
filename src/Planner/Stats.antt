-- ===== src/Planner/Stats.antt =====
-- `calculateStats` of internal/core/planner/planner.go.
pub mod Counts
use syncrules.Prelude.{ℕ, ◌+◌, ◌%◌, ◌^◌, Option, none, some, List, [], ◌∷◌, ◌++◌}
use syncrules.Domain.{
  FileInfo, ActionType, copy, delete, mkdir, conflict, skip, SyncAction, SyncPlan, SyncPlanStats,
}

-- The bit pattern of an int or an int64.
abbrev pub int64 : ℕ → ℕ
int64 n = n % 2 ^ 64

-- The size that a copy transfers, for the statistics and for the progress.
unfoldable pub action_size : SyncAction → ℕ
action_size a = elim a.source_info [
  | some info ↦ info.size
  | none ↦ elim a.target_info [ some info ↦ info.size | none ↦ 0 ]
]

abbrev pub zero_stats : SyncPlanStats
zero_stats = record {
  total_files = 0;
  files_to_copy = 0;
  files_to_delete = 0;
  dirs_to_create = 0;
  conflicts = 0;
  bytes_to_sync = 0;
}

count_type : ActionType → SyncAction → SyncPlanStats → SyncPlanStats
unfolding action_size
count_type copy a s = record s {
  files_to_copy = int64 (s.files_to_copy + 1);
  bytes_to_sync = int64 (s.bytes_to_sync + action_size a);
}
count_type delete a s = record s { files_to_delete = int64 (s.files_to_delete + 1) }
count_type mkdir a s = record s { dirs_to_create = int64 (s.dirs_to_create + 1) }
count_type conflict a s = record s { conflicts = int64 (s.conflicts + 1) }
count_type _ a s = s

abbrev push_conflict : ActionType → SyncAction → List SyncAction → List SyncAction
push_conflict conflict a conflicts = conflicts ++ (a ∷ [])
push_conflict _ a conflicts = conflicts

-- The body of the loop.
count_action : SyncPlan → SyncAction → SyncPlan
unfolding count_type
count_action plan a = record plan {
  stats =
      count_type a.type a
        (record (plan.stats) { total_files = int64 (plan.stats.total_files + 1) });
  conflicts = push_conflict a.type a plan.conflicts;
}

count_actions : SyncPlan → List SyncAction → SyncPlan
unfolding count_action
count_actions plan [] = plan
count_actions plan (a ∷ actions) = count_actions (count_action plan a) actions

unfoldable pub calculate_stats : SyncPlan → SyncPlan
unfolding count_actions
calculate_stats plan = count_actions plan plan.actions
