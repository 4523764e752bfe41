-- ===== src/Planner/Stats/Counts.antt =====
-- What `calculateStats` of internal/core/planner/planner.go counts.
use mathlib.Core.List.{append_assoc, append-nil}
use syncrules.Prelude.{
  Text, ℕ, ◌+◌, ◌^◌, ◌<◌, Bool, true, false, List, [], ◌∷◌, ◌++◌, ◌≡◌, refl, arith, ◌∙◌,
  if◌then◌else◌, length, count_if, keep_if,
}
use syncrules.Domain.{
  ActionType, copy, delete, mkdir, conflict, skip, SyncAction, SyncPlan, SyncPlanStats,
}
use syncrules.Planner.Stats.{
  int64, action_size, zero_stats, push_conflict, count_action, count_actions, calculate_stats,
}

abbrev type_is_copy : ActionType → Bool
type_is_copy copy = true
type_is_copy _ = false

abbrev type_is_delete : ActionType → Bool
type_is_delete delete = true
type_is_delete _ = false

abbrev type_is_mkdir : ActionType → Bool
type_is_mkdir mkdir = true
type_is_mkdir _ = false

abbrev type_is_conflict : ActionType → Bool
type_is_conflict conflict = true
type_is_conflict _ = false

abbrev pub is_copy_action : SyncAction → Bool
is_copy_action a = type_is_copy a.type

abbrev pub is_delete_action : SyncAction → Bool
is_delete_action a = type_is_delete a.type

abbrev pub is_mkdir_action : SyncAction → Bool
is_mkdir_action a = type_is_mkdir a.type

abbrev pub is_conflict_action : SyncAction → Bool
is_conflict_action a = type_is_conflict a.type

-- The bytes that the copies of the list transfer.
abbrev pub copied_bytes : List SyncAction → ℕ
copied_bytes [] = 0
copied_bytes (a ∷ actions) =
    let rest = copied_bytes actions in if is_copy_action a then action_size a + rest else rest

record InRange (s : SyncPlanStats) : Type 0 where
  total : s.total_files < 2 ^ 64
  copies : s.files_to_copy < 2 ^ 64
  deletes : s.files_to_delete < 2 ^ 64
  dirs : s.dirs_to_create < 2 ^ 64
  conflicts : s.conflicts < 2 ^ 64
  bytes : s.bytes_to_sync < 2 ^ 64

-- The statistics `t`, reached from `s` by counting the actions.
record Adds (s : SyncPlanStats) (actions : List SyncAction) (t : SyncPlanStats) : Type 0 where
  total : t.total_files ≡ int64 (s.total_files + length actions)
  copies : t.files_to_copy ≡ int64 (s.files_to_copy + count_if is_copy_action actions)
  deletes : t.files_to_delete ≡ int64 (s.files_to_delete + count_if is_delete_action actions)
  dirs : t.dirs_to_create ≡ int64 (s.dirs_to_create + count_if is_mkdir_action actions)
  conflicts : t.conflicts ≡ int64 (s.conflicts + count_if is_conflict_action actions)
  bytes : t.bytes_to_sync ≡ int64 (s.bytes_to_sync + copied_bytes actions)

count_action-InRange :
    (p : SyncPlan) (a : SyncAction) → InRange p.stats → InRange (count_action p a).stats
unfolding count_action
count_action-InRange p a r = ground arith

Adds-step :
    (p : SyncPlan) (a : SyncAction) (actions : List SyncAction) (t : SyncPlanStats)
    → Adds (count_action p a).stats actions t
    → Adds p.stats (a ∷ actions) t
unfolding count_action
Adds-step p a actions t h = ground arith

count_actions-Adds :
    (p : SyncPlan) (actions : List SyncAction)
    → InRange p.stats
    → Adds p.stats actions (count_actions p actions).stats
unfolding count_actions
count_actions-Adds p [] r = ground arith
count_actions-Adds p (a ∷ actions) r =
    Adds-step p a actions _
      (count_actions-Adds (count_action p a) actions (count_action-InRange p a r))

count_actions-conflicts :
    (p : SyncPlan) (actions : List SyncAction)
    → (count_actions p actions).conflicts ≡ p.conflicts ++ keep_if is_conflict_action actions
unfolding count_actions
count_actions-conflicts p [] = rw append-nil
count_actions-conflicts p (a ∷ actions) =
    count_actions-conflicts (count_action p a) actions ∙ push (a.type) refl
  where
    push :
        (type : ActionType)
        → a.type ≡ type
        → push_conflict a.type a p.conflicts ++ keep_if is_conflict_action actions
          ≡ p.conflicts ++ keep_if is_conflict_action (a ∷ actions)
    push conflict e = simp (e, append_assoc)
    push copy e = rw e
    push delete e = rw e
    push mkdir e = rw e
    push skip e = rw e
    push (ActionType.other s) e = rw e

count_actions-actions :
    (p : SyncPlan) (actions : List SyncAction)
    → ((count_actions p actions).actions ≡ p.actions)
      × ((count_actions p actions).rule_name ≡ p.rule_name)
unfolding count_actions
count_actions-actions p [] = (refl, refl)
count_actions-actions p (a ∷ actions) = count_actions-actions (count_action p a) actions

-- The statistics and the conflicts of a plan are those of its actions.
pub record Counted (p : SyncPlan) : Type 0 where
  pub total : p.stats.total_files ≡ int64 (length p.actions)
  pub copies : p.stats.files_to_copy ≡ int64 (count_if is_copy_action p.actions)
  pub deletes : p.stats.files_to_delete ≡ int64 (count_if is_delete_action p.actions)
  pub dirs : p.stats.dirs_to_create ≡ int64 (count_if is_mkdir_action p.actions)
  pub conflict_count : p.stats.conflicts ≡ int64 (length p.conflicts)
  pub bytes : p.stats.bytes_to_sync ≡ int64 (copied_bytes p.actions)
  pub conflict_list : p.conflicts ≡ keep_if is_conflict_action p.actions

length-keep_if :
    (actions : List SyncAction)
    → length (keep_if is_conflict_action actions) ≡ count_if is_conflict_action actions
length-keep_if [] = refl
length-keep_if (a ∷ actions) = ground (arith, length-keep_if actions)

pub calculate_stats-Counted :
    (name : Text) (actions : List SyncAction)
    → Counted (
        calculate_stats
          (record { rule_name = name; actions = actions; conflicts = []; stats = zero_stats }))
unfolding calculate_stats
calculate_stats-Counted name actions = record {
  total = ground (arith, adds, same);
  copies = ground (arith, adds, same);
  deletes = ground (arith, adds, same);
  dirs = ground (arith, adds, same);
  conflict_count = ground (arith, adds, listed, length-keep_if actions);
  bytes = ground (arith, adds, same);
  conflict_list = rw same.0 listed;
}
  where
    plan : SyncPlan
    plan = record { rule_name = name; actions = actions; conflicts = []; stats = zero_stats }

    adds : Adds zero_stats actions (count_actions plan actions).stats
    adds = count_actions-Adds plan actions (omega arith)

    same :
        ((count_actions plan actions).actions ≡ actions)
        × ((count_actions plan actions).rule_name ≡ name)
    same = count_actions-actions plan actions

    listed : (count_actions plan actions).conflicts ≡ keep_if is_conflict_action actions
    listed = count_actions-conflicts plan actions

-- Counting leaves the actions alone.
pub calculate_stats-actions : (p : SyncPlan) → (calculate_stats p).actions ≡ p.actions
unfolding calculate_stats
calculate_stats-actions p = (count_actions-actions p p.actions).0
