-- ===== src/Planner/TwoWay/Actions.antt =====
-- Which actions `PlanTwoWay` of internal/core/planner/planner.go plans, path by path.
use syncrules.Prelude.{
  Text, text_eq, Bool, true, Option, none, some, [], ◌∷◌, ◌≡◌, ◌↔◌, arith, Member,
}
use syncrules.Prelude.Dict.{Dict, lookup, insert, NodupKeys, lookup-insert, insert-NodupKeys}
use syncrules.Conflict.{resolve}
use syncrules.Domain.{FileInfo, SyncAction, SyncRule, ConflictStrategy}
use syncrules.Planner.Loop.Members.{KeepsPath, Member-collect, collect-DistinctPaths}
use syncrules.Planner.TwoWay.{
  add_paths, all_paths, two_way_cases, two_way_step, two_way_actions, plan_two_way,
}
use syncrules.Planner.Order.{sort_actions}
use syncrules.Planner.Order.Sorted.{DistinctPaths}
use syncrules.Planner.Stats.Counts.{Counted, calculate_stats-actions, calculate_stats-Counted}

lookup-add_paths :
    (m : Dict FileInfo) (paths : Dict Bool) (k : Text)
    → (lookup k (add_paths m paths) ≡ none) ↔ ((lookup k m ≡ none) × (lookup k paths ≡ none))
unfolding add_paths lookup
lookup-add_paths [] paths k = ground arith
lookup-add_paths ((path, info) ∷ m) paths k =
    ground (arith, lookup-add_paths m (insert path true paths) k, lookup-insert k path true paths)

add_paths-NodupKeys :
    (m : Dict FileInfo) (paths : Dict Bool) → NodupKeys paths → NodupKeys (add_paths m paths)
unfolding add_paths
add_paths-NodupKeys [] paths u = u
add_paths-NodupKeys ((path, info) ∷ m) paths u =
    add_paths-NodupKeys m (insert path true paths) (insert-NodupKeys path true paths u)

pub all_paths-NodupKeys : (s t : Dict FileInfo) → NodupKeys (all_paths s t)
unfolding all_paths
all_paths-NodupKeys s t = add_paths-NodupKeys t _ (add_paths-NodupKeys s [] tt)

-- The set of paths holds exactly those that one of the maps has.
pub lookup-all_paths :
    (s t : Dict FileInfo) (k : Text)
    → (lookup k (all_paths s t) ≡ none) ↔ ((lookup k s ≡ none) × (lookup k t ≡ none))
unfolding all_paths lookup
lookup-all_paths s t k =
    ground (arith, lookup-add_paths t (add_paths s []) k, lookup-add_paths s [] k)

pub resolve-path :
    (strategy : ConflictStrategy) (path : Text) (s t : FileInfo)
    → (resolve strategy path (some s) (some t)).path ≡ path
unfolding resolve
resolve-path strategy path s t = ground arith

module _ (glob : Text → Text → Option Bool) (rule : SyncRule) where
  pub two_way_cases-path :
      (path : Text) (s t : Option FileInfo) (a : SyncAction)
      → two_way_cases glob rule path s t ≡ some a
      → a.path ≡ path
  unfolding two_way_cases
  two_way_cases-path path none none a h = cc
  two_way_cases-path path (some s) none a h = ground arith
  two_way_cases-path path none (some t) a h = ground arith
  two_way_cases-path path (some s) (some t) a h =
      ground (arith, resolve-path rule.conflict_strategy path s t)

  two_way_step-KeepsPath :
      (s t : Dict FileInfo) → KeepsPath {V = Bool} (λ path _. two_way_step glob rule s t path)
  unfolding two_way_step
  two_way_step-KeepsPath s t path v a h =
      ground (arith, two_way_cases-path path (lookup path s) (lookup path t) a)

  two_way_step_absent :
      (s t : Dict FileInfo) (path : Text)
      → lookup path s ≡ none
      → lookup path t ≡ none
      → two_way_step glob rule s t path ≡ none
  unfolding two_way_step
  two_way_step_absent s t path h k = ground arith

  pub Member-two_way_actions :
      (s t : Dict FileInfo) (a : SyncAction)
      → Member a (two_way_actions glob rule s t) ↔ (two_way_step glob rule s t a.path ≡ some a)
  unfolding two_way_actions
  Member-two_way_actions s t a = ground (
    arith,
    Member-collect {V = Bool} (λ path _. two_way_step glob rule s t path)
        (two_way_step-KeepsPath s t) (all_paths s t) a (all_paths-NodupKeys s t),
    lookup-all_paths s t a.path,
    two_way_step_absent s t a.path,
  )

  pub two_way_actions-DistinctPaths :
      (s t : Dict FileInfo) → DistinctPaths (two_way_actions glob rule s t)
  unfolding two_way_actions
  two_way_actions-DistinctPaths s t =
      collect-DistinctPaths {V = Bool} (λ path _. two_way_step glob rule s t path)
        (two_way_step-KeepsPath s t) (all_paths s t) (all_paths-NodupKeys s t)

  pub plan_two_way-actions :
      (s t : Dict FileInfo)
      → (plan_two_way glob rule s t).actions ≡ sort_actions (two_way_actions glob rule s t)
  unfolding plan_two_way
  plan_two_way-actions s t = calculate_stats-actions _

  pub plan_two_way-Counted : (s t : Dict FileInfo) → Counted (plan_two_way glob rule s t)
  unfolding plan_two_way
  plan_two_way-Counted s t = calculate_stats-Counted rule.name _
