-- ===== src/Planner/TwoWay/Plans.antt =====
-- The plan of `PlanTwoWay` of internal/core/planner/planner.go as a whole.
use syncrules.Prelude.{
  Text, Bool, false, Option, none, some, [], ◌≡◌, ◌≢◌, ◌↔◌, inl, inr, arith, Member,
  eq-nil_of_no_Member, All, All-Member, Option-cases,
}
use syncrules.Prelude.Dict.{Dict, lookup}
use syncrules.Conflict.{resolve}
use syncrules.Diff.Content.{compare-SameContent}
use syncrules.Domain.{FileInfo, file_type_iff, SyncAction, SyncRule, ConflictStrategy, delete}
use syncrules.Planner.Ignore.{should_ignore}
use syncrules.Planner.OneWay.Plans.{SameMap, InSync}
use syncrules.Planner.Order.{sort_actions}
use syncrules.Planner.Order.Sorted.{Member-sort_actions}
use syncrules.Planner.Order.Unique.{sort_actions-SameMembers}
use syncrules.Planner.TwoWay.{two_way_cases, two_way_step, two_way_actions, plan_two_way}
use syncrules.Planner.TwoWay.Actions.{
  two_way_cases-path, Member-two_way_actions, two_way_actions-DistinctPaths, plan_two_way-actions,
}

resolve-ne-delete :
    (strategy : ConflictStrategy) (path : Text) (s t : FileInfo)
    → (resolve strategy path (some s) (some t)).type ≢ delete
unfolding resolve
resolve-ne-delete strategy path s t h = ground arith

module _ (glob : Text → Text → Option Bool) (rule : SyncRule) where
  -- The plan holds an action exactly if the loop's body gives it for the action's own path.
  pub Member-plan_two_way :
      (s t : Dict FileInfo) (a : SyncAction)
      → Member a (plan_two_way glob rule s t).actions ↔ (two_way_step glob rule s t a.path ≡ some a)
  Member-plan_two_way s t a = rw plan_two_way-actions (
      ground (
        arith,
        Member-sort_actions a (two_way_actions glob rule s t),
        Member-two_way_actions glob rule s t a,
      ))

  two_way_step-SameMap :
      (s s' t t' : Dict FileInfo) (path : Text)
      → SameMap s s'
      → SameMap t t'
      → two_way_step glob rule s t path ≡ two_way_step glob rule s' t' path
  unfolding two_way_step
  two_way_step-SameMap s s' t t' path h k = rw (h path, k path)

  -- The plan depends on the entries of the two maps, and not on the order in which they are visited.
  pub plan_two_way-SameMap :
      (s s' t t' : Dict FileInfo)
      → SameMap s s'
      → SameMap t t'
      → plan_two_way glob rule s t ≡ plan_two_way glob rule s' t'
  unfolding plan_two_way
  plan_two_way-SameMap s s' t t' h k = rw sorted
    where
      sorted :
          sort_actions (two_way_actions glob rule s t)
          ≡ sort_actions (two_way_actions glob rule s' t')
      sorted =
          sort_actions-SameMembers _ _ (two_way_actions-DistinctPaths glob rule s t)
            (two_way_actions-DistinctPaths glob rule s' t')
            (λ a. ground (
              arith,
              Member-two_way_actions glob rule s t a,
              Member-two_way_actions glob rule s' t' a,
              two_way_step-SameMap s s' t t' a.path h k,
            ))

  two_way_cases-InSync :
      (path : Text) (s t : Option FileInfo) → (two_way_cases glob rule path s t ≡ none) ↔ InSync s t
  unfolding two_way_cases
  two_way_cases-InSync path none none = ground arith
  two_way_cases-InSync path none (some t) = ground arith
  two_way_cases-InSync path (some s) none = ground arith
  two_way_cases-InSync path (some s) (some t) =
      ground (arith, compare-SameContent s t, file_type_iff s.type t.type)

  step_of_cases :
      (s t : Dict FileInfo) (path : Text) (a : SyncAction)
      → should_ignore glob path rule.ignore_patterns ≡ false
      → two_way_cases glob rule path (lookup path s) (lookup path t) ≡ some a
      → two_way_step glob rule s t a.path ≡ some a
  unfolding two_way_step
  step_of_cases s t path a kept h =
      simp (two_way_cases-path glob rule path (lookup path s) (lookup path t) a h) (rw kept h)

  cases_of_step :
      (s t : Dict FileInfo) (path : Text) (a : SyncAction)
      → two_way_step glob rule s t path ≡ some a
      → (should_ignore glob path rule.ignore_patterns ≡ false)
        × (two_way_cases glob rule path (lookup path s) (lookup path t) ≡ some a)
  unfolding two_way_step
  cases_of_step s t path a h = ground arith

  -- No action is planned exactly when the two sides are in sync at every path that is not ignored.
  pub plan_two_way-InSync :
      (s t : Dict FileInfo)
      → ((plan_two_way glob rule s t).actions ≡ []) ↔ (
          (path : Text)
          → should_ignore glob path rule.ignore_patterns ≡ false
          → InSync (lookup path s) (lookup path t))
  plan_two_way-InSync s t = (
    λ e path kept.
        elim (Option-cases (two_way_cases glob rule path (lookup path s) (lookup path t))) [
          | inl idle ↦ (two_way_cases-InSync path (lookup path s) (lookup path t)).0 idle
          | inr (a, busy) ↦
              absurd (rw e at ((Member-plan_two_way s t a).1 (step_of_cases s t path a kept busy)))
        ],
    λ h. eq-nil_of_no_Member _ (λ a m.
        let (kept, busy) = cases_of_step s t a.path a ((Member-plan_two_way s t a).0 m) in
        cc (
          busy,
          (two_way_cases-InSync a.path (lookup a.path s) (lookup a.path t)).1 (h a.path kept),
        )),
  )

  two_way_cases-ne-delete :
      (path : Text) (s t : Option FileInfo) (a : SyncAction)
      → two_way_cases glob rule path s t ≡ some a
      → a.type ≢ delete
  unfolding two_way_cases
  two_way_cases-ne-delete path none none a h = cc
  two_way_cases-ne-delete path none (some t) a h = ground arith
  two_way_cases-ne-delete path (some s) none a h = ground arith
  two_way_cases-ne-delete path (some s) (some t) a h =
      ground (arith, resolve-ne-delete rule.conflict_strategy path s t)

  -- Two-way planning deletes nothing.
  pub plan_two_way-no_delete :
      (s t : Dict FileInfo)
      → All (λ (a : SyncAction). a.type ≢ delete) (plan_two_way glob rule s t).actions
  plan_two_way-no_delete s t =
      All-Member (λ a. a.type ≢ delete) _
        (λ a m.
          two_way_cases-ne-delete a.path (lookup a.path s) (lookup a.path t) a
            (cases_of_step s t a.path a ((Member-plan_two_way s t a).0 m)).1)
