-- ===== src/Planner/OneWay/Plans.antt =====
-- The plan of `PlanOneWay` of internal/core/planner/planner.go as a whole.
use syncrules.Prelude.{
  Text, Bool, false, Option, none, some, [], ◌≡◌, ◌↔◌, inl, inr, arith, Member, eq-nil_of_no_Member,
  Option-cases,
}
use syncrules.Prelude.Dict.{Dict, lookup, NodupKeys}
use syncrules.Domain.{FileInfo, file_type_iff, SyncAction, SyncDirection, SyncRule, regular}
use syncrules.Diff.Content.{SameContent, compare-SameContent}
use syncrules.Planner.Ignore.{should_ignore}
use syncrules.Planner.OneWay.{one_way_both, one_way_actions, plan_one_way}
use syncrules.Planner.OneWay.Actions.{
  one_way_rule, planned, Member-one_way_actions, one_way_actions-DistinctPaths,
  plan_one_way-actions,
}
use syncrules.Planner.Order.{sort_actions}
use syncrules.Planner.Order.Sorted.{Member-sort_actions}
use syncrules.Planner.Order.Unique.{sort_actions-SameMembers}

-- Two maps with the same entries, in any order.
abbrev pub SameMap : Dict FileInfo → Dict FileInfo → Type 0
SameMap m n = (k : Text) → lookup k m ≡ lookup k n

-- What holds of both sides at a path where nothing is to be done: nothing on either side, or two
-- entries of one type, and of one content if they are files.
abbrev pub InSync : Option FileInfo → Option FileInfo → Type 0
InSync none none = Unit
InSync (some s) (some t) = (s.type ≡ t.type) × (s.type ≡ regular → SameContent s t)
InSync _ _ = ⊥

module _ (glob : Text → Text → Option Bool) (rule : SyncRule) (direction : SyncDirection) where
  pub Member-plan_one_way :
      (from_map to_map : Dict FileInfo) (a : SyncAction)
      → NodupKeys from_map
      → NodupKeys to_map
      → Member a (plan_one_way glob rule direction from_map to_map).actions
        ↔ (planned glob rule direction from_map to_map a.path ≡ some a)
  Member-plan_one_way from_map to_map a u v = rw plan_one_way-actions (
      ground (
        arith,
        Member-sort_actions a (one_way_actions glob rule direction from_map to_map),
        Member-one_way_actions glob rule direction from_map to_map a u v,
      ))

  planned-SameMap :
      (from_map from_map' to_map to_map' : Dict FileInfo) (path : Text)
      → SameMap from_map from_map'
      → SameMap to_map to_map'
      → planned glob rule direction from_map to_map path
        ≡ planned glob rule direction from_map' to_map' path
  unfolding planned
  planned-SameMap from_map from_map' to_map to_map' path h k = rw (h path, k path)

  -- The plan depends on the entries of the two maps, and not on the order in which they are visited.
  pub plan_one_way-SameMap :
      (from_map from_map' to_map to_map' : Dict FileInfo)
      → NodupKeys from_map
      → NodupKeys from_map'
      → NodupKeys to_map
      → NodupKeys to_map'
      → SameMap from_map from_map'
      → SameMap to_map to_map'
      → plan_one_way glob rule direction from_map to_map
        ≡ plan_one_way glob rule direction from_map' to_map'
  unfolding plan_one_way
  plan_one_way-SameMap from_map from_map' to_map to_map' u u' v v' h k = rw sorted
    where
      sorted :
          sort_actions (one_way_actions glob rule direction from_map to_map)
          ≡ sort_actions (one_way_actions glob rule direction from_map' to_map')
      sorted =
          sort_actions-SameMembers _ _
            (one_way_actions-DistinctPaths glob rule direction from_map to_map u v)
            (one_way_actions-DistinctPaths glob rule direction from_map' to_map' u' v')
            (λ a. ground (
              arith,
              Member-one_way_actions glob rule direction from_map to_map a u v,
              Member-one_way_actions glob rule direction from_map' to_map' a u' v',
              planned-SameMap from_map from_map' to_map to_map' a.path h k,
            ))

  one_way_rule-InSync :
      (path : Text) (s t : Option FileInfo)
      → (one_way_rule glob rule direction path s t ≡ none) ↔ InSync s t
  unfolding one_way_rule one_way_both
  one_way_rule-InSync path none none = ground arith
  one_way_rule-InSync path none (some t) = ground arith
  one_way_rule-InSync path (some s) none = ground arith
  one_way_rule-InSync path (some s) (some t) =
      ground (arith, compare-SameContent s t, file_type_iff s.type t.type)

  one_way_rule-path :
      (path : Text) (s t : Option FileInfo) (a : SyncAction)
      → one_way_rule glob rule direction path s t ≡ some a
      → a.path ≡ path
  unfolding one_way_rule
  one_way_rule-path path s t a h = ground arith

  planned_of_rule :
      (from_map to_map : Dict FileInfo) (path : Text) (a : SyncAction)
      → should_ignore glob path rule.ignore_patterns ≡ false
      → one_way_rule glob rule direction path (lookup path from_map) (lookup path to_map) ≡ some a
      → planned glob rule direction from_map to_map a.path ≡ some a
  unfolding planned
  planned_of_rule from_map to_map path a kept h =
      simp (one_way_rule-path path (lookup path from_map) (lookup path to_map) a h) (rw kept h)

  rule_of_planned :
      (from_map to_map : Dict FileInfo) (path : Text) (a : SyncAction)
      → planned glob rule direction from_map to_map path ≡ some a
      → (should_ignore glob path rule.ignore_patterns ≡ false)
        × (one_way_rule glob rule direction path (lookup path from_map) (lookup path to_map)
            ≡ some a)
  unfolding planned
  rule_of_planned from_map to_map path a h = ground arith

  -- No action is planned exactly when the two sides are in sync at every path that is not ignored.
  pub plan_one_way-InSync :
      (from_map to_map : Dict FileInfo)
      → NodupKeys from_map
      → NodupKeys to_map
      → ((plan_one_way glob rule direction from_map to_map).actions ≡ []) ↔ (
          (path : Text)
          → should_ignore glob path rule.ignore_patterns ≡ false
          → InSync (lookup path from_map) (lookup path to_map))
  plan_one_way-InSync from_map to_map u v = (
    λ e path kept.
        elim (Option-cases
          (one_way_rule glob rule direction path (lookup path from_map) (lookup path to_map))) [
            | inl idle ↦
                (one_way_rule-InSync path (lookup path from_map) (lookup path to_map)).0 idle
            | inr (a, busy) ↦ absurd (
                rw e at (
                  (Member-plan_one_way from_map to_map a u v).1
                    (planned_of_rule from_map to_map path a kept busy)))
          ],
    λ h. eq-nil_of_no_Member _ (λ a m.
        let (kept, busy) =
          rule_of_planned from_map to_map a.path a
            ((Member-plan_one_way from_map to_map a u v).0 m) in
        cc (
          busy,
          (one_way_rule-InSync a.path (lookup a.path from_map) (lookup a.path to_map)).1
              (h a.path kept),
        )),
  )
