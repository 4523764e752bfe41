-- ===== src/Service/Reconcile.antt =====
-- What both storages hold after `ExecuteSync` of internal/service/sync.go has executed a two-way plan.
use mathlib.Core.Path.{subst}
use syncrules.Prelude.{
  ℕ, Text, text_eq, nat_eq, Bool, true, false, Option, none, some, ◌≡◌, ◌≢◌, ◌⊎◌, inl, inr, sym, ap,
  ◌∙◌, arith, Option-cases, All-Member,
}
use syncrules.Prelude.Dict.{Dict, lookup}
use syncrules.Domain.{
  FileInfo, directory, SyncAction, SyncRule, ActionType, copy, conflict, skip, SyncDirection,
  source_to_target, target_to_source, ConflictStrategy,
}
use syncrules.Adapter.{Adapter}
use syncrules.Planner.Ignore.{should_ignore}
use syncrules.Planner.TwoWay.{two_way_cases, two_way_step, plan_two_way}
use syncrules.Planner.TwoWay.Plans.{Member-plan_two_way}
use syncrules.Planner.WellFormed.{plan_two_way-IsWellFormed}
use syncrules.Service.Execution.{execute_actions}
use syncrules.Service.Actions.{Runs, RunsPart-Runs, execute_actions-RunsPart}
use syncrules.Service.Storage.{folder, Kept}
use syncrules.Service.Fates.{BothKept, Fate, Copied, Runs-BothKept, Runs-Fate}
use syncrules.Planner.TwoWay.Winners.{
  Differ, SourceWins, TargetWins, Verdict, missing_folder, missing_file, cases-Verdict, step-path,
}
use syncrules.Service.Replicas.{Replicas}

module _ {W : Type 0} (covers : Text → Type 0) (source target : Adapter W)
    (replicas : Replicas covers source target) where
  -- What the two listings ask of a path: what only one side has is made on the other; of two files that
  -- differ the one that wins is copied; all else is kept.
  abbrev pub Reconciled :
      ConflictStrategy → Option FileInfo → Option FileInfo → Text → W → W → Type 0
  Reconciled strategy none none path w w' = BothKept covers source target replicas w w' path
  Reconciled strategy (some f) none path w w' =
      (f.type ≡ directory
        → Kept (replicas.source_view w path) (replicas.source_view w' path)
          × (replicas.target_view w' path ≡ some folder))
      × (f.type ≢ directory → Copied covers source target replicas replicas.source_view path w w')
  Reconciled strategy none (some t) path w w' =
      (t.type ≡ directory
        → Kept (replicas.target_view w path) (replicas.target_view w' path)
          × (replicas.source_view w' path ≡ some folder))
      × (t.type ≢ directory → Copied covers source target replicas replicas.target_view path w w')
  Reconciled strategy (some f) (some t) path w w' =
      (Differ f t
        × SourceWins strategy f t
        × Copied covers source target replicas replicas.source_view path w w')
      ⊎ ((Differ f t
            × TargetWins strategy f t
            × Copied covers source target replicas replicas.target_view path w w')
          ⊎ ((Differ f t → (¬ SourceWins strategy f t) × (¬ TargetWins strategy f t))
              × BothKept covers source target replicas w w' path))

  abbrev FateOfPlan : Text → W → W → Option SyncAction → Type 0
  FateOfPlan path w w' none = BothKept covers source target replicas w w' path
  FateOfPlan path w w' (some a) = Fate covers source target replicas a.direction a.type path w w'

  source-Copied :
      (a : SyncAction) (path : Text) (w w' : W)
      → a.type ≡ copy
      → a.direction ≡ source_to_target
      → Fate covers source target replicas a.direction a.type path w w'
      → Copied covers source target replicas replicas.source_view path w w'
  source-Copied a path w w' e d f =
      subst (λ t. Fate covers source target replicas source_to_target t path w w') e
        (subst (λ x. Fate covers source target replicas x a.type path w w') d f)

  target-Copied :
      (a : SyncAction) (path : Text) (w w' : W)
      → a.type ≡ copy
      → a.direction ≡ target_to_source
      → Fate covers source target replicas a.direction a.type path w w'
      → Copied covers source target replicas replicas.target_view path w w'
  target-Copied a path w w' e d f =
      let (s, before, after, there) =
        subst (λ t. Fate covers source target replicas target_to_source t path w w') e
          (subst (λ x. Fate covers source target replicas x a.type path w w') d f) in
      (s, before, there, after)

  idle-BothKept :
      (d : SyncDirection) (t : ActionType) (path : Text) (w w' : W)
      → (t ≡ skip) ⊎ (t ≡ conflict)
      → Fate covers source target replicas d t path w w'
      → BothKept covers source target replicas w w' path
  idle-BothKept source_to_target t path w w' (inl e) f =
      subst (λ t. Fate covers source target replicas source_to_target t path w w') e f
  idle-BothKept source_to_target t path w w' (inr e) f =
      subst (λ t. Fate covers source target replicas source_to_target t path w w') e f
  idle-BothKept target_to_source t path w w' (inl e) f =
      let (h, k) =
        subst (λ t. Fate covers source target replicas target_to_source t path w w') e f in
      (k, h)
  idle-BothKept target_to_source t path w w' (inr e) f =
      let (h, k) =
        subst (λ t. Fate covers source target replicas target_to_source t path w w') e f in
      (k, h)

  verdict-Reconciled :
      (strategy : ConflictStrategy) (f t : FileInfo) (o : Option SyncAction) (path : Text)
      (w w' : W)
      → Verdict strategy f t o
      → FateOfPlan path w w' o
      → Reconciled strategy (some f) (some t) path w w'
  verdict-Reconciled strategy f t none path w w' v k = inr (inr (v, k))
  verdict-Reconciled strategy f t (some a) path w w' (inl (differ, wins, e, d)) k =
      inl (differ, wins, source-Copied a path w w' e d k)
  verdict-Reconciled strategy f t (some a) path w w' (inr (inl (differ, wins, e, d))) k =
      inr (inl (differ, wins, target-Copied a path w w' e d k))
  verdict-Reconciled strategy f t (some a) path w w' (inr (inr (e, neither))) k =
      inr (inr (neither, idle-BothKept a.direction a.type path w w' e k))

  module _ (glob : Text → Text → Option Bool) (rule : SyncRule) where
    cases-Reconciled :
        (path : Text) (w w' : W) (f t : Option FileInfo)
        → FateOfPlan path w w' (two_way_cases glob rule path f t)
        → Reconciled rule.conflict_strategy f t path w w'
    unfolding two_way_cases
    cases-Reconciled path w w' none none h = h
    cases-Reconciled path w w' (some f) none h = (
      λ e.
          subst (λ t. Fate covers source target replicas source_to_target t path w w')
            (missing_folder f e) h,
      λ n.
          subst (λ t. Fate covers source target replicas source_to_target t path w w')
            (missing_file f n) h,
    )
    cases-Reconciled path w w' none (some t) h = (
      λ e.
          subst (λ k. Fate covers source target replicas target_to_source k path w w')
            (missing_folder t e) h,
      λ n.
          let (s, before, after, there) =
            subst (λ k. Fate covers source target replicas target_to_source k path w w')
              (missing_file t n) h in
          (s, before, there, after),
    )
    cases-Reconciled path w w' (some f) (some t) h =
        verdict-Reconciled rule.conflict_strategy f t _ path w w' (cases-Verdict glob rule path f t)
          h

    planned_none : {A : Type 0} (a : A) → some a ≡ none → ⊥
    planned_none a h = cc

    -- The paths of the entries are in question.
    abbrev pub Listed : Dict FileInfo → Dict FileInfo → Type 0
    Listed s t = (p : Text) → (lookup p s ≢ none) ⊎ (lookup p t ≢ none) → covers p

    step-listed :
        (p : Text) (s t : Dict FileInfo) (a : SyncAction)
        → two_way_step glob rule s t p ≡ some a
        → (lookup p s ≢ none) ⊎ (lookup p t ≢ none)
    unfolding two_way_step two_way_cases
    step-listed p s t a h = elim (Option-cases (lookup p s)) [
      | inr (f, e) ↦ inl (λ n. planned_none f (sym e ∙ n))
      | inl e ↦ elim (Option-cases (lookup p t)) [
        | inr (f, k) ↦ inr (λ n. planned_none f (sym k ∙ n))
        | inl k ↦ absurd (ground arith)
      ]
    ]

    -- The actions of a two-way plan, one after the other, make of each path what the plan holds for it.
    Runs-FateOfPlan :
        (path : Text) (w w' : W) (s t : Dict FileInfo)
        → Listed s t
        → covers path
        → Runs source target (plan_two_way glob rule s t).actions w w'
        → FateOfPlan path w w' (two_way_step glob rule s t path)
    Runs-FateOfPlan path w w' s t listed known runs =
        let actions = (plan_two_way glob rule s t).actions in
        let member = λ (a : SyncAction). Member-plan_two_way glob rule s t a in
        let all =
          All-Member (λ (b : SyncAction). covers b.path) actions
            (λ b m. listed b.path (step-listed b.path s t b ((member b).0 m))) in
        elim (Option-cases (two_way_step glob rule s t path)) [
          | inl e ↦ rw e (
              Runs-BothKept covers source target replicas actions path w w' known all
                (All-Member (λ (b : SyncAction). path ≢ b.path) actions
                  (λ b m q.
                    planned_none b
                      (sym ((member b).0 m) ∙ ap (two_way_step glob rule s t) (sym q) ∙ e)))
                runs)
          | inr (a, e) ↦
              let q = step-path glob rule s t path a e in
              rw e (
                subst (λ p. Fate covers source target replicas a.direction a.type p w w') q
                  (Runs-Fate covers source target replicas actions a w w' all
                    (plan_two_way-IsWellFormed glob rule s t).distinct runs
                    ((member a).1 (ap (two_way_step glob rule s t) q ∙ e))))
        ]

    -- A two-way plan is made from the entries of both sides and executed without an error, on storages
    -- whose operations have their effect on a set of paths, as those of two local adapters have, and the
    -- paths of the entries belong to the set. Then every path of the set that is not ignored is reconciled: what
    -- only one side has is on both, of two files that differ the one that wins under the rule's strategy
    -- is on both, with the bytes that it had before, and all else is kept on both sides, as every ignored
    -- path is. A folder may have been made where nothing is kept.
    pub execute_actions-Reconciled :
        (done : ℕ → Bool) (path : Text) (w : W) (s t : Dict FileInfo)
        → Listed s t
        → covers path
        → let actions = (plan_two_way glob rule s t).actions in
          let r = execute_actions done source target actions 0 0 0 w in
          r.2 ≡ none
          → (should_ignore glob path rule.ignore_patterns ≡ true
              → BothKept covers source target replicas w r.0 path)
            × (should_ignore glob path rule.ignore_patterns ≡ false
                → Reconciled rule.conflict_strategy (lookup path s) (lookup path t) path w r.0)
    unfolding two_way_step
    execute_actions-Reconciled done path w s t listed known ok_end =
        let actions = (plan_two_way glob rule s t).actions in
        let r = execute_actions done source target actions 0 0 0 w in
        let runs =
          RunsPart-Runs source target done 0 actions w r.0 r.2
            (execute_actions-RunsPart source target done actions 0 0 0 w) ok_end in
        let fate = Runs-FateOfPlan path w r.0 s t listed known runs in
        (
          λ h. rw (h, two_way_step) at fate,
          λ h.
              cases-Reconciled path w r.0 (lookup path s) (lookup path t)
                (rw (h, two_way_step) at fate),
        )
