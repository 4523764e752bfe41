-- ===== src/Service/Fates.antt =====
-- What the actions of a plan leave on both sides, executed by internal/service/sync.go.
use mathlib.Core.Path.{subst}
use syncrules.Prelude.{
  Text, text_eq, nat_eq, Option, none, some, List, [], ◌∷◌, ◌≡◌, ◌≢◌, inl, inr, refl, sym, ap,
  Member, All, Member-All,
}
use syncrules.Domain.{SyncAction, ActionType, SyncDirection, source_to_target, target_to_source}
use syncrules.Adapter.{Adapter}
use syncrules.Planner.Order.Sorted.{DistinctPaths}
use syncrules.Service.Execution.{execute_action}
use syncrules.Service.Actions.{Runs}
use syncrules.Service.Storage.{Node, file, Kept, Kept-trans}
use syncrules.Service.Replicas.{Replicas, FateAt, FateAt-earlier, FateAt-later, perform-FateAt}

module _ {W : Type 0} (covers : Text → Type 0) (source target : Adapter W)
    (replicas : Replicas covers source target) where
  -- The action is on a path in question.
  abbrev pub Known : SyncAction → Type 0
  Known a = covers a.path

  abbrev pub BothKept : W → W → Text → Type 0
  BothKept w w' q =
      Kept (replicas.source_view w q) (replicas.source_view w' q)
      × Kept (replicas.target_view w q) (replicas.target_view w' q)

  -- What an action in the given direction leaves at its path.
  abbrev pub Fate : SyncDirection → ActionType → Text → W → W → Type 0
  Fate source_to_target t p w w' =
      FateAt t (replicas.source_view w p) (replicas.source_view w' p) (replicas.target_view w p)
        (replicas.target_view w' p)
  Fate target_to_source t p w w' =
      FateAt t (replicas.target_view w p) (replicas.target_view w' p) (replicas.source_view w p)
        (replicas.source_view w' p)

  execute_action-Fate :
      (a : SyncAction) (d : SyncDirection) (w : W)
      → Known a
      → a.direction ≡ d
      → (execute_action source target a w).2 ≡ none
      → let w' = (execute_action source target a w).0 in
        Fate d a.type a.path w w' × ((q : Text) → covers q → q ≢ a.path → BothKept w w' q)
  unfolding execute_action
  execute_action-Fate a source_to_target w known e h =
      let (fate, touches) =
        perform-FateAt covers source target replicas.source_view replicas.target_view replicas.push
          a a.type w known (rw (e, execute_action) at h) in
      rw (e, execute_action) (fate, λ q k n. (touches.1 q k, touches.0 q k n))
  execute_action-Fate a target_to_source w known e h =
      let (fate, touches) =
        perform-FateAt covers target source replicas.target_view replicas.source_view replicas.pull
          a a.type w known (rw (e, execute_action) at h) in
      rw (e, execute_action) (fate, λ q k n. (touches.0 q k n, touches.1 q k))

  BothKept-trans : (w w1 w' : W) (q : Text) → BothKept w w1 q → BothKept w1 w' q → BothKept w w' q
  BothKept-trans w w1 w' q (h, k) (h', k') = (Kept-trans _ _ _ h h', Kept-trans _ _ _ k k')

  Fate-earlier :
      (d : SyncDirection) (t : ActionType) (p : Text) (w w1 w' : W)
      → BothKept w w1 p
      → Fate d t p w1 w'
      → Fate d t p w w'
  Fate-earlier source_to_target t p w w1 w' (h, k) f = FateAt-earlier t _ _ _ _ _ _ h k f
  Fate-earlier target_to_source t p w w1 w' (h, k) f = FateAt-earlier t _ _ _ _ _ _ k h f

  Fate-later :
      (d : SyncDirection) (t : ActionType) (p : Text) (w w1 w' : W)
      → BothKept w1 w' p
      → Fate d t p w w1
      → Fate d t p w w'
  Fate-later source_to_target t p w w1 w' (h, k) f = FateAt-later t _ _ _ _ _ _ h k f
  Fate-later target_to_source t p w w1 w' (h, k) f = FateAt-later t _ _ _ _ _ _ k h f

  pub Runs-BothKept :
      (actions : List SyncAction) (q : Text) (w w' : W)
      → covers q
      → All Known actions
      → All (λ (b : SyncAction). q ≢ b.path) actions
      → Runs source target actions w w'
      → BothKept w w' q
  Runs-BothKept [] q w w' k d n e =
      (inl (ap (λ v. replicas.source_view v q) e), inl (ap (λ v. replicas.target_view v q) e))
  Runs-BothKept (a ∷ actions) q w w' k (d, ds) (n, ns) (e, runs) =
      let here = execute_action-Fate a a.direction w d refl e in
      BothKept-trans w _ w' q (here.1 q k n) (Runs-BothKept actions q _ w' k ds ns runs)

  pub Runs-Fate :
      (actions : List SyncAction) (a : SyncAction) (w w' : W)
      → All Known actions
      → DistinctPaths actions
      → Runs source target actions w w'
      → Member a actions
      → Fate a.direction a.type a.path w w'
  Runs-Fate [] a w w' d u r m = absurd m
  Runs-Fate (b ∷ actions) a w w' (d, ds) (u, us) (e, runs) (inl m) =
      let here = execute_action-Fate b b.direction w d refl e in
      subst (λ (x : SyncAction). Fate x.direction x.type x.path w w') (sym m)
        (Fate-later b.direction b.type b.path w _ w' (Runs-BothKept actions b.path _ w' d ds u runs)
          here.0)
  Runs-Fate (b ∷ actions) a w w' (d, ds) (u, us) (e, runs) (inr m) =
      let here = execute_action-Fate b b.direction w d refl e in
      let apart = Member-All (λ (x : SyncAction). b.path ≢ x.path) actions a u m in
      Fate-earlier a.direction a.type a.path w _ w'
        (here.1 a.path (Member-All Known actions a ds m) (λ p. apart (sym p)))
        (Runs-Fate actions a _ w' ds us runs m)

  -- One file on both sides, which one side had.
  abbrev pub Copied : (W → Text → Option Node) → Text → W → W → Type 0
  Copied winner p w w' =
      (s : Text) × (winner w p ≡ some (file s))
      × (replicas.source_view w' p ≡ some (file s))
      × (replicas.target_view w' p ≡ some (file s))
