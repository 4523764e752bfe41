-- ===== src/Planner/Order/Sorted.antt =====
-- `sortActions` of internal/core/planner/planner.go orders its actions, and its result does not
-- depend on the algorithm behind `sort.Slice`.
use mathlib.Core.List.{Perm}
use mathlib.Core.List.Perm
use syncrules.Prelude.{
  true, false, List, [], ◌∷◌, ◌≡◌, ◌≢◌, ◌⊎◌, ◌↔◌, inl, inr, arith, Member, All, Bool-cases,
}
use syncrules.Domain.{SyncAction}
use syncrules.Planner.Order.{less, insert_action, sort_actions}
use syncrules.Planner.Order.Less.{less_trans, less_asymm}

-- What `sort.Slice` promises: no action is less than one that stands before it.
abbrev pub IsSorted : List SyncAction → Type 0
IsSorted [] = Unit
IsSorted (a ∷ actions) = All (λ b. less b a ≡ false) actions × IsSorted actions

-- No two actions are about the same path.
abbrev pub DistinctPaths : List SyncAction → Type 0
DistinctPaths [] = Unit
DistinctPaths (a ∷ actions) =
    All (λ (b : SyncAction). a.path ≢ b.path) actions × DistinctPaths actions

module _ (P : SyncAction → Type 0) where
  pub All-insert_action :
      (a : SyncAction) (actions : List SyncAction)
      → P a
      → All P actions
      → All P (insert_action a actions)
  unfolding insert_action
  All-insert_action a [] p h = (p, tt)
  All-insert_action a (b ∷ actions) p h = elim (Bool-cases (less a b)) [
    | inl e ↦ rw e (p, h)
    | inr e ↦ rw e (h.0, All-insert_action a actions p h.1)
  ]

All-not-less :
    (a b : SyncAction) (actions : List SyncAction)
    → less a b ≡ true
    → All (λ c. less c b ≡ false) actions
    → All (λ c. less c a ≡ false) actions
All-not-less a b [] h all = tt
All-not-less a b (c ∷ actions) h all =
    (ground (arith, all.0, less_trans c a b), All-not-less a b actions h all.1)

insert_action-IsSorted :
    (a : SyncAction) (actions : List SyncAction)
    → IsSorted actions
    → IsSorted (insert_action a actions)
unfolding insert_action
insert_action-IsSorted a [] s = (tt, tt)
insert_action-IsSorted a (b ∷ actions) s = elim (Bool-cases (less a b)) [
  | inl e ↦ rw e ((less_asymm a b e, All-not-less a b actions e s.0), s)
  | inr e ↦ rw e (
    All-insert_action (λ c. less c b ≡ false) a actions e s.0,
    insert_action-IsSorted a actions s.1,
  )
]

insert_action-perm :
    (a : SyncAction) (actions : List SyncAction) → Perm (insert_action a actions) (a ∷ actions)
unfolding insert_action
insert_action-perm a [] = Perm.refl _
insert_action-perm a (b ∷ actions) = elim (Bool-cases (less a b)) [
  | inl e ↦ rw e (Perm.refl _)
  | inr e ↦ rw e (Perm.trans (Perm.cons b (insert_action-perm a actions)) (Perm.swap a b actions))
]

sort_actions-IsSorted : (actions : List SyncAction) → IsSorted (sort_actions actions)
unfolding sort_actions
sort_actions-IsSorted [] = tt
sort_actions-IsSorted (a ∷ actions) =
    insert_action-IsSorted a (sort_actions actions) (sort_actions-IsSorted actions)

sort_actions-perm : (actions : List SyncAction) → Perm (sort_actions actions) actions
unfolding sort_actions
sort_actions-perm [] = Perm.refl []
sort_actions-perm (a ∷ actions) =
    Perm.trans (insert_action-perm a (sort_actions actions))
      (Perm.cons a (sort_actions-perm actions))

-- The sorted list is a permutation of the given one, and no action in it is less than an earlier one.
pub sort_actions_lem :
    (actions : List SyncAction)
    → IsSorted (sort_actions actions) × Perm (sort_actions actions) actions
sort_actions_lem actions = (sort_actions-IsSorted actions, sort_actions-perm actions)

Member-insert_action :
    (x a : SyncAction) (actions : List SyncAction)
    → Member x (insert_action a actions) ↔ ((x ≡ a) ⊎ Member x actions)
unfolding insert_action
Member-insert_action x a [] = ground arith
Member-insert_action x a (b ∷ actions) = ground (arith, Member-insert_action x a actions)

pub Member-sort_actions :
    (x : SyncAction) (actions : List SyncAction)
    → Member x (sort_actions actions) ↔ Member x actions
unfolding sort_actions
Member-sort_actions x [] = ground arith
Member-sort_actions x (a ∷ actions) =
    ground (arith, Member-insert_action x a (sort_actions actions), Member-sort_actions x actions)
