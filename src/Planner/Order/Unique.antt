-- ===== src/Planner/Order/Unique.antt =====
-- The order of `sortActions` leaves one result for actions of distinct paths, so that neither the
-- algorithm of `sort.Slice` nor the order of a map shows in a plan.
use syncrules.Prelude.{
  false, List, [], ◌∷◌, ◌≡◌, ◌≢◌, ◌⊎◌, ◌↔◌, inl, inr, refl, sym, ap, ◌∙◌, arith, Member, All,
  Member-All, All-Member, All-append, ◌++◌, Bool-cases,
}
use syncrules.Domain.{SyncAction}
use syncrules.Planner.Order.{less, insert_action, sort_actions}
use syncrules.Planner.Order.Less.{less_total}
use syncrules.Planner.Order.Sorted.{
  IsSorted, DistinctPaths, All-insert_action, sort_actions_lem, Member-sort_actions,
}

insert_action-DistinctPaths :
    (a : SyncAction) (actions : List SyncAction)
    → DistinctPaths (a ∷ actions)
    → DistinctPaths (insert_action a actions)
unfolding insert_action
insert_action-DistinctPaths a [] d = d
insert_action-DistinctPaths a (b ∷ actions) (fresh, d) = elim (Bool-cases (less a b)) [
  | inl e ↦ rw e (fresh, d)
  | inr e ↦ rw e (
    All-insert_action (λ c. b.path ≢ c.path) a actions (λ p. fresh.0 (sym p)) d.0,
    insert_action-DistinctPaths a actions (fresh.1, d.1),
  )
]

All-sort_actions :
    (P : SyncAction → Type 0) (actions : List SyncAction)
    → All P actions
    → All P (sort_actions actions)
unfolding sort_actions
All-sort_actions P [] h = tt
All-sort_actions P (a ∷ actions) h =
    All-insert_action P a (sort_actions actions) h.0 (All-sort_actions P actions h.1)

pub sort_actions-DistinctPaths :
    (actions : List SyncAction) → DistinctPaths actions → DistinctPaths (sort_actions actions)
unfolding sort_actions
sort_actions-DistinctPaths [] d = tt
sort_actions-DistinctPaths (a ∷ actions) d =
    insert_action-DistinctPaths a (sort_actions actions)
      (All-sort_actions (λ c. a.path ≢ c.path) actions d.0, sort_actions-DistinctPaths actions d.1)

abbrev pub SameMembers : List SyncAction → List SyncAction → Type 0
SameMembers xs ys = (a : SyncAction) → Member a xs ↔ Member a ys

head_unique :
    (x y : SyncAction) (xs ys : List SyncAction)
    → All (λ (b : SyncAction). x.path ≢ b.path) xs
    → All (λ b. less b x ≡ false) xs
    → All (λ b. less b y ≡ false) ys
    → (x ≡ y) ⊎ Member x ys
    → (y ≡ x) ⊎ Member y xs
    → x ≡ y
head_unique x y xs ys d sx sy (inl e) m = e
head_unique x y xs ys d sx sy (inr k) (inl e) = sym e
head_unique x y xs ys d sx sy (inr k) (inr m) = ground (
  arith,
  less_total x y (Member-All (λ (b : SyncAction). x.path ≢ b.path) xs y d m),
  Member-All (λ b. less b x ≡ false) xs y sx m,
  Member-All (λ b. less b y ≡ false) ys x sy k,
)

tail_members :
    (x y : SyncAction) (xs ys : List SyncAction)
    → x ≡ y
    → All (λ (b : SyncAction). x.path ≢ b.path) xs
    → ((a : SyncAction) → Member a (x ∷ xs) → Member a (y ∷ ys))
    → (a : SyncAction) → Member a xs
    → Member a ys
tail_members x y xs ys e d h a m = elim (h a (inr m)) [
  | inl p ↦ absurd (
      Member-All (λ (b : SyncAction). x.path ≢ b.path) xs a d m
        (ap (λ (b : SyncAction). b.path) (e ∙ sym p)))
  | inr k ↦ k
]

IsSorted-unique :
    (xs ys : List SyncAction)
    → DistinctPaths xs
    → DistinctPaths ys
    → IsSorted xs
    → IsSorted ys
    → SameMembers xs ys
    → xs ≡ ys
IsSorted-unique [] [] dx dy sx sy h = refl
IsSorted-unique [] (y ∷ ys) dx dy sx sy h = absurd ((h y).1 (inl refl))
IsSorted-unique (x ∷ xs) [] dx dy sx sy h = absurd ((h x).0 (inl refl))
IsSorted-unique (x ∷ xs) (y ∷ ys) dx dy sx sy h =
    cc (e, IsSorted-unique xs ys dx.1 dy.1 sx.1 sy.1 rest)
  where
    e : x ≡ y
    e = head_unique x y xs ys dx.0 sx.0 sy.0 ((h x).0 (inl refl)) ((h y).1 (inl refl))

    rest : SameMembers xs ys
    rest a = (
      tail_members x y xs ys e dx.0 (λ b. (h b).0) a,
      tail_members y x ys xs (sym e) dy.0 (λ b. (h b).1) a,
    )

-- For actions of distinct paths, every list of distinct paths that has the same members and that is
-- sorted, so whatever `sort.Slice` returns, is the result of `sort_actions`.
pub sort_actions_unique :
    (actions sorted : List SyncAction)
    → DistinctPaths actions
    → DistinctPaths sorted
    → IsSorted sorted
    → SameMembers sorted actions
    → sorted ≡ sort_actions actions
sort_actions_unique actions sorted d ds s h =
    IsSorted-unique sorted (sort_actions actions) ds (sort_actions-DistinctPaths actions d) s
      (sort_actions_lem actions).0 (λ a. ground (arith, h a, Member-sort_actions a actions))

-- Two lists of distinct paths with the same members are sorted alike.
pub sort_actions-SameMembers :
    (xs ys : List SyncAction)
    → DistinctPaths xs
    → DistinctPaths ys
    → SameMembers xs ys
    → sort_actions xs ≡ sort_actions ys
sort_actions-SameMembers xs ys dx dy h =
    sort_actions_unique ys (sort_actions xs) dy (sort_actions-DistinctPaths xs dx)
      (sort_actions_lem xs).0 (λ a. ground (arith, h a, Member-sort_actions a xs))

pub append-DistinctPaths :
    (xs ys : List SyncAction)
    → DistinctPaths xs
    → DistinctPaths ys
    → ((a b : SyncAction) → Member a xs → Member b ys → a.path ≢ b.path)
    → DistinctPaths (xs ++ ys)
append-DistinctPaths [] ys dx dy h = dy
append-DistinctPaths (x ∷ xs) ys dx dy h = (
  All-append (λ (b : SyncAction). x.path ≢ b.path) xs ys dx.0
      (All-Member (λ b. x.path ≢ b.path) ys (λ b m. h x b (inl refl) m)),
  append-DistinctPaths xs ys dx.1 dy (λ a b ma mb. h a b (inr ma) mb),
)
