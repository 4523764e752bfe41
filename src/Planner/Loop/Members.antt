-- ===== src/Planner/Loop/Members.antt =====
-- What a loop of the planner appends, key by key.
use syncrules.Prelude.{
  Text, text_eq, text_iff, Option, none, some, List, [], ◌∷◌, ◌≡◌, ◌≢◌, ◌⊎◌, ◌↔◌, inl, inr, arith,
  Member, All, All-Member, Option-cases,
}
use syncrules.Prelude.Dict.{Dict, lookup, NodupKeys}
use syncrules.Domain.{SyncAction}
use syncrules.Planner.Loop.{append_some, collect, at_key}
use syncrules.Planner.Order.Sorted.{DistinctPaths}

-- The body appends actions about its own key.
abbrev pub KeepsPath : {V : Type 0} → (Text → V → Option SyncAction) → Type 0
KeepsPath {V} step = (path : Text) (v : V) (a : SyncAction) → step path v ≡ some a → a.path ≡ path

Member-append_some :
    (a : SyncAction) (o : Option SyncAction) (rest : List SyncAction)
    → Member a (append_some o rest) ↔ ((o ≡ some a) ⊎ Member a rest)
Member-append_some a none rest = ground arith
Member-append_some a (some b) rest = ground arith

module _ {V : Type 0} (step : Text → V → Option SyncAction) (keeps : KeepsPath step) where
  pub Member-collect :
      (m : Dict V) (a : SyncAction)
      → NodupKeys m
      → Member a (collect step m) ↔ (at_key step m a.path ≡ some a)
  unfolding collect lookup
  Member-collect [] a u = ground arith
  Member-collect ((path, v) ∷ m) a (fresh, u) = ground (
    arith,
    text_iff a.path path,
    Member-append_some a (step path v) (collect step m),
    keeps path v a,
    Member-collect m a u,
  )

  at_key-fresh :
      (path : Text) (m : Dict V) (a : SyncAction)
      → lookup path m ≡ none
      → at_key step m a.path ≡ some a
      → path ≢ a.path
  at_key-fresh path m a fresh h e = ground arith

  fresh_paths :
      (path : Text) (m : Dict V)
      → NodupKeys m
      → lookup path m ≡ none
      → All (λ (b : SyncAction). path ≢ b.path) (collect step m)
  fresh_paths path m u fresh =
      All-Member (λ b. path ≢ b.path) (collect step m)
        (λ b k. at_key-fresh path m b fresh ((Member-collect m b u).0 k))

  pub collect-DistinctPaths : (m : Dict V) → NodupKeys m → DistinctPaths (collect step m)
  unfolding collect
  collect-DistinctPaths [] u = tt
  collect-DistinctPaths ((path, v) ∷ m) (fresh, u) = elim (Option-cases (step path v)) [
    | inl e ↦ rw e (collect-DistinctPaths m u)
    | inr (a, e) ↦
        rw e (rw (keeps path v a e) (fresh_paths path m u fresh), collect-DistinctPaths m u)
  ]
