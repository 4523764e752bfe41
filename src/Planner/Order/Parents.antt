-- ===== src/Planner/Order/Parents.antt =====
-- The order of `sortActions` and the directories: a directory is made before anything is done below
-- it, and it is deleted after everything below it.
use syncrules.Prelude.{
  ℕ, ◌+◌, Text, false, List, [], ◌∷◌, ◌++◌, nat_eq, ◌≡◌, ap, arith, All, All-map,
}
use syncrules.Domain.{mkdir, delete, SyncAction}
use syncrules.Paths.{slash}
use syncrules.Planner.Order.{count_byte, depth, less, sort_actions}
use syncrules.Planner.Order.Sorted.{IsSorted, sort_actions_lem}

count_byte-append : (c : ℕ) (p q : Text) → count_byte c (p ++ q) ≡ count_byte c p + count_byte c q
unfolding count_byte
count_byte-append c [] q = omega arith
count_byte-append c (d ∷ p) q = ground (arith, count_byte-append c p q)

depth_below : (p q : Text) → depth (p ++ slash ∷ q) ≡ depth p + 1 + depth q
unfolding depth
depth_below p q =
    ground (arith, count_byte-append slash p (slash ∷ q), count_byte-append 0x5c p (slash ∷ q))

-- `a` may be executed before `b`: `b` does not make a directory above `a`, and the two are no deletions
-- of a directory and of something below it.
pub record MayPrecede (a b : SyncAction) : Type 0 where
  pub no_late_mkdir : (rest : Text) → b.type ≡ mkdir → ¬ (a.path ≡ b.path ++ slash ∷ rest)
  pub no_early_delete :
      (rest : Text) → a.type ≡ delete → b.type ≡ delete → ¬ (b.path ≡ a.path ++ slash ∷ rest)

abbrev pub ParentsSafe : List SyncAction → Type 0
ParentsSafe [] = Unit
ParentsSafe (a ∷ actions) = All (MayPrecede a) actions × ParentsSafe actions

MayPrecede-of_not_less : (a b : SyncAction) → less b a ≡ false → MayPrecede a b
unfolding less
MayPrecede-of_not_less a b h = record {
  no_late_mkdir = λ rest m e. ground (arith, depth_below b.path rest, ap depth e);
  no_early_delete = λ rest d d' e. ground (arith, depth_below a.path rest, ap depth e);
}

ParentsSafe-of_IsSorted : (actions : List SyncAction) → IsSorted actions → ParentsSafe actions
ParentsSafe-of_IsSorted [] s = tt
ParentsSafe-of_IsSorted (a ∷ actions) s = (
  All-map (λ b. less b a ≡ false) (MayPrecede a) actions (MayPrecede-of_not_less a) s.0,
  ParentsSafe-of_IsSorted actions s.1,
)

-- In a sorted list no action on a path stands before the creation of a directory above that path, and
-- no deletion of a directory stands before a deletion below it.
pub sort_actions-ParentsSafe : (actions : List SyncAction) → ParentsSafe (sort_actions actions)
sort_actions-ParentsSafe actions =
    ParentsSafe-of_IsSorted (sort_actions actions) (sort_actions_lem actions).0
