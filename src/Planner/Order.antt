-- ===== src/Planner/Order.antt =====
-- `sortActions` and `actionTypeOrder` of internal/core/planner/planner.go.
pub mod Less
pub mod Sorted
pub mod Unique
pub mod Parents
use syncrules.Prelude.{
  ℕ, suc, ◌+◌, Text, nat_eq, Bool, true, false, not, List, [], ◌∷◌, ◌==◌, if◌then◌else◌, ltb,
}
use syncrules.Domain.{ActionType, copy, delete, mkdir, conflict, skip, SyncAction}

-- `strings.Count` of a one-byte string.
unfoldable pub count_byte : ℕ → Text → ℕ
count_byte c [] = 0
count_byte c (d ∷ s) = let rest = count_byte c s in if d == c then suc rest else rest

unfoldable pub depth : Text → ℕ
unfolding count_byte
depth path = count_byte b'/' path + count_byte 0x5c path

-- Go's `<` on strings.
unfoldable pub text_less : Text → Text → Bool
text_less s [] = false
text_less [] (d ∷ t) = true
text_less (c ∷ s) (d ∷ t) = if c == d then text_less s t else ltb c d

unfoldable pub action_type_order : ActionType → ℕ
action_type_order mkdir = 1
action_type_order copy = 2
action_type_order delete = 3
action_type_order conflict = 4
action_type_order skip = 5
action_type_order (ActionType.other _) = 99

abbrev pub is_delete : ActionType → Bool
is_delete delete = true
is_delete _ = false

-- The comparison that `sort.Slice` is given.
unfoldable pub less : SyncAction → SyncAction → Bool
unfolding depth text_less action_type_order
less a b =
    if not (action_type_order a.type == action_type_order b.type)
    then ltb (action_type_order a.type) (action_type_order b.type)
    else if not (depth a.path == depth b.path)
    then (if is_delete a.type
        then ltb (depth b.path) (depth a.path)
        else ltb (depth a.path) (depth b.path))
    else text_less a.path b.path

pub insert_action : SyncAction → List SyncAction → List SyncAction
insert_action a [] = a ∷ []
insert_action a (b ∷ actions) = if less a b then a ∷ b ∷ actions else b ∷ insert_action a actions

-- `sort.Slice`, by insertion.
unfoldable pub sort_actions : List SyncAction → List SyncAction
unfolding insert_action less
sort_actions [] = []
sort_actions (a ∷ actions) = insert_action a (sort_actions actions)
