-- ===== src/Planner/Order/Less.antt =====
-- The comparison of `sortActions` is a strict order, total on actions of different paths.
use syncrules.Prelude.{
  Text, nat_eq, true, false, [], ◌∷◌, ◌==◌, ◌≡◌, ◌≢◌, ◌⊎◌, inl, inr, refl, arith,
}
use syncrules.Domain.{ActionType, SyncAction}
use syncrules.Planner.Order.{text_less, action_type_order, is_delete, less}

text_less_irrefl : (s : Text) → text_less s s ≡ false
unfolding text_less
text_less_irrefl [] = refl
text_less_irrefl (c ∷ s) = ground (arith, text_less_irrefl s)

text_less_trans :
    (s t u : Text) → text_less s t ≡ true → text_less t u ≡ true → text_less s u ≡ true
unfolding text_less
text_less_trans s [] u p q = cc
text_less_trans s (d ∷ t) [] p q = cc
text_less_trans [] (d ∷ t) (e ∷ u) p q = refl
text_less_trans (c ∷ s) (d ∷ t) (e ∷ u) p q = ground (arith, text_less_trans s t u)

text_less_total : (s t : Text) → s ≢ t → (text_less s t ≡ true) ⊎ (text_less t s ≡ true)
unfolding text_less
text_less_total [] [] h = absurd (h refl)
text_less_total [] (d ∷ t) h = inl refl
text_less_total (c ∷ s) [] h = inr refl
text_less_total (c ∷ s) (d ∷ t) h = ground (arith, text_less_total s t)

-- Only the rank of a type matters, since 3 is the rank of deletions alone.
is_delete-action_type_order : (t : ActionType) → is_delete t ≡ (action_type_order t == 3)
unfolding action_type_order
is_delete-action_type_order t = ground arith

pub less_irrefl : (a : SyncAction) → less a a ≡ false
unfolding less
less_irrefl a = ground (arith, text_less_irrefl a.path)

pub less_trans : (a b c : SyncAction) → less a b ≡ true → less b c ≡ true → less a c ≡ true
unfolding less
less_trans a b c p q = ground (
  arith,
  text_less_trans a.path b.path c.path,
  is_delete-action_type_order a.type,
  is_delete-action_type_order b.type,
  is_delete-action_type_order c.type,
)

pub less_asymm : (a b : SyncAction) → less a b ≡ true → less b a ≡ false
less_asymm a b p = ground (arith, less_irrefl a, less_trans a b a)

pub less_total : (a b : SyncAction) → a.path ≢ b.path → (less a b ≡ true) ⊎ (less b a ≡ true)
unfolding less
less_total a b h = ground (
  arith,
  text_less_total a.path b.path,
  is_delete-action_type_order a.type,
  is_delete-action_type_order b.type,
)

text_less_split :
    (s t u : Text) → text_less s u ≡ true → (text_less s t ≡ true) ⊎ (text_less t u ≡ true)
unfolding text_less
text_less_split s t [] h = cc
text_less_split s [] (e ∷ u) h = inr refl
text_less_split [] (d ∷ t) (e ∷ u) h = inl refl
text_less_split (c ∷ s) (d ∷ t) (e ∷ u) h = ground (arith, text_less_split s t u)

-- What is between two actions is behind the first or before the second.
pub less_split : (a b c : SyncAction) → less a c ≡ true → (less a b ≡ true) ⊎ (less b c ≡ true)
unfolding less
less_split a b c h = ground (
  arith,
  text_less_split a.path b.path c.path,
  is_delete-action_type_order a.type,
  is_delete-action_type_order b.type,
  is_delete-action_type_order c.type,
)
