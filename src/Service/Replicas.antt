-- ===== src/Service/Replicas.antt =====
-- What `ExecuteSync` of internal/service/sync.go relies on in two storages that are synchronised both ways,
-- and what one action does to them.
use syncrules.Prelude.{
  ℕ, Text, Option, none, some, ok, ◌≡◌, ◌≢◌, inl, inr, refl, sym, arith, Result-cases,
}
use syncrules.Domain.{SyncAction, ActionType, copy, delete, mkdir, conflict, skip}
use syncrules.Adapter.{Adapter, Content, joined}
use syncrules.Service.Execution.{perform, copy_file, written, reported_size}
use syncrules.Service.Storage.{Node, folder, file, Kept, Kept-some}

-- Of the paths in question, an operation on a path of one side keeps all others of it, and all of the other
-- side. A backend may change other paths: it has temporary files.
abbrev pub Touches :
    {W : Type 0}
    → (Text → Type 0)
    → (W → Text → Option Node)
    → (W → Text → Option Node)
    → W
    → W
    → Text
    → Type 0
Touches covers from_view to_view w w' path =
    ((q : Text) → covers q → q ≢ path → Kept (to_view w q) (to_view w' q))
    × ((q : Text) → covers q → Kept (from_view w q) (from_view w' q))

-- The effect of the operations that succeed on the paths in question, where one side is read and the other
-- written.
pub record Half {W : Type 0} (covers : Text → Type 0) (from to : Adapter W)
    (from_view to_view : W → Text → Option Node) : Type 0 where
  pub read_law :
      (w : W) (p : Text) (c : Content)
      → covers p
      → from.read w p ≡ ok c
      → c.failure ≡ none
      → from_view w p ≡ some (file (joined c))
  pub write_law :
      (w : W) (p : Text) (c : Content)
      → covers p
      → (to.write w p c).1 ≡ none
      → (c.failure ≡ none)
        × (to_view (to.write w p c).0 p ≡ some (file (joined c)))
        × Touches covers from_view to_view w (to.write w p c).0 p
  pub mkdir_law :
      (w : W) (p : Text)
      → covers p
      → (to.mkdir w p).1 ≡ none
      → (to_view (to.mkdir w p).0 p ≡ some folder)
        × Touches covers from_view to_view w (to.mkdir w p).0 p
  pub delete_law :
      (w : W) (p : Text)
      → covers p
      → (to.delete w p).1 ≡ none
      → (to_view (to.delete w p).0 p ≡ none)
        × Touches covers from_view to_view w (to.delete w p).0 p

pub record Replicas {W : Type 0} (covers : Text → Type 0) (source target : Adapter W) : Type 0 where
  pub source_view : W → Text → Option Node
  pub target_view : W → Text → Option Node
  pub push : Half covers source target source_view target_view
  pub pull : Half covers target source target_view source_view

-- What an action leaves at its path: a copy leaves one file on both sides.
abbrev pub FateAt :
    ActionType → (before after : Option Node) (before' after' : Option Node) → Type 0
FateAt copy from from' to to' =
    (s : Text) × (from ≡ some (file s)) × (from' ≡ some (file s)) × (to' ≡ some (file s))
FateAt mkdir from from' to to' = Kept from from' × (to' ≡ some folder)
FateAt delete from from' to to' = Kept from from' × Kept none to'
FateAt _ from from' to to' = Kept from from' × Kept to to'

-- It stays so where both sides keep the path before and after.
pub FateAt-earlier :
    (t : ActionType) (f f1 f' g g1 g' : Option Node)
    → Kept f f1
    → Kept g g1
    → FateAt t f1 f' g1 g'
    → FateAt t f f' g g'
FateAt-earlier copy f f1 f' g g1 g' k l (s, a, b, c) = (s, ground arith, b, c)
FateAt-earlier mkdir f f1 f' g g1 g' k l h = ground arith
FateAt-earlier delete f f1 f' g g1 g' k l h = ground arith
FateAt-earlier conflict f f1 f' g g1 g' k l h = ground arith
FateAt-earlier skip f f1 f' g g1 g' k l h = ground arith
FateAt-earlier (ActionType.other s) f f1 f' g g1 g' k l h = ground arith

pub FateAt-later :
    (t : ActionType) (f f1 f' g g1 g' : Option Node)
    → Kept f1 f'
    → Kept g1 g'
    → FateAt t f f1 g g1
    → FateAt t f f' g g'
FateAt-later copy f f1 f' g g1 g' k l (s, a, b, c) = (s, a, ground arith, ground arith)
FateAt-later mkdir f f1 f' g g1 g' k l h = ground arith
FateAt-later delete f f1 f' g g1 g' k l h = ground arith
FateAt-later conflict f f1 f' g g1 g' k l h = ground arith
FateAt-later skip f f1 f' g g1 g' k l h = ground arith
FateAt-later (ActionType.other s) f f1 f' g g1 g' k l h = ground arith

module _ {W : Type 0} (covers : Text → Type 0) (from to : Adapter W)
    (from_view to_view : W → Text → Option Node)
    (half : Half covers from to from_view to_view) where
  copy_file-FateAt :
      (p : Text) (size : ℕ) (w : W)
      → covers p
      → (copy_file from to p size w).2 ≡ none
      → let w' = (copy_file from to p size w).0 in
        FateAt copy (from_view w p) (from_view w' p) (to_view w p) (to_view w' p)
        × Touches covers from_view to_view w w' p
  unfolding copy_file written
  copy_file-FateAt p size w known h = elim (Result-cases (from.read w p)) [
    | inr (x, e) ↦ ground arith
    | inl (c, e) ↦
        let saved : (to.write w p c).1 ≡ none = ground arith in
        let moved : (copy_file from to p size w).0 ≡ (to.write w p c).0 = ground arith in
        let (whole, put, touches) = half.write_law w p c known saved in
        let read = half.read_law w p c known e whole in
        let kept = Kept-some (file (joined c)) _ (rw read at (touches.1 p known)) in
        rw moved ((joined c, read, kept, put), touches)
  ]

  pub perform-FateAt :
      (a : SyncAction) (t : ActionType) (w : W)
      → covers a.path
      → (perform from to a t w).2 ≡ none
      → let w' = (perform from to a t w).0 in
        FateAt t (from_view w a.path) (from_view w' a.path) (to_view w a.path) (to_view w' a.path)
        × Touches covers from_view to_view w w' a.path
  unfolding perform
  perform-FateAt a copy w known h = copy_file-FateAt a.path (reported_size a) w known h
  perform-FateAt a mkdir w known h =
      let (put, touches) = half.mkdir_law w a.path known h in
      ((touches.1 a.path known, put), touches)
  perform-FateAt a delete w known h =
      let (put, touches) = half.delete_law w a.path known h in
      ((touches.1 a.path known, inl (sym put)), touches)
  perform-FateAt a conflict w known h = ((inl refl, inl refl), (λ q k n. inl refl, λ q k. inl refl))
  perform-FateAt a skip w known h = ((inl refl, inl refl), (λ q k n. inl refl, λ q k. inl refl))
  perform-FateAt a (ActionType.other s) w known h = ground arith
