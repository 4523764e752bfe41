-- ===== src/Service/Storage.antt =====
-- What `ExecuteSync` of internal/service/sync.go relies on in the two storages of a push, and what one
-- action does to the target.
use syncrules.Prelude.{
  ℕ, Text, Option, none, some, ok, ◌≡◌, ◌≢◌, ◌⊎◌, inl, inr, refl, ap, ◌∙◌, arith, Result-cases,
}
use syncrules.Domain.{SyncAction, ActionType, copy, delete, mkdir, conflict, skip, source_to_target}
use syncrules.Adapter.{Adapter, Content, joined}
use syncrules.Service.Execution.{execute_action, perform, copy_file, written, reported_size}

pub data Node : Type 0 where
  folder : Node
  file : Text → Node

-- A path is as it was, or a folder has been made where nothing was: a backend makes missing parents.
abbrev pub Kept : Option Node → Option Node → Type 0
Kept x y = (x ≡ y) ⊎ ((x ≡ none) × (y ≡ some folder))

pub Kept-trans : (x y z : Option Node) → Kept x y → Kept y z → Kept x z
Kept-trans x y z h k = ground arith

pub Kept-some : (n : Node) (y : Option Node) → Kept (some n) y → y ≡ some n
Kept-some n y h = ground arith

-- Of the paths in question, an operation on a path of the target changes no other path and no file of the
-- source. A backend may change other paths: it has temporary files.
abbrev pub ChangesOnly :
    {W : Type 0}
    → (Text → Type 0)
    → (W → Text → Text)
    → (W → Text → Option Node)
    → W
    → W
    → Text
    → Type 0
ChangesOnly covers original view w w' path =
    ((q : Text) → covers q → q ≢ path → Kept (view w q) (view w' q))
    × ((q : Text) → covers q → original w' q ≡ original w q)

-- The bytes of the source's files, what stands in the target, and the effect of the operations that succeed on
-- the paths in question.
pub record Storage {W : Type 0} (covers : Text → Type 0) (source target : Adapter W) : Type 0 where
  pub original : W → Text → Text
  pub view : W → Text → Option Node
  pub read_law :
      (w : W) (p : Text) (c : Content)
      → covers p
      → source.read w p ≡ ok c
      → c.failure ≡ none
      → joined c ≡ original w p
  pub write_law :
      (w : W) (p : Text) (c : Content)
      → covers p
      → (target.write w p c).1 ≡ none
      → (c.failure ≡ none)
        × (view (target.write w p c).0 p ≡ some (file (joined c)))
        × ChangesOnly covers original view w (target.write w p c).0 p
  pub mkdir_law :
      (w : W) (p : Text)
      → covers p
      → (target.mkdir w p).1 ≡ none
      → (view (target.mkdir w p).0 p ≡ some folder)
        × ChangesOnly covers original view w (target.mkdir w p).0 p
  pub delete_law :
      (w : W) (p : Text)
      → covers p
      → (target.delete w p).1 ≡ none
      → (view (target.delete w p).0 p ≡ none)
        × ChangesOnly covers original view w (target.delete w p).0 p

module _ {W : Type 0} (covers : Text → Type 0) (source target : Adapter W)
    (storage : Storage covers source target) where
  -- What stands at the path of an action right after it.
  abbrev pub Effect : SyncAction → ActionType → W → W → Type 0
  Effect a copy w w' = storage.view w' a.path ≡ some (file (storage.original w a.path))
  Effect a mkdir w w' = storage.view w' a.path ≡ some folder
  Effect a delete w w' = storage.view w' a.path ≡ none
  Effect a _ w w' = storage.view w' a.path ≡ storage.view w a.path

  unchanged : (w : W) (p : Text) → ChangesOnly covers storage.original storage.view w w p
  unchanged w p = (λ q k h. inl refl, λ q k. refl)

  -- A copy that succeeds has read and written.
  copy_file_inv :
      (p : Text) (size : ℕ) (w : W)
      → (copy_file source target p size w).2 ≡ none
      → (c : Content) × (source.read w p ≡ ok c)
        × ((target.write w p c).1 ≡ none)
        × ((copy_file source target p size w).0 ≡ (target.write w p c).0)
  unfolding copy_file written
  copy_file_inv p size w h = elim (Result-cases (source.read w p)) [
    | inr (x, e) ↦ ground arith
    | inl (c, e) ↦ (c, e, ground arith, ground arith)
  ]

  copy_file-Effect :
      (a : SyncAction) (w : W)
      → covers a.path
      → (copy_file source target a.path (reported_size a) w).2 ≡ none
      → Effect a copy w (copy_file source target a.path (reported_size a) w).0
        × ChangesOnly covers storage.original storage.view w
            (copy_file source target a.path (reported_size a) w).0
            a.path
  copy_file-Effect a w known h =
      let (c, read, write, e) = copy_file_inv a.path (reported_size a) w h in
      let law = storage.write_law w a.path c known write in
      rw e (law.1 ∙ ap (λ t. some (file t)) (storage.read_law w a.path c known read law.0), law.2)

  perform-Effect :
      (a : SyncAction) (t : ActionType) (w : W)
      → covers a.path
      → (perform source target a t w).2 ≡ none
      → Effect a t w (perform source target a t w).0
        × ChangesOnly covers storage.original storage.view w (perform source target a t w).0 a.path
  unfolding perform
  perform-Effect a copy w known h = copy_file-Effect a w known h
  perform-Effect a mkdir w known h = storage.mkdir_law w a.path known h
  perform-Effect a delete w known h = storage.delete_law w a.path known h
  perform-Effect a conflict w known h = (refl, unchanged w a.path)
  perform-Effect a skip w known h = (refl, unchanged w a.path)
  perform-Effect a (ActionType.other s) w known h = ground arith

  pub execute_action-Effect :
      (a : SyncAction) (w : W)
      → covers a.path
      → a.direction ≡ source_to_target
      → (execute_action source target a w).2 ≡ none
      → Effect a a.type w (execute_action source target a w).0
        × ChangesOnly covers storage.original storage.view w
            (execute_action source target a w).0
            a.path
  unfolding execute_action
  execute_action-Effect a w known d h =
      rw (d, execute_action) (perform-Effect a a.type w known (rw (d, execute_action) at h))
