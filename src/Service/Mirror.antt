-- ===== src/Service/Mirror.antt =====
-- What the target holds after `ExecuteSync` of internal/service/sync.go has executed a push.
use syncrules.Prelude.{Text, Bool, Option, none, some, ◌≡◌, ◌≢◌, ◌⊎◌}
use syncrules.Prelude.Dict.{Dict, lookup}
use syncrules.Domain.{
  FileInfo, regular, directory, SyncAction, SyncRule, ActionType, copy, delete, mkdir,
  source_to_target,
}
use syncrules.Adapter.{Adapter}
use syncrules.Planner.OneWay.Plans.{InSync}
use syncrules.Service.Storage.{folder, file, Kept, Storage}
use syncrules.Diff.Content.{SameContent}

abbrev ToTarget : SyncAction → Type 0
ToTarget a = a.direction ≡ source_to_target

module _ {W : Type 0} (covers : Text → Type 0) (source target : Adapter W)
    (storage : Storage covers source target) where
  abbrev Known : SyncAction → Type 0
  Known a = covers a.path

  -- What stands at the path of an action of the given type in the end.
  abbrev pub Fate : ActionType → Text → W → W → Type 0
  Fate copy path w w' = storage.view w' path ≡ some (file (storage.original w path))
  Fate mkdir path w w' = storage.view w' path ≡ some folder
  Fate delete path w w' = Kept none (storage.view w' path)
  Fate _ path w w' = Kept (storage.view w path) (storage.view w' path)

  -- What the two listings ask of a path of the target.
  abbrev pub Mirrored : Option FileInfo → Option FileInfo → Text → W → W → Type 0
  Mirrored none none path w w' = Kept (storage.view w path) (storage.view w' path)
  Mirrored none (some t) path w w' = Kept none (storage.view w' path)
  Mirrored (some f) none path w w' =
      (f.type ≡ directory → storage.view w' path ≡ some folder)
      × (f.type ≢ directory → storage.view w' path ≡ some (file (storage.original w path)))
  Mirrored (some f) (some t) path w w' =
      (f.type ≡ regular
        → t.type ≡ regular
        → (¬ SameContent f t)
        → storage.view w' path ≡ some (file (storage.original w path)))
      × (InSync (some f) (some t) → Kept (storage.view w path) (storage.view w' path))
      × (f.type ≢ t.type → Kept (storage.view w path) (storage.view w' path))

  module _ (glob : Text → Text → Option Bool) (rule : SyncRule)
      (from_map to_map : Dict FileInfo) where
    abbrev FateOfPlan : Text → W → W → Option SyncAction → Type 0
    FateOfPlan path w w' none = Kept (storage.view w path) (storage.view w' path)
    FateOfPlan path w w' (some a) = Fate a.type path w w'

    -- The paths of the entries are in question.
    abbrev pub Listed : Type 0
    Listed = (p : Text) → (lookup p from_map ≢ none) ⊎ (lookup p to_map ≢ none) → covers p
