-- ===== src/Local/Storages.antt =====
-- Two adapters of internal/adapter/local/local.go as the storages that internal/service/sync.go synchronises.
use syncrules.Prelude.{sym, ℕ, Text, Bool, Option, some, [], ◌≡◌, ap, arith}
use syncrules.Adapter.{Adapter}
use syncrules.Service.Storage.{Node, file, Kept, Storage, ChangesOnly}
use syncrules.Service.Replicas.{Half, Replicas, Touches}
use syncrules.Local.{Os}
use syncrules.Local.Hashing.{adapter}
use syncrules.Local.Writing.Places.{
  NodeLaws, Places, swapped, from_view, to_view, write-Touches, mkdir-Touches, delete-Touches,
  read-view,
}

-- The bytes of a file.
abbrev bytes_of : Option Node → Text
bytes_of (some (file s)) = s
bytes_of _ = []

Kept-bytes_of : (x y : Option Node) → Kept x y → bytes_of y ≡ bytes_of x
Kept-bytes_of x y h = ground arith

-- One half of two replicas is the storage of a push.
module _ {W : Type 0} (covers : Text → Type 0) (source target : Adapter W)
    (source_view target_view : W → Text → Option Node)
    (half : Half covers source target source_view target_view) where
  abbrev bytes : W → Text → Text
  bytes w p = bytes_of (source_view w p)

  only :
      (w w' : W) (p : Text)
      → Touches covers source_view target_view w w' p
      → ChangesOnly covers bytes target_view w w' p
  only w w' p (others, kept) = (others, λ q k. Kept-bytes_of _ _ (kept q k))

  pub Half-Storage : Storage covers source target
  Half-Storage = record {
    original = bytes;
    view = target_view;
    read_law = λ w p c k h f. sym (ap bytes_of (half.read_law w p c k h f));
    write_law = λ w p c k h.
        let (whole, put, touches) = half.write_law w p c k h in (whole, put, only w _ p touches);
    mkdir_law = λ w p k h. let (put, touches) = half.mkdir_law w p k h in (put, only w _ p touches);
    delete_law =
        λ w p k h. let (put, touches) = half.delete_law w p k h in (put, only w _ p touches);
  }

module _ {W : Type 0} (os : Os W) (laws : NodeLaws os) (hash : Text → Text) (done : ℕ → Bool)
    (root_from root_to : Text) (covers : Text → Type 0) where
  abbrev pub at_root : Text → Adapter W
  at_root root = adapter os hash done root

  pub Places-Half :
      (places : Places root_from root_to covers)
      → Half covers
          (at_root root_from)
          (at_root root_to)
          (from_view os laws root_from root_to covers places)
          (to_view os laws root_from root_to covers places)
  Places-Half places = record {
    read_law = read-view os laws root_from root_to covers places;
    write_law = write-Touches os laws root_from root_to covers places;
    mkdir_law = mkdir-Touches os laws root_from root_to covers places;
    delete_law = delete-Touches os laws root_from root_to covers places;
  }

-- The local adapters of two roots, on paths with places of their own, are the storages of a push, and those of a
-- two-way rule.
module _ {W : Type 0} (os : Os W) (laws : NodeLaws os) (hash : Text → Text) (done : ℕ → Bool)
    (root_from root_to : Text) (covers : Text → Type 0)
    (places : Places root_from root_to covers) where
  pub local-Storage : Storage covers (adapter os hash done root_from) (adapter os hash done root_to)
  local-Storage =
      Half-Storage covers (adapter os hash done root_from) (adapter os hash done root_to)
        (from_view os laws root_from root_to covers places)
        (to_view os laws root_from root_to covers places)
        (Places-Half os laws hash done root_from root_to covers places)

  pub local-Replicas :
      Replicas covers (adapter os hash done root_from) (adapter os hash done root_to)
  local-Replicas = record {
    source_view = from_view os laws root_from root_to covers places;
    target_view = to_view os laws root_from root_to covers places;
    push = Places-Half os laws hash done root_from root_to covers places;
    pull = Places-Half os laws hash done root_to root_from covers (swapped places);
  }
