-- ===== src/Drive/Operations/Stale.antt =====
-- What a deletion in internal/adapter/gdrive/gdrive.go leaves in the cache.
use syncrules.Prelude.{
  Text, text_eq, text_iff, none, some, [], ◌∷◌, ◌==◌, if◌then◌else◌, Option-cases, Result-cases, ok,
  ◌≡◌, inl, inr, ap, sym, ◌∙◌, arith,
}
use syncrules.Prelude.Dict.{lookup}
use syncrules.Drive.{DriveService}
use syncrules.Paths.Parts.{IsName}
use syncrules.Drive.Names.{join_path}
use syncrules.Drive.Names.Inside.{join_path-plain}
use syncrules.Drive.Ids.{Cache, partial_path, forget, get_file_id}
use syncrules.Drive.Ids.Plain.{partial_path-ne, get_file_id-plain, get_or_create-plain}
use syncrules.Drive.Operations.{find, delete, mkdir}

pub lookup-forget :
    (key path : Text) (cache : Cache)
    → lookup key (forget path cache) ≡ (if path == key then none else lookup key cache)
unfolding lookup forget
lookup-forget key path [] = ground arith
lookup-forget key path ((k, id) ∷ cache) =
    ground (arith, text_iff path k, text_iff path key, text_iff key k, lookup-forget key path cache)

module _ {W : Type 0} (service : DriveService W) where
  delete_inv :
      (root : Text) (w w' : W) (cache cache' : Cache) (path : Text)
      → delete service root w cache path ≡ (w', cache', none)
      → (cache1 : Cache) × (full id : Text) × (find service root w cache path
          ≡ (cache1, ok (full, id)))
        × (cache' ≡ forget full cache1)
  unfolding delete
  delete_inv root w w' cache cache' path h =
      elim (Result-cases (find service root w cache path).1) [
        | inr (e, f) ↦ absurd (ground arith)
        | inl ((full, id), f) ↦ elim (Option-cases (service.delete w id).1) [
          | inr (e, g) ↦ absurd (ground arith)
          | inl g ↦ ((find service root w cache path).0, full, id, ground arith, ground arith)
        ]
      ]

  find_inv :
      (root : Text) (w : W) (cache cache1 : Cache) (path full id : Text)
      → find service root w cache path ≡ (cache1, ok (full, id))
      → (join_path root path ≡ ok full) × (get_file_id service w cache full ≡ (cache1, ok id))
  unfolding find
  find_inv root w cache cache1 path full id h = elim (Result-cases (join_path root path)) [
    | inr (x, e) ↦ absurd (ground arith)
    | inl (f, e) ↦ elim (Result-cases (get_file_id service w cache f).1) [
      | inr (x, g) ↦ absurd (ground arith)
      | inl (i, g) ↦ ground arith
    ]
  ]

  plain-full : (name full : Text) → IsName name → join_path [] name ≡ ok full → full ≡ name
  plain-full name full h e = ground (arith, join_path-plain name h)

  -- After a successful `Delete` of a name in the drive's own root, `Mkdir` of that name succeeds and makes
  -- nothing, whatever the service does: it takes the identifier of the deleted file from the cache.
  pub mkdir-delete-stale :
      (w w' : W) (cache cache' : Cache) (name : Text)
      → IsName name
      → lookup name cache ≡ none
      → delete service [] w cache name ≡ (w', cache', none)
      → mkdir service [] w' cache' name ≡ (w', cache', none)
  unfolding mkdir
  mkdir-delete-stale w w' cache cache' name h absent deleted =
      let (cache1, full, id, found, forgotten) = delete_inv [] w w' cache cache' name deleted in
      let (at, file_id) = find_inv [] w cache cache1 name full id found in
      let same = plain-full name full h at in
      let cached =
        get_file_id-plain service w cache cache1 name id h absent
          (ap (get_file_id service w cache) (sym same) ∙ file_id) in
      let gone : lookup name cache' ≡ none =
        ground (arith, lookup-forget name full cache1, text_iff full name) in
      let kept : lookup (partial_path (name ∷ [])) cache' ≡ some id = ground (
        arith,
        lookup-forget (partial_path (name ∷ [])) full cache1,
        text_iff full (partial_path (name ∷ [])),
        partial_path-ne name h,
      ) in
      ground (arith, get_or_create-plain service w' cache' name id h gone kept)
