-- ===== src/Drive/Ids/Again.antt =====
-- `getOrCreateFolderID` of internal/adapter/gdrive/gdrive.go called again.
use mathlib.Core.List.{append_assoc}
use syncrules.Prelude.{
  Text, text_beq, text_eq, text_iff, some, List, [], ◌∷◌, ◌++◌, Option-cases, Result-cases, Result,
  ok, ◌≡◌, ◌≢◌, refl, inl, inr, ap, sym, ◌∙◌, arith, All,
}
use syncrules.Prelude.Dict.{lookup, insert, lookup-insert}
use syncrules.Paths.Parts.{IsName, split_slash-join_slash}
use syncrules.Paths.Inside.{names-NoSlash}
use syncrules.Domain.{Error}
use syncrules.Drive.{DriveService}
use syncrules.Drive.Names.{trim_first_slash}
use syncrules.Drive.Ids.{
  Cache, root_id, partial_path, find_or_create, make_parts, get_or_create_folder_id,
}

module _ {W : Type 0} (service : DriveService W) where
  -- A round on a name that succeeds leaves it in the cache.
  make_parts_inv :
      (w : W) (r : W × Cache × Result Error Text) (cache : Cache) (id id' : Text)
      (before : List Text) (part : Text) (parts : List Text)
      → part ≢ []
      → make_parts service w cache id before (part ∷ parts) ≡ r
      → r.2 ≡ ok id'
      → (w1 : W) × (cache1 : Cache) × (id1 : Text) × (lookup
            (partial_path (before ++ part ∷ []))
            cache1
          ≡ some id1)
        × (make_parts service w1 cache1 id1 (before ++ part ∷ []) parts ≡ r)
  unfolding make_parts
  make_parts_inv w r cache id id' before part parts h k e =
      let here = partial_path (before ++ part ∷ []) in
      elim (Option-cases (lookup here cache)) [
        | inr (found, f) ↦ (w, cache, found, f, ground (arith, text_iff part []))
        | inl absent ↦
            let made = find_or_create service w part id in
            elim (Result-cases made.1) [
              | inr (x, f) ↦ absurd (ground (arith, text_iff part []))
              | inl (new_id, f) ↦ (
                made.0,
                insert here new_id cache,
                new_id,
                ground (arith, lookup-insert here here new_id cache, text_iff here here),
                ground (arith, text_iff part []),
              )
            ]
      ]

  -- The last part ends in the cache.
  make_parts-cached :
      (w w' : W) (cache cache' : Cache) (id id' : Text) (before : List Text) (part : Text)
      (parts : List Text)
      → All IsName (part ∷ parts)
      → make_parts service w cache id before (part ∷ parts) ≡ (w', cache', ok id')
      → lookup (partial_path (before ++ part ∷ parts)) cache' ≡ some id'
  unfolding make_parts
  make_parts-cached w w' cache cache' id id' before part [] h k =
      let (w1, cache1, id1, found, rest) =
        make_parts_inv w (w', cache', ok id') cache id id' before part [] h.0.0 k refl in
      ground arith
  make_parts-cached w w' cache cache' id id' before part (next ∷ parts) h k =
      let (w1, cache1, id1, found, rest) =
        make_parts_inv w (w', cache', ok id') cache id id' before part (next ∷ parts) h.0.0 k
          refl in
      ap (λ s. lookup (partial_path s) cache')
        (sym (append_assoc before (part ∷ []) (next ∷ parts)))
      ∙ make_parts-cached w1 w' cache1 cache' id1 id' (before ++ part ∷ []) next parts h.1 rest

  get_or_create_folder_id-cached :
      (w w' : W) (cache cache' : Cache) (id : Text) (part : Text) (parts : List Text)
      → All IsName (part ∷ parts)
      → get_or_create_folder_id service w cache (partial_path (part ∷ parts)) ≡ (w', cache', ok id)
      → lookup (partial_path (part ∷ parts)) cache' ≡ some id
  unfolding get_or_create_folder_id trim_first_slash
  get_or_create_folder_id-cached w w' cache cache' id part parts names h =
      let path = partial_path (part ∷ parts) in
      elim (Option-cases (lookup path cache)) [
        | inr (known, e) ↦ ground (arith, text_iff path [])
        | inl absent ↦ make_parts-cached w w' cache cache' root_id id [] part parts names (
            ground (
              arith,
              text_iff path [],
              split_slash-join_slash part parts (names-NoSlash (part ∷ parts) names),
            ))
      ]

  -- After a success the path is in the cache, so that the call gives the same identifier again without
  -- a call of the service.
  pub get_or_create_folder_id-again :
      (w w' w2 : W) (cache cache' : Cache) (id : Text) (part : Text) (parts : List Text)
      → All IsName (part ∷ parts)
      → get_or_create_folder_id service w cache (partial_path (part ∷ parts)) ≡ (w', cache', ok id)
      → get_or_create_folder_id service w2 cache' (partial_path (part ∷ parts))
        ≡ (w2, cache', ok id)
  unfolding get_or_create_folder_id text_beq
  get_or_create_folder_id-again w w' w2 cache cache' id part parts names h =
      rw (get_or_create_folder_id-cached w w' cache cache' id part parts names h) refl
