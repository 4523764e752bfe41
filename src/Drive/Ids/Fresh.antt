-- ===== src/Drive/Ids/Fresh.antt =====
-- `getFileID` of internal/adapter/gdrive/gdrive.go against a resolution without a cache.
use syncrules.Prelude.{
  Text, text_eq, text_iff, false, text_beq, some, List, [], ◌∷◌, ◌++◌, ◌==◌, if◌then◌else◌,
  Bool-cases, Option-cases, List-cases, Result-cases, Result, ok, err, ◌≡◌, refl, inl, inr, ap, sym,
  ◌∙◌, arith, All, All-append,
}
use syncrules.Prelude.Dict.{lookup, insert, lookup-insert}
use syncrules.Paths.{split_slash}
use syncrules.Paths.Parts.{NoSlash, split_slash-NoSlash, split_slash-join_slash}
use syncrules.Domain.{Error, not_found}
use syncrules.Drive.{DriveService, map_error}
use syncrules.Drive.Queries.{name_query}
use syncrules.Drive.Names.{trim_first_slash}
use syncrules.Drive.Ids.{Cache, root_id, parts_of_full, partial_path, walk, get_file_id}

module _ {W : Type 0} (service : DriveService W) where
  -- The first file of a name below a parent.
  child : W → Text → Text → Result Error Text
  unfolding map_error
  child w part id = elim (service.list w (name_query part id) 1 []) [
    | err e ↦ err (map_error e)
    | ok page ↦ elim page.files [ [] ↦ err not_found | file ∷ _ ↦ ok file.id ]
  ]

  -- Down the parts from an identifier, with no cache.
  locate : W → Text → List Text → Result Error Text
  locate w id [] = ok id
  locate w id (part ∷ parts) =
      let skipped = locate w id parts in
      if part == []
      then skipped
      else elim (child w part id) [ err e ↦ err e | ok next ↦ locate w next parts ]

  -- What a path stands for in the storage.
  pub fresh_id : W → Text → Result Error Text
  unfolding locate
  fresh_id w path = locate w root_id (parts_of_full path)

  -- What the cache holds is so in the storage.
  abbrev pub IsSound : W → Cache → Type 0
  IsSound w cache = (path id : Text) → lookup path cache ≡ some id → fresh_id w path ≡ ok id

  locate-append :
      (w : W) (id id' : Text) (front back : List Text)
      → locate w id front ≡ ok id'
      → locate w id (front ++ back) ≡ locate w id' back
  unfolding locate
  locate-append w id id' [] back h = ground arith
  locate-append w id id' (part ∷ front) back h = elim (Result-cases (child w part id)) [
    | inl (next, e) ↦
        ground (arith, locate-append w next id' front back, locate-append w id id' front back)
    | inr (x, e) ↦ ground (arith, locate-append w id id' front back)
  ]

  -- One round of the walk, by the child that it finds.
  walk-child :
      (w : W) (cache : Cache) (id : Text) (before : List Text) (part : Text) (parts : List Text)
      → (part == []) ≡ false
      → walk service w cache id before (part ∷ parts) ≡ elim (child w part id) [
        | err e ↦ (cache, err e)
        | ok next ↦
            walk service w
              (insert (partial_path (before ++ part ∷ [])) next cache)
              next
              (before ++ part ∷ [])
              parts
      ]
  unfolding walk child
  walk-child w cache id before part parts h =
      elim (Result-cases (service.list w (name_query part id) 1 [])) [
        | inr (x, e) ↦ rw (h, e) refl
        | inl (page, e) ↦ elim (List-cases page.files) [
          | inl f ↦ rw (h, e, f) refl
          | inr (file, rest, f) ↦ rw (h, e, f) refl
        ]
      ]

  parts_of_full-partial_path :
      (before : List Text) (part : Text)
      → All NoSlash (before ++ part ∷ [])
      → parts_of_full (partial_path (before ++ part ∷ [])) ≡ before ++ part ∷ []
  unfolding trim_first_slash
  parts_of_full-partial_path [] part h = split_slash-join_slash part [] h
  parts_of_full-partial_path (first ∷ before) part h =
      split_slash-join_slash first (before ++ part ∷ []) h

  insert-IsSound :
      (w : W) (cache : Cache) (before : List Text) (part next : Text)
      → All NoSlash (before ++ part ∷ [])
      → locate w root_id (before ++ part ∷ []) ≡ ok next
      → IsSound w cache
      → IsSound w (insert (partial_path (before ++ part ∷ [])) next cache)
  unfolding fresh_id
  insert-IsSound w cache before part next h e sound path id found =
      let key = partial_path (before ++ part ∷ []) in
      let at = lookup-insert path key next cache in
      elim (Bool-cases (path == key)) [
        | inl same ↦
            let here = ap (locate w root_id) (
              ap parts_of_full ((text_iff path key).0 same)
              ∙ parts_of_full-partial_path before part h) in
            here ∙ e ∙ ground arith
        | inr other ↦ sound path id (ground arith)
      ]

  walk-Fresh :
      (w : W) (cache : Cache) (id : Text) (before parts : List Text)
      → All NoSlash before
      → All NoSlash parts
      → IsSound w cache
      → locate w root_id before ≡ ok id
      → ((walk service w cache id before parts).1 ≡ locate w id parts)
        × IsSound w (walk service w cache id before parts).0
  unfolding walk locate
  walk-Fresh w cache id before [] h k sound e = (refl, sound)
  walk-Fresh w cache id before (part ∷ parts) h k sound e =
      let more = All-append NoSlash before (part ∷ []) h (k.0, tt) in
      let below = locate-append w root_id id before (part ∷ []) e in
      elim (Bool-cases (part == [])) [
        | inl empty ↦
            rw (empty, walk, locate)
              (walk-Fresh w cache id (before ++ part ∷ []) parts more k.1 sound
                (below ∙ rw (empty, locate) refl))
        | inr full ↦ elim (Result-cases (child w part id)) [
          | inr (x, f) ↦ rw (walk-child w cache id before part parts full, full, f) (refl, sound)
          | inl (next, f) ↦
              let here : locate w root_id (before ++ part ∷ []) ≡ ok next =
                below ∙ rw (full, f) refl in
              rw (walk-child w cache id before part parts full, full, f)
                (walk-Fresh w (insert (partial_path (before ++ part ∷ [])) next cache) next
                  (before ++ part ∷ []) parts more k.1
                  (insert-IsSound w cache before part next more here sound) here)
        ]
      ]

  fresh_id-nil : (w : W) → fresh_id w [] ≡ ok root_id
  unfolding fresh_id locate split_slash trim_first_slash text_beq
  fresh_id-nil w = refl

  -- On a sound cache `getFileID` gives what the storage says, errors included, and the cache stays sound.
  pub get_file_id-IsSound :
      (w : W) (cache : Cache) (path : Text)
      → IsSound w cache
      → ((get_file_id service w cache path).1 ≡ fresh_id w path)
        × IsSound w (get_file_id service w cache path).0
  unfolding get_file_id fresh_id
  get_file_id-IsSound w cache path sound = elim (Option-cases (lookup path cache)) [
    | inr (id, e) ↦ rw (e, get_file_id) (sym (sound path id e), sound)
    | inl absent ↦ elim (Bool-cases (path == [])) [
      | inl empty ↦
          rw (absent, empty, get_file_id)
            (sym (ap (fresh_id w) ((text_iff path []).0 empty) ∙ fresh_id-nil w), sound)
      | inr full ↦
          rw (absent, full, get_file_id)
            (walk-Fresh w cache root_id [] (parts_of_full path) tt
              (split_slash-NoSlash (trim_first_slash path)) sound refl)
    ]
  ]
