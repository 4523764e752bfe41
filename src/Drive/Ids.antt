-- ===== src/Drive/Ids.antt =====
-- The cache of identifiers of internal/adapter/gdrive/gdrive.go, and how a path is resolved through it.
pub mod Fresh
pub mod Again
pub mod Plain
use mathlib.Core.Option
use syncrules.Prelude.{
  ℕ, Text, text_eq, codes, Option, none, some, List, [], ◌∷◌, ◌++◌, ◌==◌, if◌then◌else◌, Result, ok,
  err,
}
use syncrules.Prelude.Dict.{Dict, lookup, insert}
use syncrules.Paths.{slash, split_slash, join_slash}
use syncrules.Domain.{Error, not_found}
use syncrules.Drive.{DriveService, DriveFile, Page, map_error, mime_type_folder}
use syncrules.Drive.Queries.{name_query, folder_query}
use syncrules.Drive.Names.{trim_first_slash}

-- `idCache.paths`: its `get` is `lookup` and its `set` is `insert`.
abbrev pub Cache : Type 0
Cache = Dict Text

-- `idCache.delete`
unfoldable pub forget : Text → Cache → Cache
forget path [] = []
forget path ((k, id) ∷ cache) =
    let rest = forget path cache in if path == k then rest else (k, id) ∷ rest

abbrev pub root_id : Text
root_id = codes "root"

-- `strings.Split(strings.TrimPrefix(fullPath, "/"), "/")`
abbrev pub parts_of_full : Text → List Text
parts_of_full path = split_slash (trim_first_slash path)

-- `"/" + strings.Join(parts[:i+1], "/")`
abbrev pub partial_path : List Text → Text
partial_path parts = slash ∷ join_slash parts

module _ {W : Type 0} (service : DriveService W) where
  -- The loop of `getFileID`; `before` are the parts that are done.
  pub walk : W → Cache → Text → List Text → List Text → Cache × Result Error Text
  unfolding map_error
  walk w cache id before [] = (cache, ok id)
  walk w cache id before (part ∷ parts) =
      let skipped = walk w cache id (before ++ part ∷ []) parts in
      if part == [] then skipped else elim (service.list w (name_query part id) 1 []) [
        | err e ↦ (cache, err (map_error e))
        | ok page ↦ elim page.files [
          | [] ↦ (cache, err not_found)
          | file ∷ _ ↦
              walk w (insert (partial_path (before ++ part ∷ [])) file.id cache) file.id
                (before ++ part ∷ []) parts
        ]
      ]

  -- `getFileID`
  unfoldable pub get_file_id : W → Cache → Text → Cache × Result Error Text
  unfolding walk
  get_file_id w cache path = elim (lookup path cache) [
    | some id ↦ (cache, ok id)
    | none ↦
        if path == [] then (cache, ok root_id) else walk w cache root_id [] (parts_of_full path)
  ]

  -- The folder of a name below a parent, which is created if there is none.
  find_or_create : W → Text → Text → W × Result Error Text
  unfolding map_error
  find_or_create w part id = elim (service.list w (folder_query part id) 1 []) [
    | err e ↦ (w, err (map_error e))
    | ok page ↦ elim page.files [
      | file ∷ _ ↦ (w, ok file.id)
      | [] ↦
          let (w1, created) = service.create w part mime_type_folder id none in
          elim created [ err e ↦ (w1, err (map_error e)) | ok new_id ↦ (w1, ok new_id) ]
    ]
  ]

  -- The loop of `getOrCreateFolderID`.
  pub make_parts : W → Cache → Text → List Text → List Text → W × Cache × Result Error Text
  unfolding find_or_create
  make_parts w cache id before [] = (w, cache, ok id)
  make_parts w cache id before (part ∷ parts) =
      let skipped = make_parts w cache id (before ++ part ∷ []) parts in
      if part == [] then skipped else elim (lookup (partial_path (before ++ part ∷ [])) cache) [
        | some known ↦ make_parts w cache known (before ++ part ∷ []) parts
        | none ↦
            let (w1, found) = find_or_create w part id in
            elim found [
              | err e ↦ (w1, cache, err e)
              | ok new_id ↦
                  make_parts w1 (insert (partial_path (before ++ part ∷ [])) new_id cache) new_id
                    (before ++ part ∷ []) parts
            ]
      ]

  -- `getOrCreateFolderID`
  unfoldable pub get_or_create_folder_id : W → Cache → Text → W × Cache × Result Error Text
  unfolding make_parts
  get_or_create_folder_id w cache path =
      if path == [] then (w, cache, ok root_id) else elim (lookup path cache) [
        | some id ↦ (w, cache, ok id)
        | none ↦ make_parts w cache root_id [] (parts_of_full path)
      ]
