-- ===== src/Drive/Operations.antt =====
-- The operations of internal/adapter/gdrive/gdrive.go, on the cache and the state of the storage.
pub mod Paging
pub mod Stale
use mathlib.Core.Option
use syncrules.Prelude.{
  ℕ, zero, suc, Text, text_eq, codes, Bool, true, false, Option, none, some, List, [], ◌∷◌, ◌++◌,
  map, ◌==◌, if◌then◌else◌, Result, ok, err,
}
use syncrules.Prelude.Dict.{insert}
use syncrules.Paths.{dir, base}
use syncrules.Domain.{Error, not_found, wrapped, FileInfo}
use syncrules.Adapter.{Content}
use syncrules.Drive.{DriveService, DriveFile, Page, map_error, file_info}
use syncrules.Drive.Queries.{children_query}
use syncrules.Drive.Names.{normalize_root, join_path}
use syncrules.Drive.Ids.{Cache, forget, get_file_id, get_or_create_folder_id}

-- `Adapter`, without the service.
pub record DriveAdapter : Type 0 where
  pub root : Text
  pub root_id : Text
  pub cache : Cache

abbrev page_size : ℕ
page_size = 100

-- `err == domain.ErrNotFound`, which does not look through wrapping.
abbrev is_not_found : Error → Bool
is_not_found not_found = true
is_not_found _ = false

module _ {W : Type 0} (service : DriveService W) where
  -- `New` and `NewWithToken`, from the point where the service is there.
  unfoldable pub new : W → Text → W × Result Error DriveAdapter
  unfolding normalize_root get_or_create_folder_id
  new w root =
      let path = normalize_root root in
      let (w1, cache, found) = get_or_create_folder_id service w [] path in
      elim found [
        | err e ↦ (w1, err (wrapped (codes "failed to resolve root folder") e))
        | ok id ↦ (w1, ok (record { root = path; root_id = id; cache = insert path id cache }))
      ]

  -- The loop of `List` from a token on; `none` is out of fuel.
  pages : ℕ → W → Text → Text → Option (Result Error (List DriveFile))
  unfolding map_error
  pages zero w query token = none
  pages (suc fuel) w query token = elim (service.list w query page_size token) [
    | err e ↦ some (err (map_error e))
    | ok page ↦
        let rest = pages fuel w query page.next_page_token in
        if page.next_page_token == []
        then some (ok page.files)
        else Option.map (prepend page.files) rest
  ]
    where
      prepend : List DriveFile → Result Error (List DriveFile) → Result Error (List DriveFile)
      prepend files (err e) = err e
      prepend files (ok rest) = ok (files ++ rest)

  infos : Text → Result Error (List DriveFile) → Result Error (List FileInfo)
  infos path (err e) = err e
  infos path (ok files) = ok (map (file_info path) files)

  -- What the operations do first: the path below the root and its identifier.
  unfoldable pub find : Text → W → Cache → Text → Cache × Result Error (Text × Text)
  unfolding join_path get_file_id
  find root w cache path = elim (join_path root path) [
    | err e ↦ (cache, err e)
    | ok full ↦
        let (cache1, found) = get_file_id service w cache full in
        elim found [ err e ↦ (cache1, err e) | ok id ↦ (cache1, ok (full, id)) ]
  ]

  -- `List`
  unfoldable pub list : ℕ → Text → W → Cache → Text → Cache × Option (Result Error (List FileInfo))
  unfolding find pages infos
  list fuel root w cache path =
      let (cache1, found) = find root w cache path in
      elim found [
        | err e ↦ (cache1, some (err e))
        | ok (full, id) ↦ (cache1, Option.map (infos path) (pages fuel w (children_query id) []))
      ]

  -- `Read`
  unfoldable pub read : Text → W → Cache → Text → Cache × Result Error Content
  unfolding find map_error
  read root w cache path =
      let (cache1, found) = find root w cache path in
      elim found [
        | err e ↦ (cache1, err e)
        | ok (full, id) ↦ elim (service.download w id) [
          | err e ↦ (cache1, err (map_error e))
          | ok content ↦ (cache1, ok content)
        ]
      ]

  -- `Write`, where there is no file yet.
  write_new : W → Cache → Text → Content → W × Cache × Option Error
  unfolding get_or_create_folder_id map_error
  write_new w cache full content =
      let (w1, cache1, parent) = get_or_create_folder_id service w cache (dir full) in
      elim parent [
        | err e ↦ (w1, cache1, some e)
        | ok parent_id ↦
            let (w2, created) = service.create w1 (base full) [] parent_id (some content) in
            elim created [ err e ↦ (w2, cache1, some (map_error e)) | ok _ ↦ (w2, cache1, none) ]
      ]

  -- `Write`
  unfoldable pub write : Text → W → Cache → Text → Content → W × Cache × Option Error
  unfolding join_path get_file_id write_new map_error
  write root w cache path content = elim (join_path root path) [
    | err e ↦ (w, cache, some e)
    | ok full ↦
        let (cache1, found) = get_file_id service w cache full in
        elim found [
          | ok id ↦
              let (w1, failed) = service.update w id (base full) content in
              (w1, cache1, Option.map map_error failed)
          | err e ↦ if is_not_found e then write_new w cache1 full content else (w, cache1, some e)
        ]
  ]

  -- `Delete`
  unfoldable pub delete : Text → W → Cache → Text → W × Cache × Option Error
  unfolding find map_error forget
  delete root w cache path =
      let (cache1, found) = find root w cache path in
      elim found [
        | err e ↦ (w, cache1, some e)
        | ok (full, id) ↦
            let (w1, failed) = service.delete w id in
            elim failed [
              | some e ↦ (w1, cache1, some (map_error e))
              | none ↦ (w1, forget full cache1, none)
            ]
      ]

  -- `Stat` and `StatWithChecksum`
  unfoldable pub stat : Text → W → Cache → Text → Cache × Result Error FileInfo
  unfolding find map_error
  stat root w cache path =
      let (cache1, found) = find root w cache path in
      elim found [
        | err e ↦ (cache1, err e)
        | ok (full, id) ↦ elim (service.get w id) [
          | err e ↦ (cache1, err (map_error e))
          | ok file ↦ (cache1, ok (file_info (dir path) file))
        ]
      ]

  -- `Mkdir`
  unfoldable pub mkdir : Text → W → Cache → Text → W × Cache × Option Error
  unfolding join_path get_or_create_folder_id
  mkdir root w cache path = elim (join_path root path) [
    | err e ↦ (w, cache, some e)
    | ok full ↦
        let (w1, cache1, made) = get_or_create_folder_id service w cache full in
        elim made [ err e ↦ (w1, cache1, some e) | ok _ ↦ (w1, cache1, none) ]
  ]

  -- `Exists`
  unfoldable pub exists : Text → W → Cache → Text → Cache × Result Error Bool
  unfolding find
  exists root w cache path = elim (join_path root path) [
    | err e ↦ (cache, err e)
    | ok full ↦
        let (cache1, found) = get_file_id service w cache full in
        elim found [
          | ok _ ↦ (cache1, ok true)
          | err e ↦ if is_not_found e then (cache1, ok false) else (cache1, err e)
        ]
  ]
