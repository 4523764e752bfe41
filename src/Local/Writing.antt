-- ===== src/Local/Writing.antt =====
-- `Write` of internal/adapter/local/local.go.
pub mod Atomic
pub mod Places
use syncrules.Prelude.{Text, codes, Option, none, some, ◌++◌, ok, err}
use syncrules.Paths.{dir}
use syncrules.Domain.{Error}
use syncrules.Adapter.{Content}
use syncrules.Local.{Os, raw, map_error, resolve_path}

-- The temporary file.
abbrev pub temp_path : Text → Text
temp_path full = full ++ codes ".syncrules.tmp"

module _ {W : Type 0} (os : Os W) where
  -- `Write` from the rename on.
  rename_temp : W → Text → W × Option Error
  unfolding map_error
  rename_temp w full =
      let (w1, failed) = os.rename w (temp_path full) full in
      elim failed [
        | none ↦ (w1, none)
        | some e ↦ ((os.remove w1 (temp_path full)).0, some (map_error e))
      ]

  -- From the copy on; the file is closed whatever the copy gives.
  copy_temp : W → Text → Content → W × Option Error
  unfolding rename_temp
  copy_temp w full content =
      let (w1, copy_failed) = os.copy w (temp_path full) content in
      let (w2, close_failed) = os.close w1 (temp_path full) in
      elim copy_failed [
        | some e ↦ ((os.remove w2 (temp_path full)).0, some e)
        | none ↦ elim close_failed [
          | some e ↦ ((os.remove w2 (temp_path full)).0, some (raw e))
          | none ↦ rename_temp w2 full
        ]
      ]

  write_temp : W → Text → Content → W × Option Error
  unfolding copy_temp map_error
  write_temp w full content =
      let (w1, failed) = os.create w (temp_path full) in
      elim failed [ some e ↦ (w1, some (map_error e)) | none ↦ copy_temp w1 full content ]

  write_at : W → Text → Content → W × Option Error
  unfolding write_temp map_error
  write_at w full content =
      let (w1, failed) = os.mkdir_all w (dir full) in
      elim failed [ some e ↦ (w1, some (map_error e)) | none ↦ write_temp w1 full content ]

  -- `Write`
  unfoldable pub write : Text → W → Text → Content → W × Option Error
  unfolding write_at resolve_path
  write root w path content = elim (resolve_path root path) [
    | err e ↦ (w, some e)
    | ok full ↦ write_at w full content
  ]
