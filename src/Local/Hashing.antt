-- ===== src/Local/Hashing.antt =====
-- The operations of internal/adapter/local/local.go that use the SHA-256 hash, and the adapter.
use syncrules.Prelude.{
  ℕ, suc, Text, Bool, true, false, List, [], ◌∷◌, ◌&&◌, if◌then◌else◌, Result, ok, err, some, none,
}
use syncrules.Paths.{join}
use syncrules.Domain.{Error, context_done, FileInfo, is_file}
use syncrules.Adapter.{Adapter, joined}
use syncrules.Local.{
  Os, OsInfo, DirEntry, map_result, ◌>>=◌, resolve_path, info_from_os, is_small, read, delete, stat,
  mkdir, exists,
}
use syncrules.Local.Writing.{write}

module _ {W : Type 0} (os : Os W) where
  -- The hash, and what polls of `ctx.Done()` say.
  module _ (sha256_hex : Text → Text) (done : ℕ → Bool) where
    -- `computeChecksum`
    compute_checksum : Text → W → Text → Result Error Text
    unfolding read
    compute_checksum root w path = do
      content ← read os root w path
      elim content.failure [ some e ↦ err e | none ↦ ok (sha256_hex (joined content)) ]

    with_checksum : Result Error Text → FileInfo → FileInfo
    with_checksum (ok sum) file = record file { checksum = sum }
    with_checksum (err _) file = file

    list_entry : Text → W → Text → OsInfo → FileInfo
    unfolding compute_checksum with_checksum is_small
    list_entry root w path info =
        let file = info_from_os path info in
        if is_file file && is_small file.size
        then with_checksum (compute_checksum root w path) file
        else file

    -- The loop of `List`, from poll `n` on. An entry without an info is left out.
    list_entries : Text → W → Text → ℕ → List DirEntry → Result Error (List FileInfo)
    unfolding list_entry
    list_entries root w path n [] = ok []
    list_entries root w path n (entry ∷ entries) =
        let rest = list_entries root w path (suc n) entries in
        if done n then err context_done else elim entry.info [
          | err _ ↦ rest
          | ok info ↦ rest >>= (λ files. ok (list_entry root w (join path entry.name) info ∷ files))
        ]

    -- `List`
    unfoldable pub list : Text → W → Text → Result Error (List FileInfo)
    unfolding resolve_path map_result list_entries
    list root w path = do
      full ← resolve_path root path
      entries ← map_result (os.read_dir w full)
      list_entries root w path 0 entries

    -- `StatWithChecksum`, without the info that comes with an error.
    unfoldable pub stat_with_checksum : Text → W → Text → Result Error FileInfo
    unfolding stat compute_checksum with_checksum
    stat_with_checksum root w path = do
      info ← stat os root w path
      elim (is_file info) [
        | true ↦ compute_checksum root w path >>= (λ sum. ok (with_checksum (ok sum) info))
        | false ↦ ok info
      ]

    -- The adapter of the interface.
    abbrev pub adapter : Text → Adapter W
    adapter root = record {
      list = list root;
      read = read os root;
      write = write os root;
      delete = delete os root;
      stat = stat os root;
      mkdir = mkdir os root;
      exists = exists os root;
      close = λ w. (w, none);
    }
