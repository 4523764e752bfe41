-- ===== src/Local.antt =====
-- internal/adapter/local/local.go. What it calls of `os` and of the hash is a parameter.
pub mod Inside
pub mod Writing
pub mod Hashing
pub mod Storages
use mathlib.Core.Option
use syncrules.Prelude.{
  ℕ, suc, ◌+◌, ◌*◌, ◌^◌, Text, text_eq, codes, Bool, true, false, Option, none, some, List, [], ◌∷◌,
  ◌++◌, ◌==◌, ◌&&◌, ◌||◌, if◌then◌else◌, leb, Result, ok, err, contains, has_prefix,
}
use syncrules.Paths.{dot, dots, is_abs, clean, join, dir, rel}
use syncrules.Domain.{
  Error, other_error, not_found, already_exists, permission_denied, not_directory, not_file,
  context_done, FileInfo, FileType, regular, directory, symlink, is_file,
}
use syncrules.Adapter.{Adapter, Content, joined}

-- What `os.IsNotExist`, `os.IsPermission` and `os.IsExist` say of an error, the reason in its
-- `PathError`, if it is one, and its text.
pub record OsError : Type 0 where
  pub is_not_exist : Bool
  pub is_permission : Bool
  pub is_exist : Bool
  pub reason : Option Text
  pub text : Text

pub record OsInfo : Type 0 where
  pub is_dir : Bool
  pub is_symlink : Bool
  pub size : ℕ
  pub mod_time : ℕ

-- An `os.DirEntry`, with what its `Info` returns.
pub record DirEntry : Type 0 where
  pub name : Text
  pub info : Result OsError OsInfo

-- The functions of `os` that the adapter calls, over the state of the file system. `copy` is `io.Copy`
-- into a created file; its error is the reader's or the file's.
pub record Os (W : Type 0) : Type 0 where
  pub abs : W → Text → Result OsError Text
  pub stat : W → Text → Result OsError OsInfo
  pub read_dir : W → Text → Result OsError (List DirEntry)
  pub open_read : W → Text → Result OsError Content
  pub mkdir_all : W → Text → W × Option OsError
  pub create : W → Text → W × Option OsError
  pub copy : W → Text → Content → W × Option Error
  pub close : W → Text → W × Option OsError
  pub remove : W → Text → W × Option OsError
  pub rename : W → Text → Text → W × Option OsError

-- An error that the adapter passes on as it is.
abbrev raw : OsError → Error
raw e = other_error e.text

-- `mapError` of an error that is not nil.
unfoldable pub map_error : OsError → Error
map_error e =
    if e.is_not_exist
    then not_found
    else if e.is_permission
    then permission_denied
    else if e.is_exist
    then already_exists
    else elim e.reason [
      | none ↦ raw e
      | some reason ↦
          if contains reason (codes "not empty") || contains reason (codes "directory not empty")
          then not_directory
          else raw e
    ]

map_result : {A : Type 0} → Result OsError A → Result Error A
unfolding map_error
map_result (err e) = err (map_error e)
map_result (ok a) = ok a

infixl 5 ◌>>=◌
abbrev ◌>>=◌ : {A B : Type 0} → Result Error A → (A → Result Error B) → Result Error B
err e >>= f = err e
ok a >>= f = f a

-- `resolvePath`, below the root of the adapter.
unfoldable pub resolve_path : Text → Text → Result Error Text
resolve_path root path =
    if path == [] || path == dot
    then ok root
    else if is_abs (clean path)
    then err permission_denied
    else elim (rel root (join root (clean path))) [
      | none ↦ err permission_denied
      | some r ↦ if has_prefix r dots then err permission_denied else ok (join root (clean path))
    ]

-- `fileInfoFromOS`
abbrev pub info_from_os : Text → OsInfo → FileInfo
info_from_os path info = record {
  path = path;
  type = if info.is_dir then directory else if info.is_symlink then symlink else regular;
  size = info.size;
  mod_time = info.mod_time;
  checksum = [];
  etag = [];
  is_deleted = false;
}

-- `Size <= 100*1024*1024`, of the bit pattern of an int64.
unfoldable pub is_small : ℕ → Bool
is_small size = leb size 104857600 || leb (2 ^ 63) size

module _ {W : Type 0} (os : Os W) where
  -- `New`; the adapter is its root.
  unfoldable pub new : W → Text → Result Error Text
  new w root = elim (os.abs w root) [
    | err e ↦ err (raw e)
    | ok abs_root ↦ elim (os.stat w abs_root) [
      | err e ↦ err (if e.is_not_exist then not_found else raw e)
      | ok info ↦ if info.is_dir then ok abs_root else err not_directory
    ]
  ]

  -- `os.Open`, after the test for a directory.
  open_file : W → Text → OsInfo → Result Error Content
  unfolding map_result
  open_file w full info = if info.is_dir then err not_file else map_result (os.open_read w full)

  -- `Read`
  unfoldable pub read : Text → W → Text → Result Error Content
  unfolding resolve_path map_result open_file
  read root w path = do
    full ← resolve_path root path
    info ← map_result (os.stat w full)
    open_file w full info

  -- `Delete`
  unfoldable pub delete : Text → W → Text → W × Option Error
  unfolding resolve_path map_error
  delete root w path = elim (resolve_path root path) [
    | err e ↦ (w, some e)
    | ok full ↦ let (w1, e) = os.remove w full in (w1, Option.map map_error e)
  ]

  -- `Stat`
  unfoldable pub stat : Text → W → Text → Result Error FileInfo
  unfolding resolve_path map_result
  stat root w path = do
    full ← resolve_path root path
    info ← map_result (os.stat w full)
    ok (info_from_os path info)

  -- `Mkdir`, which does not map the error.
  unfoldable pub mkdir : Text → W → Text → W × Option Error
  unfolding resolve_path
  mkdir root w path = elim (resolve_path root path) [
    | err e ↦ (w, some e)
    | ok full ↦ let (w1, e) = os.mkdir_all w full in (w1, Option.map raw e)
  ]

  -- `Exists`
  unfoldable pub exists : Text → W → Text → Result Error Bool
  unfolding resolve_path
  exists root w path = do
    full ← resolve_path root path
    elim (os.stat w full) [
      | ok _ ↦ ok true
      | err e ↦ if e.is_not_exist then ok false else err (raw e)
    ]
