-- ===== src/Drive.antt =====
-- internal/adapter/gdrive/gdrive.go. The service of the Google API is a parameter.
pub mod Queries
pub mod Names
pub mod Ids
pub mod Operations
pub mod Opening
use syncrules.Prelude.{
  ℕ, Text, text_eq, nat_eq, codes, Bool, true, false, Option, none, some, List, ◌==◌, ◌&&◌, ◌||◌,
  not, if◌then◌else◌, Result, ok, err, [], contains,
}
use syncrules.Paths.{dot, join}
use syncrules.Domain.{
  Error, other_error, not_found, permission_denied, already_exists, wrapped, FileInfo, regular,
  directory,
}
use syncrules.Adapter.{Content}

-- The fields of `drive.File` that the adapter asks for. `modified` is what `time.Parse` makes of the
-- modification time, the zero time where that is missing or no time.
pub record DriveFile : Type 0 where
  pub id : Text
  pub name : Text
  pub mime_type : Text
  pub size : ℕ
  pub modified : ℕ
  pub md5_checksum : Text

pub record Page : Type 0 where
  pub files : List DriveFile
  pub next_page_token : Text

-- An error of the library: the code of a `googleapi.Error`, if it is one, and its text.
pub record ApiError : Type 0 where
  pub code : Option ℕ
  pub text : Text

-- The calls of the service over the state of the storage. `list` takes the query, the size of the page
-- and the token of the page; `create` takes the name, the MIME type (empty if it is not given), the
-- parent and the content, if any, and returns the new identifier.
pub record DriveService (W : Type 0) : Type 0 where
  pub list : W → Text → ℕ → Text → Result ApiError Page
  pub get : W → Text → Result ApiError DriveFile
  pub download : W → Text → Result ApiError Content
  pub update : W → Text → Text → Content → W × Option ApiError
  pub create : W → Text → Text → Text → Option Content → W × Result ApiError Text
  pub delete : W → Text → W × Option ApiError

abbrev pub mime_type_folder : Text
mime_type_folder = codes "application/vnd.google-apps.folder"

-- After the switch over the codes of a `googleapi.Error`.
by_text : ApiError → Error
by_text e = if contains e.text (codes "notFound") then not_found else other_error e.text

-- `mapError` of an error that is not nil.
unfoldable pub map_error : ApiError → Error
unfolding by_text
map_error e = elim e.code [
  | none ↦ by_text e
  | some code ↦
      if code == 404
      then not_found
      else if code == 403
      then permission_denied
      else if code == 409
      then already_exists
      else if code == 429
      then wrapped (codes "rate limit exceeded") (other_error e.text)
      else by_text e
]

-- `fileInfoFromDrive`
abbrev pub file_info : Text → DriveFile → FileInfo
file_info parent file = record {
  path = if not (parent == []) && not (parent == dot) then join parent file.name else file.name;
  type = if file.mime_type == mime_type_folder then directory else regular;
  size = file.size;
  mod_time = file.modified;
  checksum = file.md5_checksum;
  etag = [];
  is_deleted = false;
}
