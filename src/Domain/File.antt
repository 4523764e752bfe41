-- ===== src/Domain/File.antt =====
-- internal/domain/file.go
use syncrules.Prelude.{ℕ, Text, Bool, true, false, Eq, ◌≡◌, ◌↔◌, arith}

pub data FileType : Type 0 where
  regular directory symlink : FileType

unfoldable pub file_type_beq : FileType → FileType → Bool
file_type_beq regular regular = true
file_type_beq directory directory = true
file_type_beq symlink symlink = true
file_type_beq _ _ = false

pub file_type_iff : (s t : FileType) → (file_type_beq s t ≡ true) ↔ (s ≡ t)
unfolding file_type_beq
file_type_iff s t = ground arith

instance abbrev pub file_type_eq : Eq FileType
file_type_eq = record { same = file_type_beq; same_iff = file_type_iff }

-- `size` is the bit pattern of an int64, `mod_time` an instant in nanoseconds.
pub record FileInfo : Type 0 where
  pub path : Text
  pub type : FileType
  pub size : ℕ
  pub mod_time : ℕ
  pub checksum : Text
  pub etag : Text
  pub is_deleted : Bool

abbrev type_is_dir : FileType → Bool
type_is_dir directory = true
type_is_dir _ = false

abbrev type_is_file : FileType → Bool
type_is_file regular = true
type_is_file _ = false

abbrev pub is_dir : FileInfo → Bool
is_dir f = type_is_dir f.type

abbrev pub is_file : FileInfo → Bool
is_file f = type_is_file f.type
