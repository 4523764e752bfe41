-- ===== src/Diff.antt =====
-- internal/core/diff/diff.go
pub mod Content
use syncrules.Prelude.{
  Text, text_eq, nat_eq, Bool, not, Option, none, some, [], ◌==◌, ◌&&◌, if◌then◌else◌, ltb,
}
use syncrules.Domain.{FileInfo, is_file}

pub data DiffResult : Type 0 where
  files_identical file_modified file_only_in_source file_only_in_target : DiffResult

-- The part of `Compare` under "Both exist".
compare_both : FileInfo → FileInfo → DiffResult
compare_both src tgt =
    if is_file src && is_file tgt
    then (if not (src.size == tgt.size)
        then file_modified
        else if not (src.mod_time == tgt.mod_time)
        then (if not (src.checksum == []) && not (tgt.checksum == [])
            then (if src.checksum == tgt.checksum then files_identical else file_modified)
            else if src.checksum == [] && tgt.checksum == []
            then files_identical
            else if ltb tgt.mod_time src.mod_time
            then file_modified
            else file_modified)
        else files_identical)
    else file_modified

-- `DefaultComparer.Compare`; a nil pointer is `none`.
unfoldable pub compare : Option FileInfo → Option FileInfo → DiffResult
unfolding compare_both
compare none none = files_identical
compare (some src) none = file_only_in_source
compare none (some tgt) = file_only_in_target
compare (some src) (some tgt) = compare_both src tgt
