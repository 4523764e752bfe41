-- ===== src/Conflict.antt =====
-- internal/core/conflict/resolver.go
pub mod Outcome
use syncrules.Prelude.{
  Text, text_eq, nat_eq, String, Bool, not, Option, none, some, [], ◌==◌, ◌&&◌, if◌then◌else◌, ltb,
}
use syncrules.Domain.{
  FileInfo, ConflictStrategy, keep_local, keep_remote, keep_newest, ActionType, copy, conflict,
  skip, SyncDirection, source_to_target, target_to_source, SyncAction,
}

-- Every branch of `Resolve` returns the path and both infos that it was given.
abbrev action :
    ActionType → SyncDirection → Text → Option FileInfo → Option FileInfo → String → SyncAction
action type direction path src tgt reason = record {
  type = type;
  direction = direction;
  path = path;
  source_info = src;
  target_info = tgt;
  reason = reason;
}

-- The case `ConflictKeepNewest`.
resolve_newest : Text → FileInfo → FileInfo → SyncAction
resolve_newest path src tgt =
    if not (src.checksum == []) && not (tgt.checksum == []) && src.checksum == tgt.checksum
    then action skip source_to_target path (some src) (some tgt)
        "identical content (checksum match)"
    else if ltb tgt.mod_time src.mod_time
    then action copy source_to_target path (some src) (some tgt) "source is newer"
    else if ltb src.mod_time tgt.mod_time
    then action copy target_to_source path (some src) (some tgt) "target is newer"
    else if src.size == tgt.size
    then action skip source_to_target path (some src) (some tgt)
        "identical modification time and size"
    else action conflict source_to_target path (some src) (some tgt)
        "identical time but different size"

-- The switch over the strategy.
resolve_both : ConflictStrategy → Text → FileInfo → FileInfo → SyncAction
unfolding resolve_newest
resolve_both keep_local path src tgt =
    action skip source_to_target path (some src) (some tgt)
      "keeping local version (conflict strategy)"
resolve_both keep_remote path src tgt =
    action copy source_to_target path (some src) (some tgt)
      "using remote version (conflict strategy)"
resolve_both keep_newest path src tgt = resolve_newest path src tgt
resolve_both _ path src tgt =
    action conflict source_to_target path (some src) (some tgt) "manual resolution required"

-- `DefaultResolver.Resolve`; a nil pointer is `none`.
unfoldable pub resolve : ConflictStrategy → Text → Option FileInfo → Option FileInfo → SyncAction
unfolding resolve_both
resolve strategy path (some src) (some tgt) = resolve_both strategy path src tgt
resolve strategy path src tgt =
    action conflict source_to_target path src tgt "manual resolution required: nil file info"
