-- ===== src/Drive/Names.antt =====
-- The paths of internal/adapter/gdrive/gdrive.go.
pub mod Inside
use syncrules.Prelude.{
  Text, text_eq, nat_eq, Bool, true, false, not, [], ◌∷◌, ◌==◌, ◌&&◌, ◌||◌, if◌then◌else◌, Result,
  ok, err, has_prefix, trim_space,
}
use syncrules.Domain.{Error, permission_denied}
use syncrules.Paths.{slash, dot, dots, is_abs, clean, join, trim_slash}

-- `strings.TrimPrefix(s, "/")`
unfoldable pub trim_first_slash : Text → Text
trim_first_slash [] = []
trim_first_slash (c ∷ s) = if c == slash then s else c ∷ s

-- `normalizeRoot`
unfoldable pub normalize_root : Text → Text
unfolding trim_slash is_abs
normalize_root root =
    let s = trim_space root in
    if s == [] || s == slash ∷ [] then [] else trim_slash (if is_abs s then s else slash ∷ s)

-- `joinPath`
unfoldable pub join_path : Text → Text → Result Error Text
join_path root path =
    if path == [] || path == dot
    then ok root
    else if is_abs (clean path)
    then err permission_denied
    else if has_prefix (clean path) dots
    then err permission_denied
    else if not (root == []) && not (has_prefix (join root (clean path)) root)
    then err permission_denied
    else ok (join root (clean path))
