-- ===== src/Drive/Names/Inside.antt =====
-- `joinPath` of internal/adapter/gdrive/gdrive.go keeps inside the root.
use mathlib.Core.List.{append-nil}
use syncrules.Prelude.{
  Text, text_eq, text_iff, false, List, [], ◌∷◌, ◌++◌, ◌==◌, ◌||◌, if◌then◌else◌, ◌≡◌, ◌⊎◌, inl,
  inr, ap, sym, ◌∙◌, arith, Bool-cases, All, All-append, ok, err, has_prefix,
}
use syncrules.Domain.{permission_denied}
use syncrules.Paths.{dot, dots, is_abs, clean, join, render, parts_of}
use syncrules.Paths.Parts.{IsName}
use syncrules.Paths.Inside.{rooted}
use syncrules.Paths.Relative.{
  clean-names, join-names, join-dot, below_of_IsName, clean_of_IsName, is_abs_of_IsName, join-nil,
}
use syncrules.Drive.Names.{join_path}

join_path_inv :
    (root path full : Text)
    → join_path root path ≡ ok full
    → (full ≡ root)
      ⊎ ((full ≡ join root (clean path))
          × (is_abs (clean path) ≡ false)
          × (has_prefix (clean path) dots ≡ false))
unfolding join_path
join_path_inv root path full h = elim (Bool-cases (path == [] || path == dot)) [
  | inl here ↦ inl (ground arith)
  | inr below ↦ inr (ground arith)
]

join-rendered :
    (root names : List Text)
    → All IsName root
    → All IsName names
    → join (rooted root) (render false names) ≡ rooted (root ++ names)
unfolding render
join-rendered root [] h k = join-dot root h ∙ ap rooted (sym (append-nil root))
join-rendered root (name ∷ names) h k = join-names root name names h k

-- For a root that is clean and absolute, whatever `joinPath` returns is a path of names from the root on.
pub join_path-Inside :
    (root : List Text) (path full : Text)
    → All IsName root
    → join_path (rooted root) path ≡ ok full
    → (below : List Text) × (full ≡ rooted (root ++ below)) × All IsName (root ++ below)
join_path-Inside root path full h e = elim (join_path_inv (rooted root) path full e) [
  | inl same ↦ ([], rw append-nil same, rw append-nil h)
  | inr (at, relative, safe) ↦
      let (shown, names) = clean-names path relative safe in
      (
        parts_of path,
        at ∙ ap (join (rooted root)) shown ∙ join-rendered root (parts_of path) h names,
        All-append IsName root (parts_of path) h names,
      )
]

-- In the drive's own root a name is its own path.
pub join_path-plain :
    (name : Text)
    → IsName name
    → join_path [] name ≡ (if has_prefix name dots then err permission_denied else ok name)
unfolding join_path
join_path-plain name h = ground (
  arith,
  below_of_IsName name h,
  clean_of_IsName name h,
  is_abs_of_IsName name h,
  join-nil name h.0,
  text_iff [] [],
)
