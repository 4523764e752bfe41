-- ===== src/Local/Inside.antt =====
-- `resolvePath` of internal/adapter/local/local.go keeps inside the root.
use mathlib.Core.List.{append-nil}
use mathlib.Core.Path.{subst}
use syncrules.Prelude.{
  Text, text_eq, false, some, List, [], ◌∷◌, ◌++◌, ◌==◌, ◌||◌, ◌≡◌, ◌⊎◌, refl, inl, inr, ap, sym,
  ◌∙◌, arith, Bool-cases, Option-cases, All, All-append, if◌then◌else◌, ok, err, has_prefix,
}
use syncrules.Paths.{dot, dots, clean, join, rel, join_slash}
use syncrules.Paths.Parts.{IsName}
use syncrules.Paths.Inside.{rooted, rel-below, rel-names}
use syncrules.Paths.Relative.{
  join-rooted, join-names, join_slash-below, is_abs-join_slash, clean-join_slash,
}
use syncrules.Domain.{permission_denied}
use syncrules.Local.{resolve_path}

resolve_path_inv :
    (root path full : Text)
    → resolve_path root path ≡ ok full
    → (full ≡ root)
      ⊎ ((r : Text) × (full ≡ join root (clean path))
          × (rel root full ≡ some r)
          × (has_prefix r dots ≡ false))
unfolding resolve_path
resolve_path_inv root path full h = elim (Option-cases (rel root (join root (clean path)))) [
  | inl outside ↦ inl (ground arith)
  | inr (r, seen) ↦ elim (Bool-cases (path == [] || path == dot)) [
    | inl here ↦ inl (ground arith)
    | inr below ↦
        let at : full ≡ join root (clean path) = ground arith in
        inr (r, at, rw at seen, ground arith)
  ]
]

-- For a root that is clean and absolute, whatever `resolvePath` returns is the root or a path of
-- names below it.
pub resolve_path-Inside :
    (root : List Text) (path full : Text)
    → All IsName root
    → resolve_path (rooted root) path ≡ ok full
    → (below : List Text) × (full ≡ rooted (root ++ below)) × All IsName (root ++ below)
resolve_path-Inside root path full h e = elim (resolve_path_inv (rooted root) path full e) [
  | inl same ↦ ([], rw append-nil same, rw append-nil h)
  | inr (r, joined, seen, safe) ↦
      let (target, at, names) = join-rooted root (clean path) in
      let (below, split) =
        rel-below root target r h names (ap (rel (rooted root)) (sym (joined ∙ at)) ∙ seen) safe in
      (below, joined ∙ at ∙ ap rooted split, subst (All IsName) split names)
]

-- A path of names below a clean root is resolved to its place, except that one whose first name
-- begins with `..`, such as `..old`, is refused.
pub resolve_path-names :
    (root : List Text) (name : Text) (names : List Text)
    → All IsName root
    → All IsName (name ∷ names)
    → resolve_path (rooted root) (join_slash (name ∷ names)) ≡ (
        if has_prefix (join_slash (name ∷ names)) dots
        then err permission_denied
        else ok (rooted (root ++ name ∷ names)))
unfolding resolve_path
resolve_path-names root name names h k =
    rw
      (
        clean-join_slash name names k,
        is_abs-join_slash name names k.0,
        join-names root name names h k,
        rel-names root name names (All-append IsName root (name ∷ names) h k) h,
        clean-join_slash name names k,
        join-names root name names h k,
        join_slash-below name names k,
      )
      refl
