-- ===== src/Tests/Adapters.antt =====
-- Instances of the adapters on storages that are functions or lists.
use syncrules.Prelude.{
  Text, codes, text_beq, text_eq, text_iff, nat_eq, true, false, Option, none, some, List, [], ◌∷◌,
  ◌++◌, ok, err, ◌≡◌, ◌≢◌, ◌==◌, if◌then◌else◌, refl, arith, All, length, has_prefix,
}
use syncrules.Paths.{dots, is_abs, join_slash, render}
use syncrules.Paths.Parts.{IsName}
use syncrules.Paths.Inside.{rooted}
use syncrules.Domain.{permission_denied}
use syncrules.Adapter.{Content, joined}
use syncrules.Local.{Os, OsError, OsInfo, resolve_path}
use syncrules.Local.Inside.{resolve_path-Inside, resolve_path-names}
use syncrules.Local.Writing.{write}
use syncrules.Local.Writing.Atomic.{FileLaws, Replaced, write-Replaced}

abbrev pub Files : Type 0
Files = Text → Option Text

abbrev pub put : Text → Option Text → Files → Files
put p s w q = if q == p then s else w q

pub put-same : (p : Text) (s : Option Text) (w : Files) → put p s w p ≡ s
put-same p s w = ground (arith, text_iff p p)

pub put-other : (p q : Text) (s : Option Text) (w : Files) → q ≢ p → put p s w q ≡ w q
put-other p q s w h = ground (arith, text_iff q p)

abbrev absent : OsError
absent = record {
  is_not_exist = true;
  is_permission = false;
  is_exist = false;
  reason = none;
  text = codes "no such file";
}

abbrev regular_info : Text → OsInfo
regular_info s = record { is_dir = false; is_symlink = false; size = length s; mod_time = 7 }

abbrev memory : Os Files
memory = record {
  abs = λ w p. ok p;
  stat = λ w p. elim (w p) [ none ↦ err absent | some s ↦ ok (regular_info s) ];
  read_dir = λ w p. ok [];
  open_read = λ w p. elim (w p) [
    | none ↦ err absent
    | some s ↦ ok (record { chunks = s ∷ []; failure = none })
  ];
  mkdir_all = λ w p. (w, none);
  create = λ w p. (put p (some []) w, none);
  copy = λ w p c. (put p (some (joined c)) w, c.failure);
  close = λ w p. (w, none);
  remove = λ w p. (put p none w, none);
  rename = λ w p q. (put q (w p) (put p none w), none);
}

abbrev memory-FileLaws : FileLaws memory
memory-FileLaws = record {
  contents = λ w p. w p;
  mkdir_all_law = λ w p q. refl;
  create_law = λ w p. (λ h. put-same p (some []) w, λ q h. put-other p q (some []) w h);
  copy_law = λ w p c.
      (λ h k. (k, put-same p (some (joined c)) w), λ q h. put-other p q (some (joined c)) w h);
  close_law = λ w p. (λ h. refl, λ q h. refl);
  remove_law = λ w p q h. put-other p q none w h;
  rename_law = λ w p p'. (
    λ h. put-same p' (w p) (put p none w),
    λ h. absurd (h refl),
    λ q h k. ground (arith, put-other p' q (w p) (put p none w) k, put-other p q none w h),
  );
}

abbrev pub nothing : Files
nothing q = none

abbrev two_reads : Content
two_reads = record { chunks = codes "he" ∷ codes "y" ∷ []; failure = none }

a-IsName : IsName (codes "a")
a-IsName = ground arith

b-IsName : IsName (codes "b")
b-IsName = ground arith

abbrev root : List Text
root = codes "a" ∷ []

resolved : resolve_path (rooted root) (codes "b") ≡ ok (codes "/a/b")
unfolding resolve_path text_beq is_abs join_slash has_prefix render
resolved = resolve_path-names root (codes "b") [] (a-IsName, tt) (b-IsName, tt)

write-Replaced_example :
    Replaced memory memory-FileLaws nothing
      (write memory (rooted root) nothing (codes "b") two_reads)
      (codes "/a/b")
      two_reads
write-Replaced_example =
    write-Replaced memory memory-FileLaws (rooted root) (codes "b") (codes "/a/b") nothing two_reads
      resolved

resolve_path-Inside_example :
    (below : List Text) × (codes "/a/b" ≡ rooted (root ++ below)) × All IsName (root ++ below)
resolve_path-Inside_example =
    resolve_path-Inside root (codes "b") (codes "/a/b") (a-IsName, tt) resolved

resolve_path-names_example : resolve_path (rooted root) (join_slash (codes "..b" ∷ [])) ≡ (
    if has_prefix (join_slash (codes "..b" ∷ [])) dots
    then err permission_denied
    else ok (rooted (root ++ codes "..b" ∷ [])))
resolve_path-names_example =
    resolve_path-names root (codes "..b") [] (a-IsName, tt) (dotted-IsName, tt)
  where
    dotted-IsName : IsName (codes "..b")
    dotted-IsName = ground arith
