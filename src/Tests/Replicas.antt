-- ===== src/Tests/Replicas.antt =====
-- Two local adapters as the storages of a push and of a two-way rule, on a file system that is a function
-- from paths.
use mathlib.Core.List.{append-nil}
use syncrules.Prelude.{
  ℕ, ◌≤◌, Text, codes, text_beq, text_eq, text_iff, nat_eq, Bool, true, false, Option, none, some,
  List, [], ◌∷◌, ◌++◌, ok, err, ◌≡◌, ◌≢◌, ◌⊎◌, inl, inr, refl, ap, sym, ◌∙◌, arith, Result, ◌==◌,
  length, length-append, has_prefix, Member, Member-append, map, All, Member-All, Bool-cases,
}
use syncrules.Prelude.Dict.{Dict, lookup, insert}
use syncrules.Paths.{is_abs, clean, join, rel, render, dir}
use syncrules.Domain.{FileInfo, file_type_beq}
use syncrules.Adapter.{Adapter, Content, joined}
use syncrules.Planner.Ignore.{should_ignore}
use syncrules.Planner.Order.{sort_actions}
use syncrules.Planner.Stats.{calculate_stats}
use syncrules.Planner.TwoWay.{plan_two_way}
use syncrules.Diff.{compare}
use syncrules.Conflict.{resolve}
use syncrules.Service.Execution.{execute_actions}
use syncrules.Service.Storage.{Node, folder, file, Kept, Storage}
use syncrules.Service.Replicas.{Replicas}
use syncrules.Service.Fates.{BothKept}
use syncrules.Service.Reconcile.{Reconciled, execute_actions-Reconciled}
use syncrules.Local.{Os, OsError, OsInfo, resolve_path, read, mkdir, delete}
use syncrules.Local.Writing.{write, temp_path}
use syncrules.Local.Writing.Places.{NodeLaws, Places}
use syncrules.Local.Hashing.{adapter}
use syncrules.Local.Storages.{local-Replicas}
use syncrules.Tests.Samples.{exact, rule, source, target}
use syncrules.Tests.Mirrors.{Files, put, put-same}

abbrev os_error : Text → OsError
os_error text = record {
  is_not_exist = true;
  is_permission = false;
  is_exist = false;
  reason = none;
  text = text;
}

abbrev info_of : Option Node → Result OsError OsInfo
info_of none = err (os_error (codes "no such file"))
info_of (some folder) = ok (record { is_dir = true; is_symlink = false; size = 0; mod_time = 7 })
info_of (some (file s)) =
    ok (record { is_dir = false; is_symlink = false; size = length s; mod_time = 7 })

abbrev open_node : Option Node → Result OsError Content
open_node (some (file s)) = ok (record { chunks = s ∷ []; failure = none })
open_node _ = err (os_error (codes "no file"))

abbrev make : Text → Files → Option Node → Files × Option OsError
make p w none = (put p (some folder) w, none)
make p w (some folder) = (w, none)
make p w (some (file s)) = (w, some (os_error (codes "not a directory")))

abbrev nodes : Os Files
nodes = record {
  abs = λ w p. ok p;
  stat = λ w p. info_of (w p);
  read_dir = λ w p. ok [];
  open_read = λ w p. open_node (w p);
  mkdir_all = λ w p. make p w (w p);
  create = λ w p. (put p (some (file [])) w, none);
  copy = λ w p c. (put p (some (file (joined c))) w, c.failure);
  close = λ w p. (w, none);
  remove = λ w p. (put p none w, none);
  rename = λ w p q. (put q (w p) (put p none w), none);
}

put-apart : (p q : Text) (n : Option Node) (w : Files) → q ≢ p → put p n w q ≡ w q
put-apart p q n w h = ground (arith, text_iff q p)

put-Kept : (p q : Text) (w : Files) → w p ≡ none → Kept (w q) (put p (some folder) w q)
put-Kept p q w h = elim (Bool-cases (text_beq q p)) [
  | inl e ↦ inr (ap w ((text_iff q p).0 e) ∙ h, rw e refl)
  | inr e ↦ inl (rw e refl)
]

open_node-file : (n : Option Node) (c : Content) → open_node n ≡ ok c → n ≡ some (file (joined c))
open_node-file (some (file s)) c h =
    ap (λ x. some (file x)) (sym (append-nil s)) ∙ ap (λ r. some (file (joined (content r)))) h
  where
    content : Result OsError Content → Content
    content (ok c) = c
    content (err e) = record { chunks = []; failure = none }
open_node-file (some folder) c h = ground arith
open_node-file none c h = ground arith

make-law :
    (p : Text) (w : Files) (n : Option Node)
    → w p ≡ n
    → (make p w n).1 ≡ none
    → ((make p w n).0 p ≡ some folder) × ((q : Text) → Kept (w q) ((make p w n).0 q))
make-law p w none e h = (put-same p _ w, λ q. put-Kept p q w e)
make-law p w (some folder) e h = (e, λ q. inl refl)
make-law p w (some (file s)) e h = absurd (ground arith)

abbrev nodes-NodeLaws : NodeLaws nodes
nodes-NodeLaws = record {
  view = λ w p. w p;
  open_read_law = λ w p c h k. open_node-file (w p) c h;
  mkdir_all_law = λ w p h. make-law p w (w p) refl h;
  create_law = λ w p h. (put-same p _ w, λ q n. put-apart p q _ w n);
  copy_law = λ w p c h k. (k, put-same p _ w, λ q n. put-apart p q _ w n);
  close_law = λ w p h. (refl, λ q n. refl);
  remove_law = λ w p h. (put-same p _ w, λ q n. put-apart p q _ w n);
  rename_law = λ w p p' h. (
    put-same p' _ (put p none w),
    λ q n m. put-apart p' q _ (put p none w) m ∙ put-apart p q _ w n,
  );
}

-- The paths of the two listings.
abbrev entry_path : Text × FileInfo → Text
entry_path (p, _) = p

abbrev paths : List Text
paths = map entry_path source ++ map entry_path target

abbrev Covers : Text → Type 0
Covers p = Member p paths

lookup-Member : (p : Text) (d : Dict FileInfo) → lookup p d ≢ none → Member p (map entry_path d)
unfolding lookup
lookup-Member p [] h = absurd (h refl)
lookup-Member p ((q, x) ∷ d) h = elim (Bool-cases (p == q)) [
  | inl e ↦ inl ((text_iff p q).0 e)
  | inr e ↦ inr (lookup-Member p d (λ n. h (rw e n)))
]

listed : (p : Text) → (lookup p source ≢ none) ⊎ (lookup p target ≢ none) → Covers p
listed p (inl h) =
    (Member-append p (map entry_path source) (map entry_path target)).1
      (inl (lookup-Member p source h))
listed p (inr h) =
    (Member-append p (map entry_path source) (map entry_path target)).1
      (inr (lookup-Member p target h))

abbrev under : Text → Text → Text
under root p = root ++ p

left_law : All (λ (p : Text). resolve_path (codes "/l") p ≡ ok (under (codes "/l/") p)) paths
unfolding resolve_path text_beq is_abs clean join rel render has_prefix
left_law = (refl, (refl, (refl, (refl, (refl, tt)))))

right_law : All (λ (p : Text). resolve_path (codes "/r") p ≡ ok (under (codes "/r/") p)) paths
unfolding resolve_path text_beq is_abs clean join rel render has_prefix
right_law = (refl, (refl, (refl, (refl, (refl, tt)))))

short : All (λ (p : Text). length p ≤ 9) paths
short = (omega arith, (omega arith, (omega arith, (omega arith, (omega arith, tt)))))

under-distinct : (root p q : Text) → q ≢ p → under root q ≢ under root p
under-distinct [] p q n = n
under-distinct (c ∷ root) p q n = λ e. under-distinct root p q n (ap tail e)
  where
    tail : Text → Text
    tail [] = []
    tail (d ∷ s) = s

under-temp :
    (root root' p q : Text)
    → length root ≡ length root'
    → Covers q
    → under root q ≢ temp_path (under root' p)
under-temp root root' p q same k e = absurd (
    omega (
      arith,
      same,
      ap length e,
      Member-All (λ (x : Text). length x ≤ 9) paths q short k,
      length-append root q,
      length-append root' p,
      length-append (under root' p) (codes ".syncrules.tmp"),
    ))

left_right : (p q : Text) → under (codes "/l/") q ≢ under (codes "/r/") p
left_right p q = λ e. ground arith

abbrev places : Places (codes "/l") (codes "/r") Covers
places = record {
  place_from = under (codes "/l/");
  place_to = under (codes "/r/");
  from_law = λ p k.
      Member-All (λ x. resolve_path (codes "/l") x ≡ ok (under (codes "/l/") x)) paths p left_law k;
  to_law = λ p k.
      Member-All (λ x. resolve_path (codes "/r") x ≡ ok (under (codes "/r/") x)) paths p right_law
        k;
  distinct_from = λ p q k k' n. under-distinct (codes "/l/") p q n;
  distinct = λ p q k k' n. under-distinct (codes "/r/") p q n;
  apart = λ p q k k'. left_right p q;
  no_temp = λ p q k k'. (
    under-temp (codes "/r/") (codes "/r/") p q refl k',
    under-temp (codes "/l/") (codes "/r/") p q refl k',
  );
  no_temp_from = λ p q k k'. (
    under-temp (codes "/l/") (codes "/l/") p q refl k',
    under-temp (codes "/r/") (codes "/l/") p q refl k',
  );
}

abbrev no_hash : Text → Text
no_hash s = s

abbrev never : ℕ → Bool
never n = false

abbrev left : Adapter Files
left = adapter nodes no_hash never (codes "/l")

abbrev right : Adapter Files
right = adapter nodes no_hash never (codes "/r")

replicas : Replicas Covers left right
replicas = local-Replicas nodes nodes-NodeLaws no_hash never (codes "/l") (codes "/r") Covers places

-- The source has the newer file, and the target one that the source does not have.
abbrev before : Files
before = put (codes "/l") (some folder) (
    put (codes "/r") (some folder) (
      put (codes "/l/a") (some folder) (
        put (codes "/l/a/b") (some (file (codes "new"))) (
          put (codes "/r/a/b") (some (file (codes "old")))
            (put (codes "/r/c") (some (file (codes "more"))) (λ q. none))))))

both_done :
    (execute_actions never left right
      (plan_two_way exact rule source target).actions
      0
      0
      0
      before).2
    ≡ none
unfolding execute_actions plan_two_way calculate_stats sort_actions should_ignore text_beq lookup
    resolve insert file_type_beq compare resolve_path is_abs clean join rel render has_prefix read
    write mkdir delete dir
both_done = refl

execute_actions-Reconciled_example :
    let r =
      execute_actions never left right
        (plan_two_way exact rule source target).actions
        0
        0
        0
        before in
    (should_ignore exact (codes "a/b") rule.ignore_patterns ≡ true
      → BothKept Covers left right replicas before r.0 (codes "a/b"))
    × (should_ignore exact (codes "a/b") rule.ignore_patterns ≡ false
        → Reconciled Covers left right replicas rule.conflict_strategy
            (lookup (codes "a/b") source)
            (lookup (codes "a/b") target)
            (codes "a/b")
            before
            r.0)
execute_actions-Reconciled_example =
    execute_actions-Reconciled Covers left right replicas exact rule never (codes "a/b") before
      source target listed (inl refl) both_done
