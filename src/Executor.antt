-- ===== src/Executor.antt =====
-- internal/core/rule/executor.go: from two adapters to a plan. A listing is a function from a path to
-- what `List` returns; `done n` says whether the poll number `n` of `ctx.Done()` finds the context
-- done, and the number of the next poll is passed along.
pub mod Listing
pub mod Entries
pub mod Reach
pub mod Snapshots
use syncrules.Prelude.{
  ℕ, zero, suc, ◌+◌, Text, codes, Bool, true, false, Option, none, some, List, [], ◌∷◌, ◌++◌,
  if◌then◌else◌, Result, ok, err,
}
use syncrules.Prelude.Dict.{Dict, insert}
use syncrules.Domain.{
  Error, context_done, wrapped, other_error, FileInfo, is_dir, SyncMode, one_way_push, one_way_pull,
  two_way, source_to_target, target_to_source, SyncPlan, SyncRule,
}
use syncrules.Planner.Ignore.{should_ignore}
use syncrules.Planner.OneWay.{plan_one_way}
use syncrules.Planner.TwoWay.{plan_two_way}

abbrev pub Listing : Type 0
Listing = Text → Result Error (List FileInfo)

-- A result and the number of polls made; `none` if the recursion is deeper than the fuel.
abbrev pub Polled {ℓ} : Type ℓ → Type ℓ
Polled A = Option (Result Error A × ℕ)

infixl 5 ◌>>=◌
abbrev pub ◌>>=◌ {ℓ κ} : {A : Type ℓ} {B : Type κ} → Polled A → (A → ℕ → Polled B) → Polled B
none >>= f = none
some (err e, n) >>= f = some (err e, n)
some (ok a, n) >>= f = f a n

-- `allFiles = append(allFiles, files...)` in front of what the rest of the loop appends.
abbrev pub prepend : List FileInfo → Polled (List FileInfo) → Polled (List FileInfo)
prepend files result = result >>= λ rest n. some (ok (files ++ rest), n)

-- An item that is not ignored: a directory is listed too, by the recursive call.
pub list_entry :
    (Text → ℕ → Polled (List FileInfo))
    → FileInfo
    → (ℕ → Polled (List FileInfo))
    → ℕ
    → Polled (List FileInfo)
list_entry descend item rest n = elim (is_dir item) [
  | true ↦ descend item.path n >>= λ files m. prepend (item ∷ files) (rest m)
  | false ↦ prepend (item ∷ []) (rest n)
]

module _ (glob : Text → Text → Option Bool) (done : ℕ → Bool) (patterns : List Text) where
  -- The loop over the items of one directory, with the recursive call as an argument.
  list_items : (Text → ℕ → Polled (List FileInfo)) → List FileInfo → ℕ → Polled (List FileInfo)
  unfolding list_entry
  list_items descend [] n = some (ok [], n)
  list_items descend (item ∷ items) n = elim (done n) [
    | true ↦ some (err context_done, suc n)
    | false ↦ elim (should_ignore glob item.path patterns) [
      | true ↦ list_items descend items (suc n)
      | false ↦ list_entry descend item (list_items descend items) (suc n)
    ]
  ]

  unfoldable pub list_all_files : Listing → ℕ → Text → ℕ → Polled (List FileInfo)
  unfolding list_items
  list_all_files list zero prefix n = none
  list_all_files list (suc fuel) prefix n = elim (list prefix) [
    | err e ↦ some (err e, n)
    | ok items ↦ list_items (list_all_files list fuel) items n
  ]

-- `m[f.Path] = f` for each file.
to_map : Dict FileInfo → List FileInfo → Dict FileInfo
to_map m [] = m
to_map m (f ∷ files) = to_map (insert f.path f m) files

unfoldable pub file_map : List FileInfo → Dict FileInfo
unfolding to_map
file_map files = to_map [] files

module _ (glob : Text → Text → Option Bool) (rule : SyncRule) where
  -- The switch over the mode.
  unfoldable pub plan_by_mode : SyncMode → Dict FileInfo → Dict FileInfo → Result Error SyncPlan
  plan_by_mode one_way_push source target =
      ok (plan_one_way glob rule source_to_target source target)
  plan_by_mode one_way_pull source target =
      ok (plan_one_way glob rule target_to_source target source)
  plan_by_mode two_way source target = ok (plan_two_way glob rule source target)
  plan_by_mode (SyncMode.other s) source target =
      err (other_error (codes "unsupported sync mode: " ++ s))

  -- `DefaultExecutor.Plan`
  unfoldable pub plan : (ℕ → Bool) → ℕ → Listing → Listing → Option (Result Error SyncPlan)
  unfolding plan_by_mode
  plan done fuel source target =
      elim (list_all_files glob done rule.ignore_patterns source fuel [] 0) [
        | none ↦ none
        | some (err e, n) ↦ some (err (wrapped (codes "listing source files") e))
        | some (ok source_files, n) ↦
            elim (list_all_files glob done rule.ignore_patterns target fuel [] n) [
              | none ↦ none
              | some (err e, m) ↦ some (err (wrapped (codes "listing target files") e))
              | some (ok target_files, m) ↦
                  some (plan_by_mode rule.mode (file_map source_files) (file_map target_files))
            ]
      ]
