-- ===== src/Tests/Listings.antt =====
-- Listings of a small tree, and plans over them.
use syncrules.Prelude.{
  ℕ, Text, codes, text_beq, Bool, false, Option, none, some, List, [], ◌∷◌, Result, ok, err,
  if◌then◌else◌, ◌==◌, text_eq, ◌≡◌, ◌≢◌, refl, ◌↔◌, inl, inr, arith, Member, Bool-cases,
}
use syncrules.Prelude.Dict.{Dict}
use syncrules.Planner.OneWay.{plan_one_way}
use syncrules.Domain.{SyncPlan, source_to_target, FileInfo, Error, not_found, directory}
use syncrules.Executor.{Listing, list_all_files, file_map, plan, plan_by_mode}
use syncrules.Executor.Snapshots.{IsSnapshot, plan-IsSnapshot, plan-total}
use syncrules.Executor.Listing.{Ranked}
use syncrules.Executor.Reach.{Reachable, list_all_files-Reachable}
use syncrules.Planner.Ignore.{should_ignore}
use syncrules.Tests.Samples.{exact, rule, file_b, dir_a, file_c, entry}

abbrev dir_git : FileInfo
dir_git = entry (codes ".git") directory 0 1 []

-- A root with a directory, an ignored directory and a file.
abbrev tree : Listing
tree path =
    if path == []
    then ok (dir_a ∷ dir_git ∷ file_c ∷ [])
    else if path == codes "a"
    then ok (file_b ∷ [])
    else err not_found

never : ℕ → Bool
never n = false

walk : Option (Result Error (List FileInfo) × ℕ)
unfolding list_all_files never should_ignore text_beq
walk = list_all_files exact never rule.ignore_patterns tree 2 [] 0

walk_lem : walk ≡ some (ok (dir_a ∷ file_b ∷ file_c ∷ []), 4)
unfolding walk
walk_lem = refl

abbrev height : Text → ℕ
height path = if path == [] then 1 else 0

tree-Ranked : Ranked tree height
unfolding text_beq
tree-Ranked prefix items e = elim (Bool-cases (prefix == [])) [
  | inl root ↦
      let listed : items ≡ dir_a ∷ dir_git ∷ file_c ∷ [] = ground arith in
      rw (listed, root) ((λ _. omega arith), ((λ _. omega arith), ((λ d. cc), tt)))
  | inr other ↦ elim (Bool-cases (prefix == codes "a")) [
    | inl a ↦ let listed : items ≡ file_b ∷ [] = ground arith in rw listed ((λ d. cc), tt)
    | inr b ↦ absurd (ground arith)
  ]
]

list_all_files-Reachable_example :
    Member file_b (dir_a ∷ file_b ∷ file_c ∷ [])
    ↔ Reachable exact rule.ignore_patterns tree [] file_b
unfolding walk
list_all_files-Reachable_example =
    list_all_files-Reachable exact never rule.ignore_patterns tree 2 [] 0
      (dir_a ∷ file_b ∷ file_c ∷ []) 4 file_b walk_lem

-- A root with one file.
abbrev flat : Listing
flat path = if path == [] then ok (file_b ∷ []) else err not_found

flat-Ranked : Ranked flat height
unfolding text_beq
flat-Ranked prefix items e = elim (Bool-cases (prefix == [])) [
  | inl root ↦ let listed : items ≡ file_b ∷ [] = ground arith in rw listed ((λ d. cc), tt)
  | inr other ↦ absurd (ground arith)
]

abbrev listed_plan : SyncPlan
listed_plan =
    plan_one_way exact rule source_to_target (file_map (dir_a ∷ file_b ∷ file_c ∷ []))
      (file_map (file_b ∷ []))

listed_lem : plan exact rule never 2 tree flat ≡ some (ok listed_plan)
unfolding plan list_all_files never should_ignore text_beq
listed_lem = refl

plan-IsSnapshot_example :
    (s : Dict FileInfo) × (t : Dict FileInfo) × IsSnapshot exact rule.ignore_patterns tree s
    × IsSnapshot exact rule.ignore_patterns flat t
    × (plan_by_mode exact rule rule.mode s t ≡ ok listed_plan)
plan-IsSnapshot_example = plan-IsSnapshot exact rule never 2 tree flat listed_plan listed_lem

plan-total_example : plan exact rule never 2 tree flat ≢ none
unfolding text_beq
plan-total_example =
    plan-total exact rule never 2 tree flat height height tree-Ranked flat-Ranked (omega arith)
      (omega arith)
