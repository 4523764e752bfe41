-- ===== src/Executor/Snapshots.antt =====
-- `DefaultExecutor.Plan` of internal/core/rule/executor.go plans from a snapshot of each side.
use mathlib.Core.Option.{some-injective}
use syncrules.Prelude.{
  ℕ, ◌<◌, Text, text_iff, text_eq, Bool, Option, none, some, List, [], ◌∷◌, ok, ◌≡◌, ◌≢◌, ◌⊎◌, inl,
  inr, arith, Member,
}
use syncrules.Prelude.Dict.{
  Dict, lookup, insert, NodupKeys, lookup-nil, lookup-insert, insert-NodupKeys,
}
use syncrules.Domain.{FileInfo, SyncPlan, SyncRule}
use syncrules.Executor.{Listing, list_all_files, to_map, file_map, plan_by_mode, plan}
use syncrules.Executor.Listing.{Ranked, Polled-cases, list_all_files-total}
use syncrules.Executor.Reach.{Reachable, list_all_files-Reachable}

-- A map entry is a listed file under its own path, or an entry of the map that was extended.
lookup-to_map :
    (m : Dict FileInfo) (files : List FileInfo) (k : Text) (f : FileInfo)
    → lookup k (to_map m files) ≡ some f
    → (Member f files × (f.path ≡ k)) ⊎ (lookup k m ≡ some f)
unfolding to_map
lookup-to_map m [] k f h = inr h
lookup-to_map m (g ∷ files) k f h = elim (lookup-to_map (insert g.path g m) files k f h) [
  | inl (found, e) ↦ inl (inr found, e)
  | inr old ↦ ground (arith, lookup-insert k g.path g m, text_iff k g.path)
]

lookup-to_map_kept :
    (m : Dict FileInfo) (files : List FileInfo) (k : Text)
    → lookup k m ≢ none
    → lookup k (to_map m files) ≢ none
unfolding to_map
lookup-to_map_kept m [] k h = h
lookup-to_map_kept m (g ∷ files) k h =
    lookup-to_map_kept (insert g.path g m) files k
      (ground (arith, lookup-insert k g.path g m, text_iff k g.path))

lookup-to_map-Member :
    (m : Dict FileInfo) (files : List FileInfo) (f : FileInfo)
    → Member f files
    → lookup f.path (to_map m files) ≢ none
unfolding to_map
lookup-to_map-Member m [] f k = absurd k
lookup-to_map-Member m (g ∷ files) f (inl e) =
    lookup-to_map_kept (insert g.path g m) files f.path
      (ground (arith, lookup-insert f.path g.path g m, text_iff f.path g.path))
lookup-to_map-Member m (g ∷ files) f (inr k) = lookup-to_map-Member (insert g.path g m) files f k

to_map-NodupKeys :
    (m : Dict FileInfo) (files : List FileInfo) → NodupKeys m → NodupKeys (to_map m files)
unfolding to_map
to_map-NodupKeys m [] u = u
to_map-NodupKeys m (g ∷ files) u =
    to_map-NodupKeys (insert g.path g m) files (insert-NodupKeys g.path g m u)

module _ (glob : Text → Text → Option Bool) where
  -- A map of what can be reached in a listing, by path.
  pub record IsSnapshot (patterns : List Text) (list : Listing) (m : Dict FileInfo) : Type 0 where
    pub once : NodupKeys m
    pub sound :
        (k : Text) (f : FileInfo)
        → lookup k m ≡ some f
        → (f.path ≡ k) × Reachable glob patterns list [] f
    pub complete : (f : FileInfo) → Reachable glob patterns list [] f → lookup f.path m ≢ none

  file_map-IsSnapshot :
      (done : ℕ → Bool) (patterns : List Text) (list : Listing) (fuel n : ℕ) (files : List FileInfo)
      (m : ℕ)
      → list_all_files glob done patterns list fuel [] n ≡ some (ok files, m)
      → IsSnapshot patterns list (file_map files)
  unfolding file_map
  file_map-IsSnapshot done patterns list fuel n files m h = record {
    once = to_map-NodupKeys [] files tt;
    sound = λ k f e. elim (lookup-to_map [] files k f e) [
      | inl (found, p) ↦
          (p, (list_all_files-Reachable glob done patterns list fuel [] n files m f h).0 found)
      | inr old ↦ cc (rw lookup-nil at old)
    ];
    complete = λ f r.
        lookup-to_map-Member [] files f
          ((list_all_files-Reachable glob done patterns list fuel [] n files m f h).1 r);
  }

  module _ (rule : SyncRule) (done : ℕ → Bool) (fuel : ℕ) (source target : Listing) where
    -- A plan is what the rule's mode makes of a snapshot of the source and a snapshot of the target.
    pub plan-IsSnapshot :
        (p : SyncPlan)
        → plan glob rule done fuel source target ≡ some (ok p)
        → (s : Dict FileInfo) × (t : Dict FileInfo) × IsSnapshot rule.ignore_patterns source s
          × IsSnapshot rule.ignore_patterns target t
          × (plan_by_mode glob rule rule.mode s t ≡ ok p)
    unfolding plan
    plan-IsSnapshot p h =
        elim (Polled-cases (list_all_files glob done rule.ignore_patterns source fuel [] 0)) [
          | inl e ↦ cc (rw (e, plan) at h)
          | inr (inl (failure, n, e)) ↦ cc (rw (e, plan) at h)
          | inr (inr (files, n, e)) ↦
              elim (Polled-cases (list_all_files glob done rule.ignore_patterns target fuel [] n)) [
                | inl e' ↦ cc (rw (e, e', plan) at h)
                | inr (inl (failure, m, e')) ↦ cc (rw (e, e', plan) at h)
                | inr (inr (files', m, e')) ↦ (
                  file_map files,
                  file_map files',
                  file_map-IsSnapshot done rule.ignore_patterns source fuel 0 files n e,
                  file_map-IsSnapshot done rule.ignore_patterns target fuel n files' m e',
                  some-injective _ _ (rw (e, e', plan) at h),
                )
              ]
        ]

    -- On finite trees, a fuel above the rank of both roots is enough for `Plan` to return.
    pub plan-total :
        (rank rank' : Text → ℕ)
        → Ranked source rank
        → Ranked target rank'
        → rank [] < fuel
        → rank' [] < fuel
        → plan glob rule done fuel source target ≢ none
    unfolding plan
    plan-total rank rank' r r' h h' =
        elim (Polled-cases (list_all_files glob done rule.ignore_patterns source fuel [] 0)) [
          | inl e ↦
              absurd
                (list_all_files-total glob done rule.ignore_patterns source rank r fuel [] 0 h e)
          | inr (inl (failure, n, e)) ↦ rw (e, plan) (λ c. cc)
          | inr (inr (files, n, e)) ↦
              elim (Polled-cases (list_all_files glob done rule.ignore_patterns target fuel [] n)) [
                | inl e' ↦ absurd (
                    list_all_files-total glob done rule.ignore_patterns target rank' r' fuel [] n h'
                      e')
                | inr (inl (failure, m, e')) ↦ rw (e, e', plan) (λ c. cc)
                | inr (inr (files', m, e')) ↦ rw (e, e', plan) (λ c. cc)
              ]
        ]
