-- ===== src/Executor/Listing.antt =====
-- `listAllFiles` of internal/core/rule/executor.go lists what can be reached.
use syncrules.Prelude.{
  ℕ, zero, suc, ◌<◌, Text, Bool, true, Option, none, some, List, [], ◌∷◌, ok, err, ◌≡◌, ◌≢◌, ◌⊎◌,
  inl, inr, refl, arith, All, All-map, Bool-cases, Result-cases,
}
use syncrules.Domain.{Error, FileInfo, is_dir}
use syncrules.Executor.{Listing, Polled, ◌>>=◌, prepend, list_entry, list_items, list_all_files}

-- The directories fall in rank from a path to what is listed under it: a finite tree.
abbrev pub Ranked : Listing → (Text → ℕ) → Type 0
Ranked list rank =
    (prefix : Text) (items : List FileInfo)
    → list prefix ≡ ok items
    → All (λ (item : FileInfo). is_dir item ≡ true → rank item.path < rank prefix) items

bind-total :
    (r : Polled (List FileInfo)) (f : List FileInfo → ℕ → Polled (List FileInfo))
    → r ≢ none
    → ((files : List FileInfo) (m : ℕ) → f files m ≢ none)
    → (r >>= f) ≢ none
bind-total none f h k = λ e. h e
bind-total (some (err e, n)) f h k = λ e. cc
bind-total (some (ok files, n)) f h k = k files n

prepend-total :
    (files : List FileInfo) (r : Polled (List FileInfo)) → r ≢ none → prepend files r ≢ none
prepend-total files r h = bind-total r _ h (λ rest m e. cc)

list_entry-total :
    (descend : Text → ℕ → Polled (List FileInfo)) (item : FileInfo)
    (rest : ℕ → Polled (List FileInfo)) (n : ℕ)
    → (is_dir item ≡ true → (m : ℕ) → descend item.path m ≢ none)
    → ((m : ℕ) → rest m ≢ none)
    → list_entry descend item rest n ≢ none
unfolding list_entry
list_entry-total descend item rest n h k = elim (Bool-cases (is_dir item)) [
  | inl e ↦
      rw (e, list_entry)
        (bind-total (descend item.path n) _ (h e n)
          (λ files m. prepend-total (item ∷ files) (rest m) (k m)))
  | inr e ↦ rw (e, list_entry) (prepend-total (item ∷ []) (rest n) (k n))
]

module _ (glob : Text → Text → Option Bool) (done : ℕ → Bool) (patterns : List Text) where
  list_items-total :
      (descend : Text → ℕ → Polled (List FileInfo)) (items : List FileInfo) (n : ℕ)
      → All (λ (item : FileInfo). is_dir item ≡ true → (m : ℕ) → descend item.path m ≢ none) items
      → list_items glob done patterns descend items n ≢ none
  unfolding list_items
  list_items-total descend [] n h = λ e. cc
  list_items-total descend (item ∷ items) n h = ground (
    arith,
    list_items-total descend items (suc n) h.1,
    list_entry-total descend item (list_items glob done patterns descend items) (suc n) h.0
        (λ m. list_items-total descend items m h.1),
  )

  -- On a finite tree the listing returns: a fuel above the rank of the prefix is enough.
  pub list_all_files-total :
      (list : Listing) (rank : Text → ℕ)
      → Ranked list rank
      → (fuel : ℕ) (prefix : Text) (n : ℕ) → rank prefix < fuel
      → list_all_files glob done patterns list fuel prefix n ≢ none
  unfolding list_all_files
  list_all_files-total list rank ranked zero prefix n h = absurd (omega arith)
  list_all_files-total list rank ranked (suc fuel) prefix n h = elim (Result-cases (list prefix)) [
    | inl (items, e) ↦
        rw (e, list_all_files)
          (list_items-total (list_all_files glob done patterns list fuel) items n (
            All-map _ _ items
              (λ item below isdir m.
                list_all_files-total list rank ranked fuel item.path m (deeper (below isdir)))
              (ranked prefix items e)))
    | inr (e, failed) ↦ rw (failed, list_all_files) (λ c. cc)
  ]
    where
      deeper : {a : ℕ} → a < rank prefix → a < fuel
      deeper k = omega arith

pub bind-eq-ok :
    (r : Polled (List FileInfo)) (f : List FileInfo → ℕ → Polled (List FileInfo))
    {files : List FileInfo} {m : ℕ}
    → (r >>= f) ≡ some (ok files, m)
    → (sub : List FileInfo) × (k : ℕ) × (r ≡ some (ok sub, k)) × (f sub k ≡ some (ok files, m))
bind-eq-ok none f h = cc
bind-eq-ok (some (err e, n)) f h = cc
bind-eq-ok (some (ok sub, k)) f h = (sub, k, refl, h)

pub Polled-cases {ℓ} :
    {A : Type ℓ} (r : Polled A)
    → (r ≡ none)
      ⊎ (((e : Error) × (n : ℕ) × (r ≡ some (err e, n)))
          ⊎ ((a : A) × (n : ℕ) × (r ≡ some (ok a, n))))
Polled-cases none = inl refl
Polled-cases (some (err e, n)) = inr (inl (e, n, refl))
Polled-cases (some (ok a, n)) = inr (inr (a, n, refl))
