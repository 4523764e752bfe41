-- ===== src/Executor/Entries.antt =====
-- One round of the loop of `listAllFiles` of internal/core/rule/executor.go that succeeds.
use syncrules.Prelude.{
  ℕ, Text, true, false, none, some, List, [], ◌∷◌, ◌++◌, ok, err, ◌≡◌, ◌⊎◌, ◌↔◌, inl, inr, refl,
  arith, Member, Member-append, Bool-cases,
}
use syncrules.Domain.{FileInfo, is_dir}
use syncrules.Executor.{Polled, prepend, list_entry}
use syncrules.Executor.Listing.{bind-eq-ok}

prepend-eq-ok :
    (first : List FileInfo) (r : Polled (List FileInfo)) {files : List FileInfo} {m : ℕ}
    → prepend first r ≡ some (ok files, m)
    → (more : List FileInfo) × (r ≡ some (ok more, m)) × (files ≡ first ++ more)
prepend-eq-ok first none h = cc
prepend-eq-ok first (some (err e, n)) h = cc
prepend-eq-ok first (some (ok more, n)) h = (more, ground arith, ground arith)

-- A successful round for an item: what it lists below the item, and where the loop goes on.
pub record Entry (descend : Text → ℕ → Polled (List FileInfo)) (item : FileInfo)
    (rest : ℕ → Polled (List FileInfo)) (n : ℕ) (files : List FileInfo) (m : ℕ) : Type 0 where
  pub sub : List FileInfo
  pub more : List FileInfo
  pub k : ℕ
  pub looped : rest k ≡ some (ok more, m)
  pub listed : files ≡ item ∷ (sub ++ more)
  pub below_item :
      ((is_dir item ≡ true) × (descend item.path n ≡ some (ok sub, k)))
      ⊎ ((is_dir item ≡ false) × (sub ≡ []))

pub list_entry-Entry :
    (descend : Text → ℕ → Polled (List FileInfo)) (item : FileInfo)
    (rest : ℕ → Polled (List FileInfo)) (n : ℕ) {files : List FileInfo} {m : ℕ}
    → list_entry descend item rest n ≡ some (ok files, m)
    → Entry descend item rest n files m
unfolding list_entry
list_entry-Entry descend item rest n {files} {m} h = elim (Bool-cases (is_dir item)) [
  | inl e ↦ of_dir e (bind-eq-ok (descend item.path n) _ (rw (e, list_entry) at h))
  | inr e ↦ of_file e (prepend-eq-ok (item ∷ []) (rest n) (rw (e, list_entry) at h))
]
  where
    of_dir :
        is_dir item ≡ true
        → (sub : List FileInfo) × (k : ℕ) × (descend item.path n ≡ some (ok sub, k))
          × (prepend (item ∷ sub) (rest k) ≡ some (ok files, m))
        → Entry descend item rest n files m
    of_dir e (sub, k, called, looped) =
        let (more, found, listed) = prepend-eq-ok (item ∷ sub) (rest k) looped in
        record {
          sub = sub;
          more = more;
          k = k;
          looped = found;
          listed = listed;
          below_item = inl (e, called);
        }

    of_file :
        is_dir item ≡ false
        → (more : List FileInfo) × (rest n ≡ some (ok more, m)) × (files ≡ item ∷ more)
        → Entry descend item rest n files m
    of_file e (more, found, listed) = record {
      sub = [];
      more = more;
      k = n;
      looped = found;
      listed = listed;
      below_item = inr (e, refl);
    }

-- Where a listed file comes from.
pub Member-Entry :
    (descend : Text → ℕ → Polled (List FileInfo)) (item : FileInfo)
    (rest : ℕ → Polled (List FileInfo)) (n : ℕ) {files : List FileInfo} {m : ℕ}
    (en : Entry descend item rest n files m) (f : FileInfo)
    → Member f files ↔ ((f ≡ item) ⊎ (Member f en.sub ⊎ Member f en.more))
Member-Entry descend item rest n en f =
    rw en.listed (ground (arith, Member-append f en.sub en.more))

pub Member-sub :
    (descend : Text → ℕ → Polled (List FileInfo)) (item : FileInfo)
    (rest : ℕ → Polled (List FileInfo)) (n : ℕ) {files : List FileInfo} {m : ℕ}
    (en : Entry descend item rest n files m) (f : FileInfo)
    → Member f en.sub
    → (is_dir item ≡ true) × (descend item.path n ≡ some (ok en.sub, en.k))
Member-sub descend item rest n en f k = elim en.below_item [
  | inl found ↦ found
  | inr (_, e) ↦ absurd (rw e at k)
]
