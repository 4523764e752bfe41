-- ===== src/Executor/Reach.antt =====
-- A listing of internal/core/rule/executor.go that succeeds holds exactly what can be reached through
-- directories that are not ignored.
use syncrules.Prelude.{
  ℕ, zero, suc, Text, Bool, true, false, Option, some, List, [], ◌∷◌, ok, ◌≡◌, ◌↔◌, ◌⊎◌, Bool-cases,
  inl, inr, refl, ap, arith, Member, Result-cases,
}
use syncrules.Domain.{FileInfo, is_dir}
use syncrules.Planner.Ignore.{should_ignore}
use syncrules.Executor.{Listing, Polled, list_items, list_all_files}
use syncrules.Executor.Entries.{list_entry-Entry, Entry, Member-Entry, Member-sub}

module _ (glob : Text → Text → Option Bool) (patterns : List Text) (list : Listing) where
  -- `f` is listed at the path, or below a directory that is.
  pub data Reachable : Text → FileInfo → Type 0 where
    here :
        {prefix : Text} {items : List FileInfo} {f : FileInfo}
        → list prefix ≡ ok items
        → Member f items
        → should_ignore glob f.path patterns ≡ false
        → Reachable prefix f
    below :
        {prefix : Text} {items : List FileInfo} {f : FileInfo} (d : FileInfo)
        → list prefix ≡ ok items
        → Member d items
        → should_ignore glob d.path patterns ≡ false
        → is_dir d ≡ true
        → Reachable d.path f
        → Reachable prefix f

module _ (glob : Text → Text → Option Bool) (done : ℕ → Bool) (patterns : List Text) where
  list_items-step :
      (descend : Text → ℕ → Polled (List FileInfo)) (item : FileInfo) (items : List FileInfo)
      (n : ℕ) {files : List FileInfo} {m : ℕ}
      → list_items glob done patterns descend (item ∷ items) n ≡ some (ok files, m)
      → ((should_ignore glob item.path patterns ≡ true)
          × (list_items glob done patterns descend items (suc n) ≡ some (ok files, m)))
        ⊎ ((should_ignore glob item.path patterns ≡ false)
            × Entry descend item (list_items glob done patterns descend items) (suc n) files m)
  unfolding list_items
  list_items-step descend item items n h = elim (Bool-cases (done n)) [
    | inl e ↦ cc (rw (e, list_items) at h)
    | inr e ↦ elim (Bool-cases (should_ignore glob item.path patterns)) [
      | inl i ↦ inl (i, rw (e, i, list_items) at h)
      | inr i ↦ inr (
        i,
        list_entry-Entry descend item (list_items glob done patterns descend items) (suc n)
            (rw (e, i, list_items) at h),
      )
    ]
  ]

  -- What a successful listing of items holds comes from the items or from a call below one.
  list_items_sound :
      (list : Listing) (descend : Text → ℕ → Polled (List FileInfo)) (prefix : Text)
      {all : List FileInfo}
      → list prefix ≡ ok all
      → ((path : Text) (k : ℕ) (sub : List FileInfo) (k' : ℕ) (f : FileInfo)
          → descend path k ≡ some (ok sub, k')
          → Member f sub
          → Reachable glob patterns list path f)
      → (items : List FileInfo) (n : ℕ) {files : List FileInfo} {m : ℕ}
      → ((d : FileInfo) → Member d items → Member d all)
      → list_items glob done patterns descend items n ≡ some (ok files, m)
      → (f : FileInfo) → Member f files
      → Reachable glob patterns list prefix f
  unfolding list_items
  list_items_sound list descend prefix listed ih [] n {files} within h f k =
      let e : files ≡ [] = ground arith in absurd (rw e at k)
  list_items_sound list descend prefix listed ih (item ∷ items) n within h f k =
      elim (list_items-step descend item items n h) [
        | inl (ignored, h') ↦
            list_items_sound list descend prefix listed ih items (suc n) (λ d m. within d (inr m))
              h' f k
        | inr (kept, en) ↦
            elim ((Member-Entry descend item (list_items glob done patterns descend items) (suc n)
                en f).0
              k) [
                | inl e ↦ here listed (within f (inl e)) (rw e kept)
                | inr (inl below_k) ↦
                    let (isdir, called) =
                      Member-sub descend item (list_items glob done patterns descend items) (suc n)
                        en f below_k in
                    below item listed (within item (inl refl)) kept isdir
                      (ih item.path (suc n) en.sub en.k f called below_k)
                | inr (inr later) ↦
                    list_items_sound list descend prefix listed ih items en.k
                      (λ d m. within d (inr m)) en.looped f later
              ]
      ]

  list_all_files_sound :
      (list : Listing) (fuel : ℕ) (prefix : Text) (n : ℕ) (files : List FileInfo) (m : ℕ)
      (f : FileInfo)
      → list_all_files glob done patterns list fuel prefix n ≡ some (ok files, m)
      → Member f files
      → Reachable glob patterns list prefix f
  unfolding list_all_files
  list_all_files_sound list zero prefix n files m f h k = cc
  list_all_files_sound list (suc fuel) prefix n files m f h k = elim (Result-cases (list prefix)) [
    | inl (items, e) ↦
        list_items_sound list (list_all_files glob done patterns list fuel) prefix e
          (λ path k sub k' f. list_all_files_sound list fuel path k sub k' f) items n (λ d m. m)
          (rw (e, list_all_files) at h) f k
    | inr (e, failed) ↦ cc (rw (failed, list_all_files) at h)
  ]

  -- What the loop guarantees of each item that is not ignored: it is listed, and a directory was
  -- listed by a call whose files are listed too.
  record Covers (descend : Text → ℕ → Polled (List FileInfo)) (d : FileInfo) (files : List FileInfo)
      : Type 0 where
    self : Member d files
    called :
        is_dir d ≡ true
        → (k : ℕ) × (sub : List FileInfo) × (k' : ℕ) × (descend d.path k ≡ some (ok sub, k'))
          × ((g : FileInfo) → Member g sub → Member g files)

  Entry-Covers :
      (descend : Text → ℕ → Polled (List FileInfo)) (item : FileInfo)
      (rest : ℕ → Polled (List FileInfo)) (n : ℕ) {files : List FileInfo} {m : ℕ}
      → Entry descend item rest n files m
      → Covers descend item files
  Entry-Covers descend item rest n en = record {
    self = (Member-Entry descend item rest n en item).1 (inl refl);
    called = λ isdir. elim en.below_item [
      | inl (_, found) ↦
          (n, en.sub, en.k, found, λ g k. (Member-Entry descend item rest n en g).1 (inr (inl k)))
      | inr (isfile, _) ↦ cc (isdir, isfile)
    ];
  }

  Covers-more :
      (descend : Text → ℕ → Polled (List FileInfo)) (d : FileInfo) (more files : List FileInfo)
      → ((g : FileInfo) → Member g more → Member g files)
      → Covers descend d more
      → Covers descend d files
  Covers-more descend d more files h c = record {
    self = h d c.self;
    called = λ isdir.
        let (k, sub, k', found, inside) = c.called isdir in
        (k, sub, k', found, λ g m. h g (inside g m));
  }

  list_items-Covers :
      (descend : Text → ℕ → Polled (List FileInfo)) (items : List FileInfo) (n : ℕ)
      {files : List FileInfo} {m : ℕ}
      → list_items glob done patterns descend items n ≡ some (ok files, m)
      → (d : FileInfo) → Member d items
      → should_ignore glob d.path patterns ≡ false
      → Covers descend d files
  list_items-Covers descend [] n h d k kept = absurd k
  list_items-Covers descend (item ∷ items) n {files} h d k kept =
      elim (list_items-step descend item items n h) [
        | inl (ignored, h') ↦ elim k [
          | inl e ↦ cc (kept, ignored, ap (λ (f : FileInfo). should_ignore glob f.path patterns) e)
          | inr later ↦ list_items-Covers descend items (suc n) h' d later kept
        ]
        | inr (_, en) ↦ elim k [
          | inl e ↦
              rw e
                (Entry-Covers descend item (list_items glob done patterns descend items) (suc n) en)
          | inr later ↦
              Covers-more descend d en.more files
                (λ g m.
                  (Member-Entry descend item (list_items glob done patterns descend items) (suc n)
                      en g).1
                    (inr (inr m)))
                (list_items-Covers descend items en.k en.looped d later kept)
        ]
      ]

  -- The files of a successful call are those of the loop over what was listed.
  items_of :
      (list : Listing) (fuel : ℕ) (prefix : Text) (n : ℕ) (items files : List FileInfo) (m : ℕ)
      → list prefix ≡ ok items
      → list_all_files glob done patterns list (suc fuel) prefix n ≡ some (ok files, m)
      → list_items glob done patterns (list_all_files glob done patterns list fuel) items n
        ≡ some (ok files, m)
  unfolding list_all_files
  items_of list fuel prefix n items files m e h = rw (e, list_all_files) at h

  out_of_fuel :
      (list : Listing) (prefix : Text) (n : ℕ) (files : List FileInfo) (m : ℕ)
      → ¬ (list_all_files glob done patterns list zero prefix n ≡ some (ok files, m))
  unfolding list_all_files
  out_of_fuel list prefix n files m h = cc

  list_all_files_complete :
      (list : Listing) {prefix : Text} {f : FileInfo}
      → Reachable glob patterns list prefix f
      → (fuel n : ℕ) (files : List FileInfo) (m : ℕ)
      → list_all_files glob done patterns list fuel prefix n ≡ some (ok files, m)
      → Member f files
  list_all_files_complete list {prefix} r zero n files m h =
      absurd (out_of_fuel list prefix n files m h)
  list_all_files_complete list {prefix} {f} (here {items = items} listed k kept) (suc fuel) n files
        m h =
      (list_items-Covers _ items n (items_of list fuel prefix n items files m listed h) f k
        kept).self
  list_all_files_complete list {prefix} {f} (below {items = items} d listed k kept isdir r)
        (suc fuel) n files m h =
      let c : Covers (list_all_files glob done patterns list fuel) d files =
        list_items-Covers _ items n (items_of list fuel prefix n items files m listed h) d k kept in
      let (k', sub, k'', found, inside) = c.called isdir in
      inside f (list_all_files_complete list r fuel k' sub k'' found)

  -- A listing that succeeds holds a file exactly if the file is not ignored and is reached through
  -- directories that are not ignored.
  pub list_all_files-Reachable :
      (list : Listing) (fuel : ℕ) (prefix : Text) (n : ℕ) (files : List FileInfo) (m : ℕ)
      (f : FileInfo)
      → list_all_files glob done patterns list fuel prefix n ≡ some (ok files, m)
      → Member f files ↔ Reachable glob patterns list prefix f
  list_all_files-Reachable list fuel prefix n files m f h = (
    list_all_files_sound list fuel prefix n files m f h,
    λ r. list_all_files_complete list r fuel n files m h,
  )

-- No ignored path is reachable.
pub Reachable-kept :
    (glob : Text → Text → Option Bool) (patterns : List Text) (list : Listing) {prefix : Text}
    {f : FileInfo}
    → Reachable glob patterns list prefix f
    → should_ignore glob f.path patterns ≡ false
Reachable-kept glob patterns list (here listed k kept) = kept
Reachable-kept glob patterns list (below d listed k kept isdir r) =
    Reachable-kept glob patterns list r
