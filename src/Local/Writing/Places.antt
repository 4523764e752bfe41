-- ===== src/Local/Writing/Places.antt =====
-- Two adapters of internal/adapter/local/local.go as the storages of a rule: what `Read`, `Write`, `Mkdir` and
-- `Delete` do to a set of paths.
use syncrules.Prelude.{
  Text, Option, none, some, [], ok, ◌≡◌, ◌≢◌, inl, inr, refl, sym, ◌∙◌, arith, Option-cases,
}
use syncrules.Paths.{dir}
use syncrules.Domain.{Error}
use syncrules.Adapter.{Content, joined}
use syncrules.Service.Storage.{Node, folder, file, Kept, Kept-trans}
use syncrules.Service.Replicas.{Touches}
use syncrules.Local.{Os, resolve_path, map_result, open_file, read, mkdir, delete}
use syncrules.Local.Writing.{temp_path, rename_temp, copy_temp, write_temp, write_at, write}

abbrev Leaves : {W : Type 0} → (W → Text → Option Node) → W → W → Text → Type 0
Leaves view w w' p = (q : Text) → q ≢ p → view w' q ≡ view w q

-- What is documented of the functions of `os` and `io`, where they give no error: what stands at a path.
-- `MkdirAll` makes folders where nothing was.
pub record NodeLaws {W : Type 0} (os : Os W) : Type 0 where
  pub view : W → Text → Option Node
  pub open_read_law :
      (w : W) (p : Text) (c : Content)
      → os.open_read w p ≡ ok c
      → c.failure ≡ none
      → view w p ≡ some (file (joined c))
  pub mkdir_all_law :
      (w : W) (p : Text)
      → (os.mkdir_all w p).1 ≡ none
      → (view (os.mkdir_all w p).0 p ≡ some folder)
        × ((q : Text) → Kept (view w q) (view (os.mkdir_all w p).0 q))
  pub create_law :
      (w : W) (p : Text)
      → (os.create w p).1 ≡ none
      → (view (os.create w p).0 p ≡ some (file [])) × Leaves view w (os.create w p).0 p
  pub copy_law :
      (w : W) (p : Text) (c : Content)
      → view w p ≡ some (file [])
      → (os.copy w p c).1 ≡ none
      → (c.failure ≡ none)
        × (view (os.copy w p c).0 p ≡ some (file (joined c)))
        × Leaves view w (os.copy w p c).0 p
  pub close_law :
      (w : W) (p : Text)
      → (os.close w p).1 ≡ none
      → (view (os.close w p).0 p ≡ view w p) × Leaves view w (os.close w p).0 p
  pub remove_law :
      (w : W) (p : Text)
      → (os.remove w p).1 ≡ none
      → (view (os.remove w p).0 p ≡ none) × Leaves view w (os.remove w p).0 p
  pub rename_law :
      (w : W) (p p' : Text)
      → (os.rename w p p').1 ≡ none
      → (view (os.rename w p p').0 p' ≡ view w p)
        × ((q : Text) → q ≢ p → q ≢ p' → view (os.rename w p p').0 q ≡ view w q)

module _ {W : Type 0} (os : Os W) (laws : NodeLaws os) where
  -- The file holds what was read, and all else but the temporary file is kept.
  Written : W → W × Option Error → Text → Content → Type 0
  Written w (w', failed) full c =
      failed ≡ none
      → (c.failure ≡ none)
        × (laws.view w' full ≡ some (file (joined c)))
        × ((q : Text) → q ≢ full → q ≢ temp_path full → Kept (laws.view w q) (laws.view w' q))

  rename_temp-Written :
      (w : W) (full : Text) (c : Content)
      → c.failure ≡ none
      → laws.view w (temp_path full) ≡ some (file (joined c))
      → Written w (rename_temp os w full) full c
  unfolding rename_temp Written
  rename_temp-Written w full c whole h =
      let renamed = os.rename w (temp_path full) full in
      elim (Option-cases renamed.1) [
        | inr (x, e) ↦ rw (e, rename_temp) (λ k. absurd (ground arith))
        | inl e ↦
            let (moved, others) = laws.rename_law w (temp_path full) full e in
            rw (e, rename_temp) (λ k. (whole, moved ∙ h, λ q n m. inl (sym (others q m n))))
      ]

  Written-later :
      (w w1 : W) (r : W × Option Error) (full : Text) (c : Content)
      → ((q : Text) → q ≢ temp_path full → Kept (laws.view w q) (laws.view w1 q))
      → Written w1 r full c
      → Written w r full c
  unfolding Written
  Written-later w w1 (w', failed) full c kept h e =
      let (whole, put, others) = h e in
      (whole, put, λ q n m. Kept-trans _ _ _ (kept q m) (others q n m))

  copy_temp-Written :
      (w : W) (full : Text) (c : Content)
      → laws.view w (temp_path full) ≡ some (file [])
      → Written w (copy_temp os w full c) full c
  unfolding copy_temp Written
  copy_temp-Written w full c h =
      let temp = temp_path full in
      let copied = os.copy w temp c in
      let closed = os.close copied.0 temp in
      elim (Option-cases copied.1) [
        | inr (x, e) ↦ rw (e, copy_temp) (λ k. absurd (ground arith))
        | inl e ↦ elim (Option-cases closed.1) [
          | inr (x, f) ↦ rw (e, f, copy_temp) (λ k. absurd (ground arith))
          | inl f ↦
              let (whole, filled, copies) = laws.copy_law w temp c h e in
              let (flushed, closes) = laws.close_law copied.0 temp f in
              rw (e, f, copy_temp)
                (Written-later w closed.0 (rename_temp os closed.0 full) full c
                  (λ q n. inl (sym (closes q n ∙ copies q n)))
                  (rename_temp-Written closed.0 full c whole (flushed ∙ filled)))
        ]
      ]

  write_at-Written : (w : W) (full : Text) (c : Content) → Written w (write_at os w full c) full c
  unfolding write_at write_temp Written
  write_at-Written w full c =
      let temp = temp_path full in
      let made = os.mkdir_all w (dir full) in
      let created = os.create made.0 temp in
      elim (Option-cases made.1) [
        | inr (x, e) ↦ rw (e, write_at) (λ k. absurd (ground arith))
        | inl e ↦ elim (Option-cases created.1) [
          | inr (x, f) ↦ rw (e, write_at, f, write_temp) (λ k. absurd (ground arith))
          | inl f ↦
              let (_, makes) = laws.mkdir_all_law w (dir full) e in
              let (empty, creates) = laws.create_law made.0 temp f in
              rw (e, write_at, f, write_temp)
                (Written-later w created.0 (copy_temp os created.0 full c) full c
                  (λ q n. Kept-trans _ _ _ (makes q) (inl (sym (creates q n))))
                  (copy_temp-Written created.0 full c empty))
        ]
      ]

-- Each path of a set is resolved below both roots; its places are its own, and none is a temporary file that a
-- write uses.
pub record Places (root_from root_to : Text) (covers : Text → Type 0) : Type 0 where
  pub place_from : Text → Text
  pub place_to : Text → Text
  pub from_law : (p : Text) → covers p → resolve_path root_from p ≡ ok (place_from p)
  pub to_law : (p : Text) → covers p → resolve_path root_to p ≡ ok (place_to p)
  pub distinct_from : (p q : Text) → covers p → covers q → q ≢ p → place_from q ≢ place_from p
  pub distinct : (p q : Text) → covers p → covers q → q ≢ p → place_to q ≢ place_to p
  pub apart : (p q : Text) → covers p → covers q → place_from q ≢ place_to p
  pub no_temp :
      (p q : Text)
      → covers p
      → covers q
      → (place_to q ≢ temp_path (place_to p)) × (place_from q ≢ temp_path (place_to p))
  pub no_temp_from :
      (p q : Text)
      → covers p
      → covers q
      → (place_from q ≢ temp_path (place_from p)) × (place_to q ≢ temp_path (place_from p))

abbrev pub swapped :
    {root_from root_to : Text} {covers : Text → Type 0}
    → Places root_from root_to covers
    → Places root_to root_from covers
swapped places = record {
  place_from = places.place_to;
  place_to = places.place_from;
  from_law = places.to_law;
  to_law = places.from_law;
  distinct_from = places.distinct;
  distinct = places.distinct_from;
  apart = λ p q k k' e. places.apart q p k' k (sym e);
  no_temp = places.no_temp_from;
  no_temp_from = places.no_temp;
}

module _ {W : Type 0} (os : Os W) (laws : NodeLaws os) (root_from root_to : Text)
    (covers : Text → Type 0) (places : Places root_from root_to covers) where
  abbrev pub from_view : W → Text → Option Node
  from_view w p = laws.view w (places.place_from p)

  abbrev pub to_view : W → Text → Option Node
  to_view w p = laws.view w (places.place_to p)

  -- Where the place of a path and its temporary file are all that is not kept.
  keeps-Touches :
      (w w' : W) (p : Text)
      → covers p
      → ((q : Text)
          → q ≢ places.place_to p
          → q ≢ temp_path (places.place_to p)
          → Kept (laws.view w q) (laws.view w' q))
      → Touches covers from_view to_view w w' p
  keeps-Touches w w' p known keeps = (
    λ q k n.
        keeps (places.place_to q) (places.distinct p q known k n) (places.no_temp p q known k).0,
    λ q k. keeps (places.place_from q) (places.apart p q known k) (places.no_temp p q known k).1,
  )

  read_inv :
      (w : W) (p : Text) (c : Content)
      → covers p
      → read os root_from w p ≡ ok c
      → os.open_read w (places.place_from p) ≡ ok c
  unfolding read open_file map_result
  read_inv w p c known h = ground (arith, places.from_law p known)

  write_inv :
      (w : W) (p : Text) (c : Content)
      → covers p
      → write os root_to w p c ≡ write_at os w (places.place_to p) c
  unfolding write
  write_inv w p c known = rw (places.to_law p known, write) refl

  mkdir_inv :
      (w : W) (p : Text)
      → covers p
      → (mkdir os root_to w p).1 ≡ none
      → ((os.mkdir_all w (places.place_to p)).1 ≡ none)
        × ((mkdir os root_to w p).0 ≡ (os.mkdir_all w (places.place_to p)).0)
  unfolding mkdir
  mkdir_inv w p known h = ground (arith, places.to_law p known)

  delete_inv :
      (w : W) (p : Text)
      → covers p
      → (delete os root_to w p).1 ≡ none
      → ((os.remove w (places.place_to p)).1 ≡ none)
        × ((delete os root_to w p).0 ≡ (os.remove w (places.place_to p)).0)
  unfolding delete
  delete_inv w p known h = ground (arith, places.to_law p known)

  pub write-Touches :
      (w : W) (p : Text) (c : Content)
      → covers p
      → (write os root_to w p c).1 ≡ none
      → (c.failure ≡ none)
        × (to_view (write os root_to w p c).0 p ≡ some (file (joined c)))
        × Touches covers from_view to_view w (write os root_to w p c).0 p
  unfolding Written
  write-Touches w p c known = rw (write_inv w p c known) (λ h.
      let (whole, put, keeps) = write_at-Written os laws w (places.place_to p) c h in
      (whole, put, keeps-Touches w (write_at os w (places.place_to p) c).0 p known keeps))

  pub mkdir-Touches :
      (w : W) (p : Text)
      → covers p
      → (mkdir os root_to w p).1 ≡ none
      → (to_view (mkdir os root_to w p).0 p ≡ some folder)
        × Touches covers from_view to_view w (mkdir os root_to w p).0 p
  mkdir-Touches w p known h =
      let (made, e) = mkdir_inv w p known h in
      let (put, keeps) = laws.mkdir_all_law w (places.place_to p) made in
      rw e (put, keeps-Touches w (os.mkdir_all w (places.place_to p)).0 p known (λ q n m. keeps q))

  pub delete-Touches :
      (w : W) (p : Text)
      → covers p
      → (delete os root_to w p).1 ≡ none
      → (to_view (delete os root_to w p).0 p ≡ none)
        × Touches covers from_view to_view w (delete os root_to w p).0 p
  delete-Touches w p known h =
      let (gone, e) = delete_inv w p known h in
      let (put, leaves) = laws.remove_law w (places.place_to p) gone in
      rw e (
        put,
        keeps-Touches w (os.remove w (places.place_to p)).0 p known
            (λ q n m. inl (sym (leaves q n))),
      )

  pub read-view :
      (w : W) (p : Text) (c : Content)
      → covers p
      → read os root_from w p ≡ ok c
      → c.failure ≡ none
      → from_view w p ≡ some (file (joined c))
  read-view w p c known h = laws.open_read_law w (places.place_from p) c (read_inv w p c known h)
