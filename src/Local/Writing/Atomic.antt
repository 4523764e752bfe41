-- ===== src/Local/Writing/Atomic.antt =====
-- `Write` of internal/adapter/local/local.go replaces a file at once: the contents of its files at each
-- end of the operation.
use syncrules.Prelude.{
  Text, length, length-append, Option, none, some, [], ok, ◌≡◌, ◌≢◌, ◌⊎◌, inl, inr, refl, ap, ◌∙◌,
  arith, Option-cases,
}
use syncrules.Paths.{dir}
use syncrules.Domain.{Error}
use syncrules.Adapter.{Content, joined}
use syncrules.Local.{Os, resolve_path, map_error, raw}
use syncrules.Local.Writing.{temp_path, rename_temp, copy_temp, write_temp, write_at, write}

-- An operation leaves the files at other paths as they are.
abbrev Leaves : {W : Type 0} → (W → Text → Option Text) → W → W → Text → Type 0
Leaves contents w w' p = (q : Text) → q ≢ p → contents w' q ≡ contents w q

-- What is documented of the functions of `os` and `io`: the bytes of the regular file at a path, if
-- there is one. An operation that fails may have changed the file that it works on, but a rename that
-- fails has not changed the file at the new name.
pub record FileLaws {W : Type 0} (os : Os W) : Type 0 where
  pub contents : W → Text → Option Text
  pub mkdir_all_law : (w : W) (p q : Text) → contents (os.mkdir_all w p).0 q ≡ contents w q
  pub create_law :
      (w : W) (p : Text)
      → ((os.create w p).1 ≡ none → contents (os.create w p).0 p ≡ some [])
        × Leaves contents w (os.create w p).0 p
  pub copy_law :
      (w : W) (p : Text) (c : Content)
      → (contents w p ≡ some []
          → (os.copy w p c).1 ≡ none
          → (c.failure ≡ none) × (contents (os.copy w p c).0 p ≡ some (joined c)))
        × Leaves contents w (os.copy w p c).0 p
  pub close_law :
      (w : W) (p : Text)
      → ((os.close w p).1 ≡ none → contents (os.close w p).0 p ≡ contents w p)
        × Leaves contents w (os.close w p).0 p
  pub remove_law : (w : W) (p : Text) → Leaves contents w (os.remove w p).0 p
  pub rename_law :
      (w : W) (p p' : Text)
      → ((os.rename w p p').1 ≡ none → contents (os.rename w p p').0 p' ≡ contents w p)
        × ((os.rename w p p').1 ≢ none → contents (os.rename w p p').0 p' ≡ contents w p')
        × ((q : Text) → q ≢ p → q ≢ p' → contents (os.rename w p p').0 q ≡ contents w q)

pub full-ne-temp_path : (full : Text) → full ≢ temp_path full
full-ne-temp_path full e = absurd (omega (arith, ap length e, length-append full (temp_path [])))

module _ {W : Type 0} (os : Os W) (laws : FileLaws os) where
  -- The file is replaced by what the reader gave, or it is as before and an error is returned; files at
  -- other paths, the temporary one excepted, do not change.
  abbrev pub Replaced : W → W × Option Error → Text → Content → Type 0
  Replaced w (w', failed) full content =
      (((failed ≡ none)
          × (content.failure ≡ none)
          × (laws.contents w' full ≡ some (joined content)))
        ⊎ ((failed ≢ none) × (laws.contents w' full ≡ laws.contents w full)))
      × ((q : Text) → q ≢ full → q ≢ temp_path full → laws.contents w' q ≡ laws.contents w q)

  -- At most the temporary file has changed.
  Apart : W → W → Text → Type 0
  Apart w w' full = Leaves laws.contents w w' (temp_path full)

  later :
      (w w1 : W) (r : W × Option Error) (full : Text) (content : Content)
      → Apart w w1 full
      → Replaced w1 r full content
      → Replaced w r full content
  unfolding Apart
  later w w1 (w', failed) full content apart (inl (e, c, h), others) =
      (inl (e, c, h), λ q n m. others q n m ∙ apart q m)
  later w w1 (w', failed) full content apart (inr (e, h), others) =
      (inr (e, h ∙ apart full (full-ne-temp_path full)), λ q n m. others q n m ∙ apart q m)

  gave_up :
      (w w' : W) (full : Text) (content : Content) (e : Error)
      → Apart w w' full
      → Replaced w (w', some e) full content
  unfolding Apart
  gave_up w w' full content e apart =
      (inr (λ c. cc, apart full (full-ne-temp_path full)), λ q n m. apart q m)

  -- Where the temporary file holds what the reader gave.
  rename_temp-Replaced :
      (w : W) (full : Text) (content : Content)
      → content.failure ≡ none
      → laws.contents w (temp_path full) ≡ some (joined content)
      → Replaced w (rename_temp os w full) full content
  unfolding rename_temp
  rename_temp-Replaced w full content c h =
      let renamed = os.rename w (temp_path full) full in
      let (moved, kept, others) = laws.rename_law w (temp_path full) full in
      let removed = laws.remove_law renamed.0 (temp_path full) in
      elim (Option-cases renamed.1) [
        | inl e ↦ rw (e, rename_temp) (inl (refl, c, moved e ∙ h), λ q n m. others q m n)
        | inr (x, e) ↦
            rw (e, rename_temp)
              (
                inr (λ z. cc, removed full (full-ne-temp_path full) ∙ kept (λ z. ground arith)),
                λ q n m. removed q m ∙ others q m n,
              )
      ]

  copy_temp-Replaced :
      (w : W) (full : Text) (content : Content)
      → laws.contents w (temp_path full) ≡ some []
      → Replaced w (copy_temp os w full content) full content
  unfolding copy_temp Apart
  copy_temp-Replaced w full content h =
      let temp = temp_path full in
      let copied = os.copy w temp content in
      let closed = os.close copied.0 temp in
      let (filled, copies) = laws.copy_law w temp content in
      let (flushed, closes) = laws.close_law copied.0 temp in
      let removes = laws.remove_law closed.0 temp in
      elim (Option-cases copied.1) [
        | inr (x, e) ↦
            rw (e, copy_temp)
              (gave_up w (os.remove closed.0 temp).0 full content x
                (λ q n. removes q n ∙ closes q n ∙ copies q n))
        | inl e ↦ elim (Option-cases closed.1) [
          | inr (x, f) ↦
              rw (e, f, copy_temp)
                (gave_up w (os.remove closed.0 temp).0 full content (raw x)
                  (λ q n. removes q n ∙ closes q n ∙ copies q n))
          | inl f ↦
              let (c, k) = filled h e in
              rw (e, f, copy_temp)
                (later w closed.0 (rename_temp os closed.0 full) full content
                  (λ q n. closes q n ∙ copies q n)
                  (rename_temp-Replaced closed.0 full content c (flushed f ∙ k)))
        ]
      ]

  write_at-Replaced :
      (w : W) (full : Text) (content : Content)
      → Replaced w (write_at os w full content) full content
  unfolding write_at write_temp Apart
  write_at-Replaced w full content =
      let temp = temp_path full in
      let made = os.mkdir_all w (dir full) in
      let makes = laws.mkdir_all_law w (dir full) in
      let created = os.create made.0 temp in
      let (empty, creates) = laws.create_law made.0 temp in
      elim (Option-cases made.1) [
        | inr (x, e) ↦
            rw (e, write_at) (gave_up w made.0 full content (map_error x) (λ q n. makes q))
        | inl e ↦ elim (Option-cases created.1) [
          | inr (x, f) ↦
              rw (e, write_at, f, write_temp)
                (gave_up w created.0 full content (map_error x) (λ q n. creates q n ∙ makes q))
          | inl f ↦
              rw (e, write_at, f, write_temp)
                (later w created.0 (copy_temp os created.0 full content) full content
                  (λ q n. creates q n ∙ makes q)
                  (copy_temp-Replaced created.0 full content (empty f)))
        ]
      ]

  -- Where the path is resolved, `Write` replaces the file by all that the reader gave, or it returns an
  -- error and the file is as it was; other files, but for the temporary one, are left alone.
  pub write-Replaced :
      (root path full : Text) (w : W) (content : Content)
      → resolve_path root path ≡ ok full
      → Replaced w (write os root w path content) full content
  unfolding write
  write-Replaced root path full w content h = rw (h, write) (write_at-Replaced w full content)
