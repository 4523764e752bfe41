-- ===== src/History/Opening.antt =====
-- `NewManager` and `Close` of internal/state/manager.go over the driver of the database.
use mathlib.Core.Path.{subst}
use syncrules.Prelude.{
  ℕ, suc, Text, text_eq, codes, Option, none, some, [], ◌==◌, if◌then◌else◌, Result, ok, err, ◌≡◌,
  ◌⊎◌, inl, inr, refl, ◌∙◌, Result-cases, Option-cases, Bool-cases,
}
use syncrules.Paths.{join}
use syncrules.Domain.{Error, wrapped, other_error}

-- A connection of the pool is a `D`; `limit_conns` is `SetMaxOpenConns` and `SetMaxIdleConns`.
pub record Driver (W D : Type 0) : Type 0 where
  pub mkdir_all : W → Text → W × Option Error
  pub open_db : W → Text → W × Result Error D
  pub limit_conns : W → D → ℕ → W
  pub exec : W → D → Text → W × Option Error
  pub close : W → D → W × Option Error

abbrev pragmas : Text
pragmas = codes "PRAGMA journal_mode=WAL; PRAGMA busy_timeout=5000"

module _ {W D : Type 0} (driver : Driver W D) (schema : Text) where
  init_schema : D → W → W × Option Error
  init_schema db w = driver.exec w db schema

  -- `NewManager` from the schema on.
  with_schema : D → W → W × Result Error D
  unfolding init_schema
  with_schema db w =
      let (w1, failed) = init_schema db w in
      elim failed [
        | none ↦ (w1, ok db)
        | some e ↦ ((driver.close w1 db).0, err (wrapped (codes "failed to initialize schema") e))
      ]

  -- From the pragmas on.
  with_pragmas : D → W → W × Result Error D
  unfolding with_schema
  with_pragmas db w =
      let (w1, failed) = driver.exec w db pragmas in
      elim failed [
        | some e ↦ (
          (driver.close w1 db).0,
          err (wrapped (codes "failed to enable WAL mode and busy timeout") e),
        )
        | none ↦ with_schema db w1
      ]

  -- From `sql.Open` on.
  open_database : Text → W → W × Result Error D
  unfolding with_pragmas join
  open_database data_dir w =
      let (w1, opened) = driver.open_db w (join data_dir (codes "syncrules.db")) in
      elim opened [
        | err e ↦ (w1, err (wrapped (codes "failed to open database") e))
        | ok db ↦ with_pragmas db (driver.limit_conns w1 db 1)
      ]

  -- `NewManager`
  unfoldable pub new_manager : Text → W → W × Result Error D
  unfolding open_database
  new_manager data_dir w =
      let (w1, failed) = driver.mkdir_all w data_dir in
      if data_dir == []
      then (w, err (other_error (codes "data directory cannot be empty")))
      else elim failed [
        | some e ↦ (w1, err (wrapped (codes "failed to create data directory") e))
        | none ↦ open_database data_dir w1
      ]

  -- `Close`
  unfoldable pub close_manager : Option D → W → W × Option Error
  close_manager none w = (w, none)
  close_manager (some db) w = driver.close w db

-- The number of databases that are open. `Close` counts one down even where it gives an error.
pub record DriverLaws {W D : Type 0} (driver : Driver W D) : Type 0 where
  pub opens : W → ℕ
  pub mkdir_law : (w : W) (p : Text) → opens (driver.mkdir_all w p).0 ≡ opens w
  pub open_law :
      (w : W) (p : Text)
      → ((db : D) → (driver.open_db w p).1 ≡ ok db → opens (driver.open_db w p).0 ≡ suc (opens w))
        × ((e : Error) → (driver.open_db w p).1 ≡ err e → opens (driver.open_db w p).0 ≡ opens w)
  pub limit_law : (w : W) (db : D) (n : ℕ) → opens (driver.limit_conns w db n) ≡ opens w
  pub exec_law : (w : W) (db : D) (s : Text) → opens (driver.exec w db s).0 ≡ opens w
  pub close_law : (w : W) (db : D) (n : ℕ) → opens w ≡ suc n → opens (driver.close w db).0 ≡ n

module _ {W D : Type 0} (driver : Driver W D) (laws : DriverLaws driver) (schema : Text) where
  -- The operation has opened one database and returns it, or none is left open.
  abbrev pub Opened : ℕ → W × Result Error D → Type 0
  Opened n (w, r) =
      ((db : D) × (r ≡ ok db) × (laws.opens w ≡ suc n))
      ⊎ ((e : Error) × (r ≡ err e) × (laws.opens w ≡ n))

  with_schema-Opened :
      (db : D) (w : W) (n : ℕ) → laws.opens w ≡ suc n → Opened n (with_schema driver schema db w)
  unfolding with_schema init_schema
  with_schema-Opened db w n h =
      let r = driver.exec w db schema in
      let h' : laws.opens r.0 ≡ suc n = laws.exec_law w db schema ∙ h in
      elim (Option-cases r.1) [
        | inl e ↦ rw (with_schema, init_schema, e) (inl (db, refl, h'))
        | inr (x, e) ↦ rw (with_schema, init_schema, e) (inr (_, refl, laws.close_law r.0 db n h'))
      ]

  with_pragmas-Opened :
      (db : D) (w : W) (n : ℕ) → laws.opens w ≡ suc n → Opened n (with_pragmas driver schema db w)
  unfolding with_pragmas
  with_pragmas-Opened db w n h =
      let r = driver.exec w db pragmas in
      let h' : laws.opens r.0 ≡ suc n = laws.exec_law w db pragmas ∙ h in
      elim (Option-cases r.1) [
        | inl e ↦ rw (with_pragmas, e) (with_schema-Opened db r.0 n h')
        | inr (x, e) ↦ rw (with_pragmas, e) (inr (_, refl, laws.close_law r.0 db n h'))
      ]

  open_database-Opened :
      (data_dir : Text) (w : W) → Opened (laws.opens w) (open_database driver schema data_dir w)
  unfolding open_database
  open_database-Opened data_dir w =
      let path = join data_dir (codes "syncrules.db") in
      let r = driver.open_db w path in
      let (one, same) = laws.open_law w path in
      elim (Result-cases r.1) [
        | inr (x, e) ↦ rw (open_database, e) (inr (_, refl, same x e))
        | inl (db, e) ↦
            rw (open_database, e)
              (with_pragmas-Opened db (driver.limit_conns r.0 db 1) (laws.opens w)
                (laws.limit_law r.0 db 1 ∙ one db e))
      ]

  -- NewManager returns a manager and has opened one database for it, or it returns an error and leaves
  -- no database open that was not open before.
  pub new_manager-Opened :
      (data_dir : Text) (w : W) → Opened (laws.opens w) (new_manager driver schema data_dir w)
  unfolding new_manager
  new_manager-Opened data_dir w =
      let r = driver.mkdir_all w data_dir in
      let same = laws.mkdir_law w data_dir in
      elim (Bool-cases (data_dir == [])) [
        | inl e ↦ rw (new_manager, e) (inr (_, refl, refl))
        | inr e ↦ elim (Option-cases r.1) [
          | inr (x, f) ↦ rw (new_manager, e, f) (inr (_, refl, same))
          | inl f ↦
              rw (new_manager, e, f)
                (subst (λ n. Opened n (open_database driver schema data_dir r.0)) same
                  (open_database-Opened data_dir r.0))
        ]
      ]
