-- ===== src/Daemon/Opening.antt =====
-- `NewDaemonService` of internal/service/daemon.go.
use syncrules.Prelude.{
  suc, Text, codes, Option, none, some, Result, ok, err, ◌≡◌, ◌⊎◌, inl, inr, refl, ap, ◌∙◌,
  Result-cases,
}
use syncrules.Domain.{Error, wrapped, other_error}
use syncrules.Config.{Config}
use syncrules.Config.Locations.{Environment, get_lock_path}
use syncrules.Service.Opening.{SyncService, new_sync_service, new_sync_service-keeps}
use syncrules.History.Opening.{Driver, DriverLaws, new_manager, new_manager-Opened}

-- `DaemonService` as it is made: there is no scheduler yet.
pub record DaemonService (W D : Type 0) : Type 0 where
  pub config : Config
  pub service : SyncService W
  pub manager : D

module _ {W S D : Type 0} (driver : Driver S D) (schema : Text) (env : Environment) where
  -- From the service on.
  with_service : Config → SyncService W → S → S × Result Error (DaemonService W D)
  unfolding new_manager get_lock_path
  with_service c service s =
      let (s1, made) = new_manager driver schema (get_lock_path env c) s in
      elim made [
        | err e ↦ (s1, err (wrapped (codes "failed to create state manager") e))
        | ok db ↦ (s1, ok (record { config = c; service = service; manager = db }))
      ]

  -- `NewDaemonService`; the configuration may be nil.
  unfoldable pub new_daemon_service : Option Config → S → S × Result Error (DaemonService W D)
  unfolding with_service new_sync_service
  new_daemon_service none s = (s, err (other_error (codes "config cannot be nil")))
  new_daemon_service (some c) s =
      let (s1, made) = new_sync_service driver.mkdir_all env (some c) s in
      elim made [
        | err e ↦ (s1, err (wrapped (codes "failed to create sync service") e))
        | ok service ↦ with_service c service s1
      ]

-- NewDaemonService returns a daemon and has opened one database for it, or it returns an error and
-- leaves no database open that was not open before.
pub new_daemon_service-Opened :
    {W S D : Type 0} (driver : Driver S D) (laws : DriverLaws driver) (schema : Text)
    (env : Environment) (c : Option Config) (s : S)
    → let r = new_daemon_service {W = W} driver schema env c s in
      ((d : DaemonService W D) × (r.1 ≡ ok d) × (laws.opens r.0 ≡ suc (laws.opens s)))
      ⊎ ((e : Error) × (r.1 ≡ err e) × (laws.opens r.0 ≡ laws.opens s))
unfolding new_daemon_service with_service
new_daemon_service-Opened driver laws schema env none s = inr (_, refl, refl)
new_daemon_service-Opened {W} driver laws schema env (some c) s =
    let r = new_sync_service {W = W} driver.mkdir_all env (some c) s in
    let kept = new_sync_service-keeps W laws.opens driver.mkdir_all env c s laws.mkdir_law in
    elim (Result-cases r.1) [
      | inr (x, e) ↦ rw (new_daemon_service, e) (inr (_, refl, kept))
      | inl (service, e) ↦ elim (new_manager-Opened driver laws schema (get_lock_path env c) r.0) [
        | inl (db, f, h) ↦
            rw (new_daemon_service, with_service, e, f) (inl (_, refl, h ∙ ap suc kept))
        | inr (x, f, h) ↦ rw (new_daemon_service, with_service, e, f) (inr (_, refl, h ∙ kept))
      ]
    ]
