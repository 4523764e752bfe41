-- ===== src/Drive/Opening.antt =====
-- `New` of internal/adapter/gdrive/gdrive.go: the token, the service and the root folder.
use syncrules.Prelude.{Text, codes, Result, ok, err}
use syncrules.Domain.{Error, wrapped}
use syncrules.Auth.{OauthToken, AuthSystem, get_client}
use syncrules.Drive.{DriveService}
use syncrules.Drive.Operations
use syncrules.Drive.Operations.{DriveAdapter}

-- An adapter with the service that it calls.
pub record ServedAdapter (W : Type 0) : Type 0 where
  pub service : DriveService W
  pub adapter : DriveAdapter

module _ {W : Type 0} (system : AuthSystem W) (token_path : Text)
    (new_service : OauthToken → Result Error (DriveService W)) where
  -- From `drive.NewService` on.
  with_token : OauthToken → Text → W → W × Result Error (ServedAdapter W)
  unfolding Operations.new
  with_token token root w = elim (new_service token) [
    | err e ↦ (w, err (wrapped (codes "failed to create Drive service") e))
    | ok service ↦
        let (w1, made) = Operations.new service w root in
        elim made [
          | err e ↦ (w1, err e)
          | ok adapter ↦ (w1, ok (record { service = service; adapter = adapter }))
        ]
  ]

  -- `New`
  unfoldable pub new_adapter : Text → W → W × Result Error (ServedAdapter W)
  unfolding with_token get_client
  new_adapter root w =
      let (w1, got) = get_client system token_path w in
      elim got [ err e ↦ (w1, err e) | ok token ↦ with_token token root w1 ]
