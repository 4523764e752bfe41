-- ===== src/Auth.antt =====
-- internal/adapter/gdrive/auth.go: the token of Google Drive and its file. What it calls of `os`,
-- `encoding/json` and `golang.org/x/oauth2` is a parameter.
pub mod Settled
use syncrules.Prelude.{
  ℕ, Text, text_eq, codes, true, Option, none, some, List, [], ◌∷◌, ◌++◌, ◌==◌, Bool, if◌then◌else◌,
  Result, ok, err,
}
use syncrules.Paths.{dir, join_all}
use syncrules.Domain.{Error, wrapped, other_error}

-- The token as it is stored; times are numbers.
pub record Token : Type 0 where
  pub access_token : Text
  pub refresh_token : Text
  pub token_type : Text
  pub expiry : ℕ

-- `oauth2.Token`; `extra` is what it holds besides the fields that are copied.
pub record OauthToken : Type 0 where
  pub access_token : Text
  pub refresh_token : Text
  pub token_type : Text
  pub expiry : ℕ
  pub extra : Text

abbrev pub to_oauth2_token : Token → OauthToken
to_oauth2_token t = record {
  access_token = t.access_token;
  refresh_token = t.refresh_token;
  token_type = t.token_type;
  expiry = t.expiry;
  extra = [];
}

abbrev pub from_oauth2_token : OauthToken → Token
from_oauth2_token t = record {
  access_token = t.access_token;
  refresh_token = t.refresh_token;
  token_type = t.token_type;
  expiry = t.expiry;
}

-- The calls on the file system, the clock, the terminal, the random source and the token endpoint, over
-- the state `W` of all of them.
pub record AuthSystem (W : Type 0) : Type 0 where
  pub read_file : W → Text → Result Error Text
  pub mkdir_all : W → Text → W × Option Error
  pub write_file : W → Text → Text → W × Option Error
  pub rename : W → Text → Text → W × Option Error
  pub remove : W → Text → W × Option Error
  pub marshal : Token → Result Error Text
  pub unmarshal : Text → Result Error Token
  pub is_valid : W → OauthToken → Bool
  pub refresh : W → OauthToken → W × Result Error OauthToken
  pub random_state : W → W × Result Error Text
  pub auth_code_url : Text → Text
  pub print : W → Text → W
  pub scan : W → W × Result Error Text
  pub exchange : W → Text → W × Result Error OauthToken

-- The token path of `NewAuthenticator`, from what `os.UserConfigDir` returns.
unfoldable pub new_token_path : Result Error Text → Text → Text
unfolding join_all
new_token_path config_dir path =
    if path == []
    then elim config_dir [
      | ok d ↦ join_all (d ∷ codes "syncrules" ∷ codes "gdrive-token.json" ∷ [])
      | err _ ↦ codes "gdrive-token.json"
    ]
    else path

abbrev pub temp_path : Text → Text
temp_path path = path ++ codes ".tmp"

module _ {W : Type 0} (system : AuthSystem W) (path : Text) where
  unfoldable pub load_token : W → Result Error OauthToken
  load_token w = elim (system.read_file w path) [
    | err e ↦ err e
    | ok bytes ↦ elim (system.unmarshal bytes) [
      | err e ↦ err (wrapped (codes "invalid token file") e)
      | ok token ↦ ok (to_oauth2_token token)
    ]
  ]

  -- `saveToken` from the temporary file on.
  pub save_data : W → Text → W × Option Error
  save_data w bytes =
      let (w1, failed) = system.write_file w (temp_path path) bytes in
      elim failed [
        | some e ↦ (w1, some (wrapped (codes "failed to write temp token file") e))
        | none ↦
            let (w2, not_renamed) = system.rename w1 (temp_path path) path in
            elim not_renamed [
              | none ↦ (w2, none)
              | some e ↦ (
                (system.remove w2 (temp_path path)).0,
                some (wrapped (codes "failed to rename token file") e),
              )
            ]
      ]

  unfoldable pub save_token : W → OauthToken → W × Option Error
  unfolding save_data dir
  save_token w token =
      let (w1, failed) = system.mkdir_all w (dir path) in
      elim failed [
        | some e ↦ (w1, some e)
        | none ↦ elim (system.marshal (from_oauth2_token token)) [
          | err e ↦ (w1, some e)
          | ok bytes ↦ save_data w1 bytes
        ]
      ]

  -- A token that has just been got is saved, and is returned if that succeeds.
  pub keep : Text → W × Result Error OauthToken → Text → W × Result Error OauthToken
  unfolding save_token
  keep not_got (w, err e) not_saved = (w, err (wrapped not_got e))
  keep not_got (w, ok token) not_saved =
      let (w1, failed) = save_token w token in
      elim failed [ some e ↦ (w1, err (wrapped not_saved e)) | none ↦ (w1, ok token) ]

  unfoldable pub refresh_token : W → OauthToken → W × Result Error OauthToken
  unfolding keep
  refresh_token w token =
      keep (codes "failed to refresh token") (system.refresh w token)
        (codes "failed to save refreshed token")

  abbrev expired : Error
  expired = other_error (codes "token expired and refresh failed")

  unfoldable pub get_client : W → W × Result Error OauthToken
  unfolding load_token refresh_token
  get_client w = elim (load_token w) [
    | err _ ↦ (w, err (other_error (codes "no token found")))
    | ok token ↦
        let (w1, refreshed) = refresh_token w token in
        if system.is_valid w token
        then (w, ok token)
        else if token.refresh_token == []
        then (w, err expired)
        else elim refreshed [ ok fresh ↦ (w1, ok fresh) | err _ ↦ (w1, err expired) ]
  ]

  -- `Authenticate` from the reading of the code on.
  pub enter_code : W → W × Result Error OauthToken
  unfolding keep
  enter_code w =
      let (w1, entered) = system.scan w in
      elim entered [
        | err e ↦ (w1, err (wrapped (codes "failed to read authorization code") e))
        | ok code ↦
            keep (codes "failed to exchange code for token") (system.exchange w1 code)
              (codes "failed to save token")
      ]

  unfoldable pub authenticate : W → W × Result Error OauthToken
  unfolding enter_code
  authenticate w =
      let (w1, random) = system.random_state w in
      elim random [
        | err e ↦ (w1, err (wrapped (codes "failed to generate state") e))
        | ok state ↦
            let (w2, result) = enter_code (system.print w1 (system.auth_code_url state)) in
            elim result [
              | err e ↦ (w2, err e)
              | ok token ↦
                  (system.print w2 (codes "Authentication successful! Token saved."), ok token)
            ]
      ]
