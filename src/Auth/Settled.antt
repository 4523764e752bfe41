-- ===== src/Auth/Settled.antt =====
-- internal/adapter/gdrive/auth.go: the token file after each operation.
use mathlib.Core.Path.{subst}
use syncrules.Prelude.{
  Text, length, length-append, Bool, true, Option, none, some, [], ok, err, Result, ◌≡◌, ◌≢◌, ◌⊎◌,
  inl, inr, refl, ap, sym, ◌∙◌, arith, Option-cases, Result-cases, Bool-cases, ◌==◌, text_eq,
}
use syncrules.Paths.{dir}
use syncrules.Domain.{Error}
use syncrules.Auth.{
  Token, OauthToken, AuthSystem, to_oauth2_token, from_oauth2_token, temp_path, load_token,
  save_data, save_token, keep, refresh_token, get_client, enter_code, authenticate,
}

-- What is documented of the calls: the bytes of the file at a path, if there is one. Only the calls on
-- the file system change them; a rename that fails has not changed the file at the new name. A token
-- that the endpoint returns has texts in UTF-8, which `json.Unmarshal` reads back as they were.
pub record Laws {W : Type 0} (system : AuthSystem W) : Type 0 where
  pub contents : W → Text → Option Text
  pub is_utf8 : Token → Bool
  pub read_law :
      (w : W) (p : Text) (bytes : Text)
      → system.read_file w p ≡ ok bytes
      → contents w p ≡ some bytes
  pub mkdir_law : (w : W) (p q : Text) → contents (system.mkdir_all w p).0 q ≡ contents w q
  pub write_law :
      (w : W) (p bytes : Text)
      → ((system.write_file w p bytes).1 ≡ none
          → contents (system.write_file w p bytes).0 p ≡ some bytes)
        × ((q : Text) → q ≢ p → contents (system.write_file w p bytes).0 q ≡ contents w q)
  pub rename_law :
      (w : W) (p p' : Text)
      → ((system.rename w p p').1 ≡ none → contents (system.rename w p p').0 p' ≡ contents w p)
        × ((system.rename w p p').1 ≢ none → contents (system.rename w p p').0 p' ≡ contents w p')
  pub remove_law : (w : W) (p q : Text) → q ≢ p → contents (system.remove w p).0 q ≡ contents w q
  pub marshal_law :
      (t : Token) (bytes : Text)
      → is_utf8 t ≡ true
      → system.marshal t ≡ ok bytes
      → system.unmarshal bytes ≡ ok t
  pub refresh_law :
      (w : W) (t fresh : OauthToken)
      → (system.refresh w t).1 ≡ ok fresh
      → is_utf8 (from_oauth2_token fresh) ≡ true
  pub exchange_law :
      (w : W) (code : Text) (t : OauthToken)
      → (system.exchange w code).1 ≡ ok t
      → is_utf8 (from_oauth2_token t) ≡ true
  pub refresh_files :
      (w : W) (t : OauthToken) (q : Text) → contents (system.refresh w t).0 q ≡ contents w q
  pub exchange_files :
      (w : W) (code q : Text) → contents (system.exchange w code).0 q ≡ contents w q
  pub random_files : (w : W) (q : Text) → contents (system.random_state w).0 q ≡ contents w q
  pub print_files : (w : W) (text q : Text) → contents (system.print w text) q ≡ contents w q
  pub scan_files : (w : W) (q : Text) → contents (system.scan w).0 q ≡ contents w q

path-ne-temp_path : (path : Text) → path ≢ temp_path path
path-ne-temp_path path e = absurd (omega (arith, ap length e, length-append path (temp_path [])))

module _ {W : Type 0} (system : AuthSystem W) (laws : Laws system) (path : Text) where
  -- The token file holds the token.
  abbrev pub Stored : W → OauthToken → Type 0
  Stored w t =
      (bytes : Text) × (laws.contents w path ≡ some bytes)
      × (system.unmarshal bytes ≡ ok (from_oauth2_token t))

  abbrev pub Kept : W → W → Type 0
  Kept w w' = laws.contents w' path ≡ laws.contents w path

  -- The operation returns the token that the file now holds, or an error, and the file is as it was.
  abbrev pub Settled : W → W × Result Error OauthToken → Type 0
  Settled w (w', r) =
      ((t : OauthToken) × (r ≡ ok t) × Stored w' t) ⊎ ((e : Error) × (r ≡ err e) × Kept w w')

  -- The same of an operation that saves the given token.
  abbrev Saved : W → W × Option Error → OauthToken → Type 0
  Saved w (w', failed) t =
      ((failed ≡ none) × Stored w' t) ⊎ ((e : Error) × (failed ≡ some e) × Kept w w')

  save_data-Saved :
      (w : W) (t : OauthToken) (bytes : Text)
      → system.unmarshal bytes ≡ ok (from_oauth2_token t)
      → Saved w (save_data system path w bytes) t
  unfolding save_data
  save_data-Saved w t bytes h =
      let temp = temp_path path in
      let written = system.write_file w temp bytes in
      let (filled, writes) = laws.write_law w temp bytes in
      let renamed = system.rename written.0 temp path in
      let (moved, kept) = laws.rename_law written.0 temp path in
      let apart = path-ne-temp_path path in
      elim (Option-cases written.1) [
        | inr (x, e) ↦ rw (e, save_data) (inr (_, refl, writes path apart))
        | inl e ↦ elim (Option-cases renamed.1) [
          | inl f ↦ rw (e, f, save_data) (inl (refl, (bytes, moved f ∙ filled e, h)))
          | inr (x, f) ↦
              rw (e, f, save_data)
                (inr (
                  _,
                  refl,
                  laws.remove_law renamed.0 temp path apart
                      ∙ kept (λ z. ground arith)
                      ∙ writes path apart,
                ))
        ]
      ]

  save_token-Saved :
      (w : W) (t : OauthToken)
      → laws.is_utf8 (from_oauth2_token t) ≡ true
      → Saved w (save_token system path w t) t
  unfolding save_token
  save_token-Saved w t u =
      let made = system.mkdir_all w (dir path) in
      let makes = laws.mkdir_law w (dir path) path in
      elim (Option-cases made.1) [
        | inr (x, e) ↦ rw (e, save_token) (inr (x, refl, makes))
        | inl e ↦ elim (Result-cases (system.marshal (from_oauth2_token t))) [
          | inr (x, f) ↦ rw (e, f, save_token) (inr (x, refl, makes))
          | inl (bytes, f) ↦
              elim (save_data-Saved made.0 t bytes
                (laws.marshal_law (from_oauth2_token t) bytes u f)) [
                  | inl h ↦ rw (e, f, save_token) (inl h)
                  | inr (x, g, h) ↦ rw (e, f, save_token) (inr (x, g, h ∙ makes))
                ]
        ]
      ]

  keep-Settled :
      (w : W) (not_got not_saved : Text) (got : W × Result Error OauthToken)
      → ((t : OauthToken) → got.1 ≡ ok t → laws.is_utf8 (from_oauth2_token t) ≡ true)
      → Kept w got.0
      → Settled w (keep system path not_got got not_saved)
  unfolding keep
  keep-Settled w not_got not_saved (w', err e) u k = inr (_, refl, k)
  keep-Settled w not_got not_saved (w', ok t) u k = elim (save_token-Saved w' t (u t refl)) [
    | inl (e, h) ↦ rw (keep, e) (inl (t, refl, h))
    | inr (x, e, h) ↦ rw (keep, e) (inr (_, refl, h ∙ k))
  ]

  load_token-Stored : (w : W) (t : OauthToken) → load_token system path w ≡ ok t → Stored w t
  unfolding load_token
  load_token-Stored w t h = elim (Result-cases (system.read_file w path)) [
    | inr (x, e) ↦ ground arith
    | inl (bytes, e) ↦ elim (Result-cases (system.unmarshal bytes)) [
      | inr (x, f) ↦ ground arith
      | inl (token, f) ↦ (bytes, laws.read_law w path bytes e, ground arith)
    ]
  ]

  refresh_token-Settled : (w : W) (t : OauthToken) → Settled w (refresh_token system path w t)
  unfolding refresh_token
  refresh_token-Settled w t =
      keep-Settled w _ _ (system.refresh w t) (λ fresh e. laws.refresh_law w t fresh e)
        (laws.refresh_files w t path)

  -- GetClient returns a token that the token file holds then, or it returns an error and the token file
  -- is as it was.
  pub get_client-Settled : (w : W) → Settled w (get_client system path w)
  unfolding get_client
  get_client-Settled w = elim (Result-cases (load_token system path w)) [
    | inr (x, e) ↦ rw (e, get_client) (inr (_, refl, refl))
    | inl (t, e) ↦ elim (Bool-cases (system.is_valid w t)) [
      | inl v ↦ rw (e, get_client, v) (inl (t, refl, load_token-Stored w t e))
      | inr v ↦ elim (Bool-cases (t.refresh_token == [])) [
        | inl n ↦ rw (e, get_client, v, n) (inr (_, refl, refl))
        | inr n ↦ elim (refresh_token-Settled w t) [
          | inl (fresh, f, h) ↦ rw (e, get_client, v, n, f) (inl (fresh, refl, h))
          | inr (x, f, h) ↦ rw (e, get_client, v, n, f) (inr (_, refl, h))
        ]
      ]
    ]
  ]

  enter_code-Settled : (w : W) → Settled w (enter_code system path w)
  unfolding enter_code
  enter_code-Settled w = elim (Result-cases (system.scan w).1) [
    | inr (x, e) ↦ rw (enter_code, e) (inr (_, refl, laws.scan_files w path))
    | inl (code, e) ↦
        let w1 = (system.scan w).0 in
        rw (enter_code, e)
          (keep-Settled w _ _ (system.exchange w1 code) (λ t f. laws.exchange_law w1 code t f)
            (laws.exchange_files w1 code path ∙ laws.scan_files w path))
  ]

  -- Authenticate returns a token that the token file holds then, or it returns an error and the token
  -- file is as it was.
  pub authenticate-Settled : (w : W) → Settled w (authenticate system path w)
  unfolding authenticate
  authenticate-Settled w = elim (Result-cases (system.random_state w).1) [
    | inr (x, e) ↦ rw (authenticate, e) (inr (_, refl, laws.random_files w path))
    | inl (state, e) ↦
        let w1 = system.print (system.random_state w).0 (system.auth_code_url state) in
        let unchanged =
          laws.print_files (system.random_state w).0 (system.auth_code_url state) path
          ∙ laws.random_files w path in
        elim (enter_code-Settled w1) [
          | inr (x, f, h) ↦ rw (authenticate, e, f) (inr (_, refl, h ∙ unchanged))
          | inl (t, f, (bytes, h, k)) ↦
              rw (authenticate, e, f)
                (inl
                  (t, refl, (bytes, laws.print_files (enter_code system path w1).0 _ path ∙ h, k)))
        ]
  ]

  -- What Authenticate has saved is what GetClient returns next, but for what the file does not keep,
  -- where the file can be read and the token is still valid.
  pub authenticate-get_client :
      (w w' : W) (t : OauthToken) (text : Text)
      → authenticate system path w ≡ (w', ok t)
      → system.read_file w' path ≡ ok text
      → system.is_valid w' (to_oauth2_token (from_oauth2_token t)) ≡ true
      → get_client system path w' ≡ (w', ok (to_oauth2_token (from_oauth2_token t)))
  unfolding get_client load_token
  authenticate-get_client w w' t text e read valid =
      elim (subst (Settled w) e (authenticate-Settled w)) [
        | inr (x, f, _) ↦ ground arith
        | inl (t', f, (bytes, held, h)) ↦
            let same : text ≡ bytes = ground (arith, laws.read_law w' path text read) in
            let kept : t ≡ t' = ground (arith, f) in
            let reads : system.unmarshal text ≡ ok (from_oauth2_token t) =
              ap system.unmarshal same
              ∙ h
              ∙ ap (λ (x : OauthToken). ok (from_oauth2_token x)) (sym kept) in
            let reloaded : load_token system path w' ≡ ok (to_oauth2_token (from_oauth2_token t)) =
              rw (load_token, read, reads) refl in
            rw (get_client, reloaded, valid) refl
      ]
