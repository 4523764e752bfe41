-- ===== src/Tests/Tokens.antt =====
-- An instance of the authentication: the files are a function, and the endpoint gives one token.
use syncrules.Prelude.{
  Text, codes, text_beq, text_eq, text_iff, true, Bool, none, some, [], ok, err, ◌≡◌, ◌==◌, refl,
  arith, Result, nat_eq, ap, sym, ◌∙◌, ◌&&◌,
}
use syncrules.Domain.{Error, not_found}
use syncrules.Auth.{
  Token, OauthToken, AuthSystem, to_oauth2_token, from_oauth2_token, get_client, authenticate,
  load_token, refresh_token, save_token,
}
use syncrules.Auth.Settled.{Laws, Settled, get_client-Settled, authenticate-get_client}
use syncrules.Tests.Adapters.{Files, put, put-same, put-other, nothing}

-- The tokens of the endpoint differ in the access token only.
abbrev token_of : Text → Token
token_of access = record {
  access_token = access;
  refresh_token = codes "again";
  token_type = [];
  expiry = 0;
}

abbrev with_id : Text → OauthToken
with_id access = record (to_oauth2_token (token_of access)) { extra = codes "id" }

from_endpoint : Token → Bool
from_endpoint t =
    text_beq t.refresh_token (codes "again") && text_beq t.token_type [] && t.expiry == 0

from_endpoint-token_of : (access : Text) → from_endpoint (token_of access) ≡ true
unfolding from_endpoint text_beq
from_endpoint-token_of access = refl

token_of-access : (t : Token) → from_endpoint t ≡ true → token_of t.access_token ≡ t
unfolding from_endpoint
token_of-access t h =
    let r : t.refresh_token ≡ codes "again" =
      ground (arith, text_iff t.refresh_token (codes "again")) in
    let k : t.token_type ≡ [] = ground (arith, text_iff t.token_type []) in
    let e : t.expiry ≡ 0 = ground arith in
    λ i. record {
      access_token = t.access_token;
      refresh_token = sym r i;
      token_type = sym k i;
      expiry = sym e i;
    }

access_written : (s s' : Text) (r : Result Error Text) → r ≡ ok s → r ≡ ok s' → s' ≡ s
access_written s s' r h k = ground arith

abbrev endpoint : AuthSystem Files
endpoint = record {
  read_file = λ w p. elim (w p) [ none ↦ err not_found | some s ↦ ok s ];
  mkdir_all = λ w p. (w, none);
  write_file = λ w p s. (put p (some s) w, none);
  rename = λ w p q. (put q (w p) (put p none w), none);
  remove = λ w p. (put p none w, none);
  marshal = λ t. ok t.access_token;
  unmarshal = λ s. ok (token_of s);
  is_valid = λ w t. text_beq t.access_token (codes "new");
  refresh = λ w t. (w, ok (with_id (codes "new")));
  random_state = λ w. (w, ok (codes "random"));
  auth_code_url = λ s. s;
  print = λ w s. w;
  scan = λ w. (w, ok (codes "new"));
  exchange = λ w code. (w, ok (with_id code));
}

abbrev endpoint-Laws : Laws endpoint
endpoint-Laws = record {
  contents = λ w p. w p;
  is_utf8 = λ t. from_endpoint t;
  read_law = λ w p s h. ground arith;
  mkdir_law = λ w p q. refl;
  write_law = λ w p s. (λ h. put-same p (some s) w, λ q h. put-other p q (some s) w h);
  rename_law = λ w p q. (λ h. put-same q (w p) (put p none w), λ h. absurd (h refl));
  remove_law = λ w p q h. put-other p q none w h;
  marshal_law = λ t s u h.
      ap (λ x. ok (token_of x)) (access_written t.access_token s (ok t.access_token) refl h)
      ∙ ap ok (token_of-access t u);
  refresh_law = λ w t fresh h. ground (arith, from_endpoint-token_of (codes "new"));
  exchange_law = λ w code t h. ground (arith, from_endpoint-token_of code);
  refresh_files = λ w t q. refl;
  exchange_files = λ w code q. refl;
  random_files = λ w q. refl;
  print_files = λ w s q. refl;
  scan_files = λ w q. refl;
}

abbrev path : Text
path = codes "token"

-- The file holds an old token.
abbrev old : Files
old = put path (some (codes "old")) nothing

old_refreshed :
    get_client endpoint path old
    ≡ ((save_token endpoint path old (with_id (codes "new"))).0, ok (with_id (codes "new")))
unfolding get_client load_token refresh_token save_token text_beq
old_refreshed = refl

get_client-Settled_example : Settled endpoint endpoint-Laws path old (get_client endpoint path old)
get_client-Settled_example = get_client-Settled endpoint endpoint-Laws path old

abbrev after : Files
after = (authenticate endpoint path nothing).0

authenticated : authenticate endpoint path nothing ≡ (after, ok (with_id (codes "new")))
unfolding authenticate save_token
authenticated = refl

readable : endpoint.read_file after path ≡ ok (codes "new")
unfolding authenticate save_token text_beq
readable = refl

valid : endpoint.is_valid after (to_oauth2_token (from_oauth2_token (with_id (codes "new")))) ≡ true
unfolding text_beq
valid = refl

authenticate-get_client_example :
    get_client endpoint path after
    ≡ (after, ok (to_oauth2_token (from_oauth2_token (with_id (codes "new")))))
authenticate-get_client_example =
    authenticate-get_client endpoint endpoint-Laws path nothing after (with_id (codes "new"))
      (codes "new") authenticated readable valid
