-- ===== src/Login.antt =====
-- login/login_server_routes.go
pub mod Steps
pub mod Kept
pub mod Callback
pub mod Progress
pub mod Logout
pub mod Setup
use renku_gateway.Prelude.{
  ℕ, String, str_eq, ◌+++◌, not, Bool, true, false, ◌||◌, ◌&&◌, ℤ, Dict, lookup, List, [], ◌∷◌,
  Option, none, some, Result, ok, err, Error, other, Exec, pure, raise, lift, gets, attempt, ◌>>=◌,
  ◌>>◌, if◌then◌else◌,
}
use renku_gateway.Models.Token.{AuthToken}
use renku_gateway.Models.TokenSet.{AuthTokenSet}
use renku_gateway.Models.Session.{Session}
use renku_gateway.Sessions.Context.{Context, Action, backend_op, read, write}
use renku_gateway.Sessions.Store.{SessionStore, TokenStoreInterface, get, create, save, delete}
use renku_gateway.Sessions.Tokens.{get_id_token, save_tokens}
use renku_gateway.Oidc.{OidcClient, Tokens, code_exchange_callback}
use renku_gateway.Oidc.Store.{ClientStore, find_client}

-- The part of the configuration that the routes read; `providers` gives each provider's issuer.
pub record LoginConfig : Type 0 where
  pub renku_base_url : String
  pub enable_internal_gitlab : Bool
  pub providers : Dict String

-- What a route has answered; `handled` is what a handler of the OIDC library has
-- written, and then a redirect of echo is not sent any more. `token_json` has the instant of the expiry, of which the route writes the Unix seconds.
pub data LoginAnswer : Type 0 where
  handled : LoginAnswer
  redirected : String → LoginAnswer
  unauthorized : LoginAnswer
  no_content_404 : LoginAnswer
  token_json : String → ℤ → LoginAnswer
  gitlab_logout_page : String → LoginAnswer

-- `generate_state` is `randomStateGenerator`. The handlers of the OIDC library, wrapped for echo:
-- `auth_url_handler` redirects to the provider with a state, and `code_exchange_handler` exchanges
-- the code of the request and calls the callback. `http_error` is http.Error with status 500.
-- `is_committed` is `Committed` of echo's response, in which case `c.Redirect` only logs a warning.
pub record LoginServer (B : Type 0) : Type 0 where
  pub config : LoginConfig
  pub sessions : SessionStore B
  pub provider_store : ClientStore (Context B)
  pub token_store : TokenStoreInterface B
  pub user_logged_in : Option (String → Exec B (Unit {0}))
  pub generate_state : Exec B String
  pub auth_url_handler : String → OidcClient (Context B) → Action B (Unit {0})
  pub code_exchange_handler :
      (Tokens → Action B (Unit {0})) → OidcClient (Context B) → Action B (Unit {0})
  pub http_error : Error → Action B (Unit {0})
  pub is_committed : Context B → Bool

-- login/login_server_constants.go
abbrev pub default_login_sequence : List String
default_login_sequence = "renku" ∷ "gitlab" ∷ []

abbrev pub v2_only_login_sequence : List String
v2_only_login_sequence = "renku" ∷ []

-- A parameter of the query, nil or not, with its default.
abbrev pub or_default : Option String → String → String
or_default none default = default
or_default (some s) default = if str_eq s "" then default else s

abbrev pub with_id : String → AuthTokenSet → AuthTokenSet
with_id id tokens = record {
  access_token = record tokens.access_token { id = id };
  refresh_token = record tokens.refresh_token { id = id };
  id_token = record tokens.id_token { id = id };
}

-- The session and the tokens before `SaveTokens`, in the callback of a code exchange.
unfoldable pub logged_in : String → AuthTokenSet → Session → Session
logged_in provider_id tokens session =
    if str_eq provider_id "renku"
    then record session { login_state = ""; user_id = tokens.id_token.subject }
    else record session { login_state = "" }

unfoldable pub named_tokens : String → AuthTokenSet → Session → AuthTokenSet
named_tokens provider_id tokens session =
    if str_eq provider_id "renku"
    then if str_eq session.user_id "" then tokens else with_id ("renku:" +++ session.user_id) tokens
    else if str_eq provider_id "gitlab" && not (str_eq session.user_id "")
    then with_id ("gitlab:" +++ session.user_id) tokens
    else tokens

module _ {B : Type 0} (l : LoginServer B) where
  open l use {config, sessions, provider_store}

  unfoldable pub get_login_sequence : List String
  get_login_sequence =
      if config.enable_internal_gitlab then default_login_sequence else v2_only_login_sequence

  abbrev report_user : Option (String → Exec B (Unit {0})) → Result ℕ → Action B (Unit {0})
  report_user (some user_logged_in) (ok p) = do
    session ← read p
    attempt (backend_op (user_logged_in session.user_id))
    pure tt
  report_user _ _ = pure tt

  abbrev send_metrics : Option (String → Exec B (Unit {0})) → Action B (Unit {0})
  send_metrics none = pure tt
  send_metrics (some m) = do found ← attempt (get sessions); report_user (some m) found

  -- An error of `Save` is dropped by both branches, and one of `UserLoggedIn` too.
  abbrev finish_login : ℕ → Action B LoginAnswer
  finish_login p = do
    session ← read p
    let url =
        if str_eq session.login_redirect_url ""
        then config.renku_base_url
        else session.login_redirect_url
    write p (record session { login_redirect_url = "" })
    attempt (save sessions)
    send_metrics l.user_logged_in
    committed ← gets l.is_committed
    pure (if committed then handled else redirected url)

  abbrev start_login : ℕ → String → Action B LoginAnswer
  start_login p provider_id = do
    state ← backend_op l.generate_state
    session ← read p
    write p (record session { login_state = state })
    client ← lift (find_client provider_store provider_id)
    attempt (save sessions)
    l.auth_url_handler state client
    pure handled

  abbrev next_step : ℕ → List String → Action B LoginAnswer
  next_step p [] = finish_login p
  next_step p (provider_id ∷ rest) = start_login p provider_id

  unfoldable pub next_auth_step : ℕ → Action B LoginAnswer
  next_auth_step p = do session ← read p; next_step p session.login_sequence

  abbrev requested : Option (List String) → List String
  requested none = get_login_sequence
  requested (some []) = get_login_sequence
  requested (some (p ∷ ps)) = p ∷ ps

  -- The two parameters of the query are `redirect_url` and `provider_id`.
  unfoldable pub get_login : Option String → Option (List String) → Action B LoginAnswer
  unfolding get_login_sequence next_auth_step
  get_login redirect_url provider_ids = do
    p ← create sessions
    session ← read p
    write p (record session {
      login_redirect_url = or_default redirect_url config.renku_base_url;
      login_sequence = requested provider_ids;
    })
    next_auth_step p

  unfoldable pub token_callback : ℕ → String → AuthTokenSet → Action B (Unit {0})
  unfolding logged_in named_tokens
  token_callback p provider_id tokens = do
    session ← read p
    write p (logged_in provider_id tokens session)
    save_tokens sessions p (named_tokens provider_id tokens (logged_in provider_id tokens session))

  abbrev callback_step : ℕ → List String → Action B LoginAnswer
  callback_step p [] = raise (other "login sequence is invalid")
  callback_step p (provider_id ∷ rest) = do
    session ← read p
    write p (record session { login_sequence = rest })
    client ← lift (find_client provider_store provider_id)
    l.code_exchange_handler
        (code_exchange_callback client l.http_error (token_callback p provider_id)) client
    next_auth_step p

  -- `state` is the parameter of the query, "" where there is none.
  unfoldable pub get_callback : String → Action B LoginAnswer
  unfolding token_callback next_auth_step
  get_callback state =
      if str_eq state "" then raise (other "a state parameter is required") else (do
        p ← get sessions
        session ← read p
        (if not (str_eq state session.login_state)
            then raise (other "state cannot be found in the existing session")
            else callback_step p session.login_sequence))

  abbrev user_of : Result ℕ → Action B String
  user_of (err e) = pure ""
  user_of (ok p) = do session ← read p; pure session.user_id

  unfoldable pub get_gitlab_token : Action B LoginAnswer
  get_gitlab_token = do
    found ← attempt (get sessions)
    user_id ← user_of found
    (if str_eq user_id "" then pure unauthorized else (do
      token ← backend_op (l.token_store.get_fresh_access_token ("gitlab:" +++ user_id))
      pure (token_json token.value token.expires_at)))

  abbrev logout_of : Option String → LoginAnswer
  logout_of none = no_content_404
  logout_of (some issuer) = gitlab_logout_page (issuer +++ "/users/sign_out")

  unfoldable pub get_gitlab_logout : Action B LoginAnswer
  get_gitlab_logout = pure (logout_of (lookup "gitlab" config.providers))
