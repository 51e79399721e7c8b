-- ===== src/Gateway/Start.antt =====
-- How `main` makes the parts of the gateway from the configuration (cmd/gateway/main.go).
pub mod Servers
pub mod Wired
use renku_gateway.Prelude.{
  ℕ, String, ℤ, pos, ◌≡◌, ◌≢◌, ◌⊎◌, inl, inr, refl, sym, ap, ◌∙◌, arith, true, false, Option, none,
  some, List, [], ◌∷◌, Result, ok, err, is_ok, Error, other, Exec, pure, lift, ◌>>=◌, ◌>>◌,
  >>=-eq-ok, if◌then◌else◌,
}
use renku_gateway.Models.Token.{AuthToken}
use renku_gateway.Models.TokenSet.{AuthTokenSet}
use renku_gateway.Authentication.{
  Authenticator, Checks, Discovery, TokenVerifier, new_token_verifier, verify_access_token,
}
use renku_gateway.Authentication as Authenticators
use renku_gateway.Config.{Config, Url, SessionConfig, GitlabRedirectsConfig, development, validate}
use renku_gateway.Config.Keys.{KeysValid}
use renku_gateway.Db.Adapter.{Drivers, World}
use renku_gateway.Db.SessionRepo.{get_session, set_session, remove_session}
use renku_gateway.Db.TokenRepo.{RedisAdapter}
use renku_gateway.Gateway.Database.{start_database, start_database-IsEncrypted, IsEncrypted}
use renku_gateway.Login.{LoginServer}
use renku_gateway.Login.Setup as LoginSetup
use renku_gateway.Oidc.{RelyingParty}
use renku_gateway.Oidc.Setup.{RpConfig, new_client_store}
use renku_gateway.Oidc.Store.{ClientStore}
use renku_gateway.Oidc.Store as ClientStores
use renku_gateway.Redirects.{RedirectStore}
use renku_gateway.Redirects.Setup as RedirectSetup
use renku_gateway.Revproxy.Auth.{Formats}
use renku_gateway.Revproxy.Routes.{Auths, new_server}
use renku_gateway.Sessions.Context.{Context}
use renku_gateway.Sessions.Setup.{new_session_store, main_options}
use renku_gateway.Sessions.Setup as SessionSetup
use renku_gateway.Sessions.Store.{SessionStore, SessionRepository, TokenStoreInterface}
use renku_gateway.TokenStore.{
  TokenStore, new_token_store, get_fresh_access_token, get_fresh_id_token, Options,
}
use renku_gateway.TokenStore.Redis.{redis_repository}

-- The packages that the constructors call.
pub record Packages (R K : Type 0) : Type 0 where
  pub drivers : Drivers R
  pub now : World R → ℤ × World R
  pub checks : Checks (World R) K
  pub discovery : Discovery (World R) K
  pub relying_party : RpConfig → Exec (World R) (RelyingParty (World R))
  pub login_relying_party : RpConfig → Exec (World R) (RelyingParty (Context (World R)))
  pub session_packages : SessionSetup.Packages (World R)
  pub redirect_packages : RedirectSetup.Packages (World R)
  pub formats : Formats
  pub login_packages : LoginServer (World R)
  pub url_text : Option Url → String

-- The parts of a gateway that runs.
pub record Gateway (R K : Type 0) : Type 0 where
  pub adapter : RedisAdapter (World R)
  pub tokens : TokenStore (World R)
  pub authenticator : Authenticator K
  pub sessions : SessionStore (World R)
  pub redirects : Option (RedirectStore (World R))
  pub auths : Auths (World R)
  pub login : LoginServer (World R)

-- The token store as the session store and the login server use it: its setters and `GetRefreshToken` are
-- those of the repository.
unfoldable pub token_store_interface : {W : Type 0} → TokenStore W → TokenStoreInterface W
token_store_interface ts = record {
  get_fresh_access_token = get_fresh_access_token ts;
  set_access_token = ts.token_repo.set_access_token;
  get_refresh_token = ts.token_repo.get_refresh_token;
  set_refresh_token = ts.token_repo.set_refresh_token;
  get_fresh_id_token = get_fresh_id_token ts;
  set_id_token = ts.token_repo.set_id_token;
}

-- The adapter as the session store uses it.
unfoldable pub session_repository : {W : Type 0} → RedisAdapter W → SessionRepository W
session_repository r = record {
  get_session = get_session r;
  set_session = set_session r;
  remove_session = remove_session r;
}

-- Three minutes, in nanoseconds
abbrev pub expiry_margin : ℤ
expiry_margin = pos 180000000000

module _ {R K : Type 0} (p : Packages R K) where
  -- A panic ends the program as an error does.
  abbrev pub or_panic : {A : Type 0} → Option (Result A) → Result A
  or_panic none = err (other "panic: index out of range")
  or_panic (some r) = r

  -- NewTokenStore with the options WithExpiryMargin, WithConfig and WithTokenRepository
  unfoldable pub start_tokens :
      Config → RedisAdapter (World R) → Exec (World R) (TokenStore (World R))
  start_tokens c adapter = do
    clients ← new_client_store p.relying_party c.login.providers
    lift (
        new_token_store p.now (record {
          expiry_margin = expiry_margin;
          provider_store = some (ClientStores.refresh_access_token clients);
          token_repo = some (redis_repository adapter);
        }))

  unfoldable pub start_authenticator : Config → Exec (World R) (Authenticator K)
  start_authenticator c =
      Authenticators.with_config (new_token_verifier p.discovery) c.sessions.authorization_verifiers
        []

  abbrev pub subject : Authenticator K → String → Exec (World R) String
  subject a token = do claims ← verify_access_token p.checks a token; pure claims.subject

  unfoldable pub start_sessions :
      Config
      → RedisAdapter (World R)
      → TokenStore (World R)
      → Authenticator K
      → Result (SessionStore (World R))
  unfolding token_store_interface session_repository
  start_sessions c adapter tokens authenticator = new_session_store p.session_packages (
      main_options p.session_packages (subject authenticator) (session_repository adapter)
        (token_store_interface tokens) c.sessions)

  abbrev pub with_metrics :
      Option (String → Exec (World R) (Unit {0}))
      → List (LoginSetup.LoginServerOption (World R) (World R))
  with_metrics none = []
  with_metrics (some m) = LoginSetup.with_metrics_client m ∷ []

  -- NewLoginServer; the metrics client is none where it is not enabled.
  unfoldable pub start_login :
      Config
      → SessionStore (World R)
      → TokenStore (World R)
      → Option (String → Exec (World R) (Unit {0}))
      → Exec (World R) (LoginServer (World R))
  unfolding token_store_interface
  start_login c sessions tokens metrics = LoginSetup.new_login_server p.login_packages p.url_text (
      LoginSetup.with_config p.login_relying_party c.login
      ∷ LoginSetup.with_session_store sessions
      ∷ LoginSetup.with_token_store (token_store_interface tokens)
      ∷ with_metrics metrics)

  abbrev pub Metrics : Type 0
  Metrics = Result (Option (String → Exec (World R) (Unit {0})))

  -- The constructors in the order of `main`, which exits at the first error: the second half.
  -- `metrics` is the answer of NewPosthogClient.
  unfoldable pub start_servers :
      Metrics
      → Config
      → RedisAdapter (World R)
      → TokenStore (World R)
      → Authenticator K
      → SessionStore (World R)
      → Exec (World R) (Gateway R K)
  unfolding start_login
  start_servers metrics c adapter tokens authenticator sessions = do
    redirects ← lift (RedirectSetup.new_redirect_store p.redirect_packages c.redirects)
    auths ← lift (new_server p.formats (some c.revproxy.enable_internal_gitlab) (some sessions))
    client ← lift metrics
    login ← start_login c sessions tokens client
    pure (record {
      adapter = adapter;
      tokens = tokens;
      authenticator = authenticator;
      sessions = sessions;
      redirects = redirects;
      auths = auths;
      login = login;
    })

  unfoldable pub start_stores :
      Metrics → Config → RedisAdapter (World R) → Exec (World R) (Gateway R K)
  unfolding start_tokens start_authenticator start_sessions start_servers
  start_stores metrics c adapter = do
    tokens ← start_tokens c adapter
    authenticator ← start_authenticator c
    sessions ← lift (start_sessions c adapter tokens authenticator)
    start_servers metrics c adapter tokens authenticator sessions

  unfoldable pub start : Metrics → Config → Exec (World R) (Gateway R K)
  unfolding start_stores
  start metrics c = do
    adapter ← lift (or_panic (start_database p.drivers c))
    start_stores metrics c adapter
