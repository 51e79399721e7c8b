-- ===== src/Tests/Start.antt =====
-- The gateway as `main` starts it (cmd/gateway/main.go).
use renku_gateway.Prelude.{
  String, ℕ, ℤ, pos, Bool, true, false, List, [], ◌∷◌, Option, none, some, ◌≡◌, ◌≢◌, ◌⊎◌, ◌↔◌, inl,
  inr, refl, arith, ◌==◌, Result, ok, err, other, Exec, is_ok, if◌then◌else◌,
}
use renku_gateway.Config.{Config}
use renku_gateway.Config.Keys.{KeysValid}
use renku_gateway.Db.Adapter.{Drivers, World}
use renku_gateway.Db.TokenRepo.{RedisAdapter}
use renku_gateway.Gateway.Database.{start_database}
use renku_gateway.Gateway.Database.Starts.{start_database-starts}
use renku_gateway.Gateway.Errors.{
  Errors, Shared, Steps, called, answered, captured_by, answered_by_another,
}
use renku_gateway.Gateway.Start.{Packages, Gateway, start}
use renku_gateway.Gateway.Start.Wired.{IsWired, start-IsWired}
use renku_gateway.Login.{LoginServer}
use renku_gateway.Oidc.{RelyingParty}
use renku_gateway.Oidc.Setup.{RpConfig}
use renku_gateway.Sessions.Setup as SessionSetup
use renku_gateway.Sessions.Store.{CookieHandler, SessionStore, TokenStoreInterface, default_cookie}
use renku_gateway.Tests.Proxy.{formats}
use renku_gateway.Tests.Configs.{config, accepted}
use renku_gateway.Tests.Memory.{Memory, empty_memory, client, codec, encryptor}

abbrev pub drivers : Drivers Memory
drivers = record {
  new_client = λ o. client;
  new_failover_client = λ o. client;
  new_gcm_encryptor = λ key. ok encryptor;
  codec = codec;
}

start_database-starts_example :
    (((accepted.redis.is_sentinel ≡ true) ⊎ (accepted.redis.addresses ≢ [])
      → (a : RedisAdapter (World Memory)) × (start_database drivers accepted ≡ some (ok a))))
    × (accepted.redis.is_sentinel ≡ false
        → accepted.redis.addresses ≡ []
        → start_database drivers accepted ≡ none)
unfolding renku_gateway.Config.validate renku_gateway.Config.validate_sessions
    renku_gateway.Config.validate_login renku_gateway.Prelude.remove
    renku_gateway.Config.validate_revproxy renku_gateway.Config.validate_redis
start_database-starts_example =
    start_database-starts drivers config accepted (λ e. cc e) refl refl
      (λ key long. (encryptor, refl))

-- Errors by their texts; the second request fails.
abbrev errors : Errors String
errors = record { is_not_found = λ e. false; text = λ e. e }

abbrev outcome : ℕ → Option String
outcome i = if i == 1 then some "failed" else none

abbrev idle : Shared String
idle = record { err = none; requests = λ i. called; captured = [] }

answered_by_another_example :
    ((t : Shared String) × Steps errors outcome idle t
      × (t.requests 0 ≡ answered (outcome 1))
      × (t.captured ≡ captured_by errors (outcome 1) []))
    × ((t : Shared String) × Steps errors outcome idle t × (t.requests 0 ≡ answered (outcome 0)))
answered_by_another_example = answered_by_another errors outcome idle 0 1 (λ e. cc e) refl refl

-- Packages that answer every call.
abbrev relying_party : {S : Type 0} → RpConfig → Exec (World Memory) (RelyingParty S)
relying_party c w = (
  ok (record {
    token_url = "https://renku/token";
    refresh_tokens = λ t s. (err (other "unused"), s);
    parse_token = λ t. (pos 0, none);
    verify_tokens = λ a t s. (err (other "unused"), s);
    generate_id = λ s. (ok "t1", s);
  }),
  w,
)

abbrev read_clock : World Memory → ℤ × World Memory
read_clock (m, k) = (m.clock, (m, k))

abbrev plain_cookies : CookieHandler
plain_cookies = record { encode = λ name v. ok v; decode = λ name v. ok v }

abbrev session_packages : SessionSetup.Packages (World Memory)
session_packages = record {
  new_secure_cookie = λ hash block. plain_cookies;
  random_id = λ w. (ok "s1", w);
  now = read_clock;
  basic_auth = λ header. none;
}

abbrev no_tokens : TokenStoreInterface (World Memory)
no_tokens = record {
  get_fresh_access_token = λ id w. (err (other "unused"), w);
  set_access_token = λ o w. (ok tt, w);
  get_refresh_token = λ id w. (err (other "unused"), w);
  set_refresh_token = λ o w. (ok tt, w);
  get_fresh_id_token = λ id w. (err (other "unused"), w);
  set_id_token = λ o w. (ok tt, w);
}

abbrev no_sessions : SessionStore (World Memory)
no_sessions = record {
  verify_access_token = λ t w. (err (other "unused"), w);
  cookie_template = default_cookie;
  cookie_handler = none;
  new_session = λ w. (err (other "unused"), w);
  session_repo = record {
    get_session = λ id w. (err (other "unused"), w);
    set_session = λ s w. (ok tt, w);
    remove_session = λ id w. (ok tt, w);
  };
  token_store = no_tokens;
  now = read_clock;
  basic_auth = λ header. none;
}

abbrev login_packages : LoginServer (World Memory)
login_packages = record {
  config = record { renku_base_url = ""; enable_internal_gitlab = false; providers = [] };
  sessions = no_sessions;
  provider_store = [];
  token_store = no_sessions.token_store;
  user_logged_in = none;
  generate_state = λ w. (ok "st", w);
  auth_url_handler = λ state client c. (ok tt, c);
  code_exchange_handler = λ callback client c. (ok tt, c);
  http_error = λ e c. (ok tt, c);
  is_committed = λ c. false;
}

abbrev packages : Packages Memory String
packages = record {
  drivers = drivers;
  now = read_clock;
  checks = record {
    parse_token = λ token. err (other "unused");
    check_subject = λ c. ok tt;
    check_issuer = λ c issuer. ok tt;
    check_audience = λ c audience. ok tt;
    check_authorized_party = λ c party. ok tt;
    check_signature = λ token payload c key w. (ok tt, w);
    check_expiration = λ c offset w. (ok tt, w);
  };
  discovery = record {
    discover = λ issuer w. (ok "https://renku/jwks", w);
    new_remote_key_set = λ u. u;
  };
  relying_party = relying_party;
  login_relying_party = relying_party;
  session_packages = session_packages;
  redirect_packages = record {
    query_escape = λ s. s;
    full_url = λ url s. ok s;
    http_get = λ url w. (err (other "unused"), w);
    unmarshal = λ body. err (other "unused");
    now = read_clock;
  };
  formats = formats;
  login_packages = login_packages;
  url_text = λ u. "https://renku";
}

abbrev start_world : World Memory
start_world = (empty_memory, record { store = [] })

abbrev WiredIfStarted : Result (Gateway Memory String) → Type 0
WiredIfStarted (ok g) = IsWired packages accepted g
WiredIfStarted (err e) = ⊥

start-IsWired_example : WiredIfStarted (start packages (ok none) accepted start_world).0
unfolding renku_gateway.Config.validate renku_gateway.Config.validate_sessions
    renku_gateway.Config.validate_login renku_gateway.Prelude.remove
    renku_gateway.Config.validate_revproxy renku_gateway.Config.validate_redis start start_database
    renku_gateway.Db.Adapter.new_redis_adapter renku_gateway.Db.Adapter.with_redis_config
    renku_gateway.Oidc.Setup.new_client_store renku_gateway.Oidc.Setup.new_client
    renku_gateway.Config.Keys.validate_oidc_config renku_gateway.TokenStore.new_token_store
    renku_gateway.Authentication.with_config SessionSetup.new_session_store
    SessionSetup.with_authenticator SessionSetup.with_session_repository
    SessionSetup.with_token_store SessionSetup.with_config
    renku_gateway.Config.Keys.check_session_keys renku_gateway.Redirects.Setup.new_redirect_store
    renku_gateway.Revproxy.Routes.new_server renku_gateway.Revproxy.Routes.initialize_auth
    renku_gateway.Login.Setup.new_login_server renku_gateway.Login.Setup.with_config
    renku_gateway.Login.Setup.with_session_store renku_gateway.Login.Setup.with_token_store
    renku_gateway.Revproxy.Auth.new_auth
start-IsWired_example =
    start-IsWired packages (ok none) config accepted start_world start_world _ (λ e. cc e) refl refl
