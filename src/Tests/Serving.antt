-- ===== src/Tests/Serving.antt =====
-- A gateway over a repository of sessions in memory, and requests for it (cmd/gateway, login,
-- revproxy).
use renku_gateway.Prelude.{
  String, str_eq, ℤ, pos, ◌+ℤ◌, ◌<ℤ◌, wrap64, Dict, lookup, insert, lookup-insert, remove,
  lookup-remove, true, false, Bool-cases, Option, none, some, List, [], ◌∷◌, Result, ok, err, Error,
  other, no_cookie, session_not_found, session_expired, ◌≡◌, ◌≢◌, ◌⊎◌, inl, inr, refl, arith, Exec,
  if◌then◌else◌, ◌||◌,
}
use renku_gateway.Models.Session.{Session, max_ttl, seconds}
use renku_gateway.Sessions.Context.{Context, zero_session}
use renku_gateway.Sessions.Keeps.{IsBounded, aside}
use renku_gateway.Sessions.Store.{
  SessionStore, TokenStoreInterface, default_cookie, get, middleware,
}
use renku_gateway.Oidc.{OidcClient}
use renku_gateway.Oidc.Store.{find_client}
use renku_gateway.Login.{LoginServer}
use renku_gateway.Login.Kept.{IsLoginBackend}
use renku_gateway.Revproxy.Auth.{Auth, inject_bearer_token, inject_in_header}
use renku_gateway.Revproxy.Auth.Kept.{inject_bearer_token-kept, inject_in_header-kept}
use renku_gateway.Revproxy.Routes.{common, renku_access_token, proxy, renku_base}
use renku_gateway.Models.Token.{access_token_type, refresh_token_type}
use renku_gateway.Gateway.Middlewares.{
  Hub, break_repeated, sentry_header_injector, is_sentry, sent,
  sentry_header_injector-break_repeated,
}
use renku_gateway.Requests.{
  Gateway, Query, proxied, serve, run, run_step, common_middlewares, new_request, none_yet,
  then_request,
}
use renku_gateway.Requests.Kept.{IsGateway}
use renku_gateway.Requests.Lifetime.{get-Served}
use renku_gateway.Tests.Logins.{urls, logout_config}
use renku_gateway.Tests.Repository.{Kept, Stored, store, tokens, same_state, store-IsBackend}

abbrev server : LoginServer Kept
server = record {
  config = record {
    renku_base_url = "https://renku";
    enable_internal_gitlab = false;
    providers = [];
  };
  sessions = store;
  provider_store = [];
  token_store = tokens;
  user_logged_in = none;
  generate_state = λ w. (ok "st", w);
  auth_url_handler = λ state client c. (ok tt, c);
  code_exchange_handler = λ callback client c. (ok tt, c);
  http_error = λ e c. (ok tt, c);
  is_committed = λ c. false;
}

-- No provider is known.
no_client : (id : String) (c : OidcClient (Context Kept)) → find_client [] id ≡ ok c → ⊥
unfolding find_client lookup
no_client id c e = cc e

server-IsLoginBackend : IsLoginBackend server Stored
server-IsLoginBackend = record {
  sessions = store-IsBackend;
  states = same_state _ (λ w. refl);
  reports = λ m user_id e. absurd (cc e);
  gets_access = λ id. same_state _ (λ w. refl);
  redirects = λ state client. aside Stored _ (λ c. (refl, refl));
  exchanges = λ callback client kept. aside Stored _ (λ c. (refl, refl));
  errors = λ e. aside Stored _ (λ c. (refl, refl));
  ids = λ id client e. absurd (no_client id client e);
}

abbrev access_auth : Auth Kept
access_auth = record {
  sessions = store;
  token_injector = inject_bearer_token;
  provider_id = "renku";
  token_type = access_token_type;
}

abbrev refresh_auth : Auth Kept
refresh_auth = record {
  sessions = store;
  token_injector = inject_in_header "Renku-Auth-Refresh-Token";
  provider_id = "renku";
  token_type = refresh_token_type;
}

abbrev gateway : Gateway Kept String
gateway = record {
  login = server;
  urls = urls;
  logout = logout_config;
  issuer_of = λ id. "https://issuer";
  auths = record {
    renku_access_token_auth = access_auth;
    notebooks_renku_refresh_token_auth = refresh_auth;
    data_gitlab_access_token_auth = none;
  };
  hub_of = λ c. none;
  request_logger = λ next. next;
  packages = λ step next c. (ok tt, c);
}

gateway-IsGateway : IsGateway gateway Stored
gateway-IsGateway = record {
  login = server-IsLoginBackend;
  access_auth = record { sessions = store-IsBackend; injects = inject_bearer_token-kept Stored };
  refresh_auth = record {
    sessions = store-IsBackend;
    injects = inject_in_header-kept Stored "Renku-Auth-Refresh-Token";
  };
  gitlab_auth = λ a e. absurd (cc e);
  logs = λ next kept. kept;
  hands_on = λ step next kept. aside Stored _ (λ c. (refl, refl));
}

-- A session of a login three seconds ago, with a maximum TTL of two.
abbrev old : Session
old = record zero_session {
  id = "s1";
  created_at = pos 1000000000;
  expires_at = pos 2000000000;
  idle_ttl_seconds = pos 1;
  max_ttl_seconds = pos 2;
}

abbrev start : Kept
start = record { sessions = ("s1", old) ∷ [] }

old-IsBounded : IsBounded old
unfolding max_ttl ◌+ℤ◌ seconds wrap64
old-IsBounded = inr (omega arith, omega arith, omega arith, omega arith, omega arith, omega arith)

start-Stored : Stored start
unfolding lookup
start-Stored id s e = elim (Bool-cases (str_eq "s1" id)) [
  | inl same ↦
      let is_old : some old ≡ some s = rw same at e in
      let same_session : old ≡ s = cc is_old in rw (← same_session) old-IsBounded
  | inr differ ↦ let missing : none ≡ some s = rw differ at e in absurd (cc missing)
]

abbrev query : Query
query = record { redirect_url = none; provider_ids = none; state = "" }

abbrev NoChange : Kept → Kept → Type 0
NoChange w w' = ⊥

-- A proxied request without a session, then one with the cookie of the old session.
get-Served_example :
    let b =
      (serve gateway
        (proxied (common ∷ renku_access_token ∷ proxy renku_base ∷ []))
        query
        (new_request start [] (err no_cookie))).1.backend in
    get store (new_request b [] (ok "s1")) ≡ (err session_expired, new_request b [] (ok "s1"))
unfolding serve run run_step common_middlewares lookup middleware get max_ttl ◌+ℤ◌ seconds wrap64
    sentry_header_injector renku_gateway.Prelude.trim_prefix renku_gateway.Sessions.Store.save
    renku_gateway.Revproxy.Auth.auth_middleware
get-Served_example =
    let target = proxied (common ∷ renku_access_token ∷ proxy renku_base ∷ []) in
    let b = (serve gateway target query (new_request start [] (err no_cookie))).1.backend in
    get-Served Stored gateway gateway-IsGateway NoChange (λ w w' e. absurd e) start b b b [] "s1"
      "s1" old (pos 4000000000) start-Stored (then_request none_yet target query [] (err no_cookie))
      refl (λ e. cc e) refl (λ e. cc e) refl (ground arith)

abbrev repeated : Context Kept
repeated =
    new_request start (("Renku-Repeated-Request", "true") ∷ ("Sentry-Trace", "t1") ∷ [])
      (err no_cookie)

abbrev hub : Hub
hub = record { traceparent = "t2"; baggage = "" }

abbrev hub_of : Context Kept → Option Hub
hub_of c = some hub

sentry_headers_example :
    (d : Context Kept) × ((next : Exec (Context Kept) (Unit {0}))
      → break_repeated (sentry_header_injector hub_of next) repeated ≡ next d)
    × ((key : String)
        → lookup key d.headers ≡ (
            if is_sentry key
            then sent (some hub) true repeated.headers key
            else lookup key repeated.headers))
unfolding lookup
sentry_headers_example = sentry_header_injector-break_repeated hub_of repeated
