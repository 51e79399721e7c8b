-- ===== src/Requests.antt =====
-- The requests that the gateway serves, from the common middlewares to the handlers: the routes of
-- login/login_server.go and of revproxy/main.go behind the middlewares of cmd/gateway.
pub mod Kept
pub mod Lifetime
use renku_gateway.Prelude.{
  ℕ, String, pos, Dict, Option, none, some, List, [], ◌∷◌, ◌++◌, Result, other, not_found, Exec,
  pure, raise, lift, ◌>>=◌, ◌>>◌,
}
use renku_gateway.Sessions.Context.{Context, Action, zero_session}
use renku_gateway.Sessions.Store.{SessionStore, middleware}
use renku_gateway.Login.{LoginServer, get_login, get_callback, get_gitlab_token, get_gitlab_logout}
use renku_gateway.Login.Logout.{Urls, LogoutConfig, get_logout, get_user_profile}
use renku_gateway.Login.Setup.{Handler}
use renku_gateway.Login.Setup
use renku_gateway.Revproxy.Auth.{Auth, auth_middleware}
use renku_gateway.Revproxy.Middlewares.{ensure_session, notebooks_anonymous_id}
use renku_gateway.Revproxy.Routes.{
  Step, Auths, common, renku_access_token, notebooks_renku_refresh_token, data_gitlab_access_token,
}
use renku_gateway.Revproxy.Routes
use renku_gateway.Gateway.Middlewares.{Hub, sentry_header_injector}

-- `packages` has the middlewares and handlers that touch no session: echo's rewrites, proxies and
-- its handler for 404, the host of a request, and the redirects. `request_logger` is echo's.
pub record Gateway (B U : Type 0) : Type 0 where
  pub login : LoginServer B
  pub urls : Urls U
  pub logout : LogoutConfig U
  pub issuer_of : String → String
  pub auths : Auths B
  pub hub_of : Context B → Option Hub
  pub request_logger : Action B (Unit {0}) → Action B (Unit {0})
  pub packages : Step → Action B (Unit {0}) → Action B (Unit {0})

-- The query of a request, as far as the routes of the login read it.
pub record Query : Type 0 where
  pub redirect_url : Option String
  pub provider_ids : Option (List String)
  pub state : String

pub data Target : Type 0 where
  login_route : Handler → Target
  proxied : List Step → Target

module _ {B U : Type 0} (g : Gateway B U) where
  open g use {login, auths}

  -- `commonMiddlewares`, with the middleware of the session store appended.
  unfoldable pub common_middlewares : Action B (Unit {0}) → Action B (Unit {0})
  common_middlewares next =
      sentry_header_injector g.hub_of (g.request_logger (middleware login.sessions next))

  abbrev answered : {A : Type 0} → Action B A → Action B (Unit {0})
  answered m = do m; pure tt

  unfoldable pub handle : Handler → Query → Action B (Unit {0})
  handle Handler.get_login q = answered (get_login login q.redirect_url q.provider_ids)
  handle Handler.get_callback q = answered (get_callback login q.state)
  handle Handler.get_logout q = answered (get_logout g.urls g.logout login q.redirect_url)
  handle Handler.get_user_profile q =
      answered (lift (get_user_profile g.urls login.provider_store g.issuer_of))
  handle Handler.get_gitlab_token q = answered (get_gitlab_token login)
  handle Handler.get_gitlab_logout q = answered (get_gitlab_logout login)

  -- The zero value of `Auth` has no session store, so that its middleware panics.
  abbrev with_auth : Option (Auth B) → Action B (Unit {0}) → Action B (Unit {0})
  with_auth none next = raise (other "invalid memory address or nil pointer dereference")
  with_auth (some a) next = auth_middleware a next

  unfoldable pub run_step : Step → Action B (Unit {0}) → Action B (Unit {0})
  unfolding common_middlewares
  run_step common next = common_middlewares next
  run_step renku_access_token next = auth_middleware auths.renku_access_token_auth next
  run_step notebooks_renku_refresh_token next =
      auth_middleware auths.notebooks_renku_refresh_token_auth next
  run_step data_gitlab_access_token next = with_auth auths.data_gitlab_access_token_auth next
  run_step Routes.notebooks_anonymous_id next = notebooks_anonymous_id login.sessions next
  run_step Routes.ensure_session next = ensure_session login.sessions next
  run_step step next = g.packages step next

  -- A group has echo's handler for 404 behind its middlewares.
  unfoldable pub run : List Step → Action B (Unit {0})
  run [] = raise not_found
  run (step ∷ steps) = run_step step (run steps)

  unfoldable pub serve : Target → Query → Action B (Unit {0})
  unfolding handle run run_step common_middlewares
  serve (login_route h) q = common_middlewares (handle h q)
  serve (proxied steps) q = run steps

-- A request as it arrives, with its headers and its cookie.
abbrev pub new_request : {B : Type 0} → B → Dict String → Result String → Context B
new_request b headers cookie = record {
  backend = b;
  heap = λ p. zero_session;
  next_ref = 0;
  store = [];
  headers = headers;
  cookie = cookie;
  set_cookies = [];
}

-- What the backend may be after any number of requests, one after the other, with `between` for what
-- happens to it between them.
pub data Served {B U : Type 0} (g : Gateway B U) (between : B → B → Type 0) (start : B)
    : B → Type 0 where
  none_yet : Served g between start start
  then_request :
      {b : B}
      → Served g between start b
      → (target : Target) (q : Query) (headers : Dict String) (cookie : Result String)
      → Served g between start (serve g target q (new_request b headers cookie)).1.backend
  then_change : {b b' : B} → Served g between start b → between b b' → Served g between start b'
