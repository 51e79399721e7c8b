-- ===== src/Requests/Kept.antt =====
-- A request keeps the sessions bounded, whatever its route.
use renku_gateway.Prelude.{Option, none, some, List, [], ◌∷◌, not_found, other, ◌≡◌, refl, lift}
use renku_gateway.Sessions.Context.{Action}
use renku_gateway.Prelude.Keeps.{Any, chain, return, fail, lifted}
use renku_gateway.Sessions.Keeps.{Ensures, aside, IsKept}
use renku_gateway.Sessions.Store.Kept.{middleware-kept}
use renku_gateway.Login.{get_gitlab_logout}
use renku_gateway.Login.Kept.{
  IsLoginBackend, get_login-kept, get_callback-kept, get_gitlab_token-kept,
}
use renku_gateway.Login.Logout.{get_user_profile}
use renku_gateway.Login.Logout.Kept.{get_logout-kept}
use renku_gateway.Login.Setup.{Handler}
use renku_gateway.Revproxy.Auth.{Auth}
use renku_gateway.Revproxy.Auth.Kept.{IsAuth, auth_middleware-kept}
use renku_gateway.Revproxy.Middlewares.Kept.{ensure_session-kept, notebooks_anonymous_id-kept}
use renku_gateway.Revproxy.Routes.{
  Step, common, renku_access_token, notebooks_renku_refresh_token, data_gitlab_access_token,
}
use renku_gateway.Revproxy.Routes
use renku_gateway.Gateway.Middlewares.Kept.{sentry_header_injector-kept}
use renku_gateway.Requests.{
  Gateway, Query, Target, login_route, proxied, common_middlewares, answered, handle, with_auth,
  run_step, run, serve,
}

-- The parts of a gateway keep sessions bounded: its login server, the three authentications, and
-- the packages, which hand on to the next handler or answer by themselves.
pub record IsGateway {B U : Type 0} (g : Gateway B U) (Stored : B → Type 0) : Type 0 where
  pub login : IsLoginBackend g.login Stored
  pub access_auth : IsAuth Stored g.auths.renku_access_token_auth
  pub refresh_auth : IsAuth Stored g.auths.notebooks_renku_refresh_token_auth
  pub gitlab_auth : (a : Auth B) → g.auths.data_gitlab_access_token_auth ≡ some a → IsAuth Stored a
  pub logs :
      (next : Action B (Unit {0}))
      → Ensures Stored next Any
      → Ensures Stored (g.request_logger next) Any
  pub hands_on :
      (step : Step) (next : Action B (Unit {0}))
      → Ensures Stored next Any
      → Ensures Stored (g.packages step next) Any

module _ {B U : Type 0} (Stored : B → Type 0) (g : Gateway B U) (keeps : IsGateway g Stored) where
  open g use {login, auths}
  open keeps use {logs, hands_on}

  common_middlewares-kept :
      (next : Action B (Unit {0}))
      → Ensures Stored next Any
      → Ensures Stored (common_middlewares g next) Any
  unfolding common_middlewares
  common_middlewares-kept next kept =
      sentry_header_injector-kept g.hub_of Stored _
        (logs _ (middleware-kept Stored login.sessions keeps.login.sessions next kept))

  answered-kept :
      {A : Type 0} (m : Action B A) → Ensures Stored m Any → Ensures Stored (answered g m) Any
  answered-kept m kept = chain (IsKept Stored) m _ kept λ a _. return (IsKept Stored) tt tt

  handle-kept : (h : Handler) (q : Query) → Ensures Stored (handle g h q) Any
  unfolding handle get_gitlab_logout
  handle-kept Handler.get_login q =
      answered-kept _ (get_login-kept Stored login keeps.login q.redirect_url q.provider_ids)
  handle-kept Handler.get_callback q =
      answered-kept _ (get_callback-kept Stored login keeps.login q.state)
  handle-kept Handler.get_logout q =
      answered-kept _ (get_logout-kept Stored login keeps.login g.urls g.logout q.redirect_url)
  handle-kept Handler.get_user_profile q =
      answered-kept (lift (get_user_profile g.urls login.provider_store g.issuer_of))
        (lifted (IsKept Stored) _ (λ a e. tt))
  handle-kept Handler.get_gitlab_token q =
      answered-kept _ (get_gitlab_token-kept Stored login keeps.login)
  handle-kept Handler.get_gitlab_logout q = aside Stored _ (λ c. (refl, refl))

  with_auth-kept :
      (a : Option (Auth B)) (next : Action B (Unit {0}))
      → auths.data_gitlab_access_token_auth ≡ a
      → Ensures Stored next Any
      → Ensures Stored (with_auth g a next) Any
  with_auth-kept none next e kept =
      fail (IsKept Stored) (other "invalid memory address or nil pointer dereference")
  with_auth-kept (some a) next e kept =
      auth_middleware-kept Stored a (keeps.gitlab_auth a e) next kept

  run_step-kept :
      (step : Step) (next : Action B (Unit {0}))
      → Ensures Stored next Any
      → Ensures Stored (run_step g step next) Any
  unfolding run_step
  run_step-kept common next kept = common_middlewares-kept next kept
  run_step-kept renku_access_token next kept =
      auth_middleware-kept Stored _ keeps.access_auth next kept
  run_step-kept notebooks_renku_refresh_token next kept =
      auth_middleware-kept Stored _ keeps.refresh_auth next kept
  run_step-kept data_gitlab_access_token next kept =
      with_auth-kept auths.data_gitlab_access_token_auth next refl kept
  run_step-kept Routes.notebooks_anonymous_id next kept =
      notebooks_anonymous_id-kept Stored login.sessions keeps.login.sessions next kept
  run_step-kept Routes.ensure_session next kept =
      ensure_session-kept Stored login.sessions keeps.login.sessions next kept
  run_step-kept step next kept = hands_on step next kept

  run-kept : (steps : List Step) → Ensures Stored (run g steps) Any
  unfolding run
  run-kept [] = fail (IsKept Stored) not_found
  run-kept (step ∷ steps) = run_step-kept step (run g steps) (run-kept steps)

  pub serve-kept : (target : Target) (q : Query) → Ensures Stored (serve g target q) Any
  unfolding serve
  serve-kept (login_route h) q = common_middlewares-kept (handle g h q) (handle-kept h q)
  serve-kept (proxied steps) q = run-kept steps
