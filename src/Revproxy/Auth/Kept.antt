-- ===== src/Revproxy/Auth/Kept.antt =====
-- The injection of tokens keeps sessions bounded (revproxy/auth.go).
use renku_gateway.Prelude.{
  ℕ, String, str_eq, not, is_zero, some, Result, ok, err, other, refl, attempt, ◌+++◌,
}
use renku_gateway.Models.Token.{
  AuthToken, OauthTokenType, access_token_type, refresh_token_type, id_token_type, unknown_type,
}
use renku_gateway.Models.Session.{Session}
use renku_gateway.Sessions.Context.{Action, read, header_get, header_set}
use renku_gateway.Prelude.Keeps.{Any, chain, return, fail, either, tried}
use renku_gateway.Sessions.Keeps.{IsBackend, Ensures, aside, reads, IsKept}
use renku_gateway.Sessions.Store.{get}
use renku_gateway.Sessions.Store.Kept.{get-kept}
use renku_gateway.Sessions.Tokens.{get_access_token, get_refresh_token, get_id_token}
use renku_gateway.Sessions.Tokens.Kept.{
  get_access_token-kept, get_refresh_token-kept, get_id_token-kept,
}
use renku_gateway.Revproxy.Auth.{
  Auth, Formats, inject_in_header, inject_bearer_token, data_service_gitlab_access_token_injector,
  auth_middleware, inject, with_getter, getter, with_session,
}

module _ {B : Type 0} (Stored : B → Type 0) where
  abbrev pub Handler : Type 0
  Handler = Action B (Unit {0})

  pub inject_in_header-kept :
      (key : String) (t : AuthToken) → Ensures Stored (inject_in_header key t) Any
  unfolding inject_in_header
  inject_in_header-kept key t =
      chain (IsKept Stored) (header_get key) _ (aside Stored _ (λ c. (refl, refl))) λ h _.
        either (IsKept Stored) (not (str_eq h "")) _ _ (return (IsKept Stored) tt tt)
          (aside Stored (header_set key t.value) (λ c. (refl, refl)))

  pub inject_bearer_token-kept : (t : AuthToken) → Ensures Stored (inject_bearer_token t) Any
  unfolding inject_bearer_token
  inject_bearer_token-kept t =
      chain (IsKept Stored) (header_get "Authorization") _ (aside Stored _ (λ c. (refl, refl)))
        λ h _.
          either (IsKept Stored) (not (str_eq h "")) _ _ (return (IsKept Stored) tt tt)
            (aside Stored (header_set "Authorization" ("Bearer " +++ t.value)) (λ c. (refl, refl)))

  pub data_service_gitlab_access_token_injector-kept :
      (f : Formats) (t : AuthToken)
      → Ensures Stored (data_service_gitlab_access_token_injector f t) Any
  unfolding data_service_gitlab_access_token_injector
  data_service_gitlab_access_token_injector-kept f t =
      chain (IsKept Stored) (header_get "Gitlab-Access-Token") _
        (aside Stored _ (λ c. (refl, refl)))
        λ h _. either (IsKept Stored) (not (str_eq h "")) _ _ (return (IsKept Stored) tt tt) (
          chain (IsKept Stored) (header_set "Gitlab-Access-Token" t.value) _
            (aside Stored _ (λ c. (refl, refl)))
            λ _ _.
              either (IsKept Stored) (is_zero t.expires_at) _ _ (return (IsKept Stored) tt tt) (
                aside Stored
                  (header_set "Gitlab-Access-Token-Expires-At" (f.unix_text t.expires_at))
                  (λ c. (refl, refl))))

  -- An injection middleware over a kept session store, with an injector that keeps sessions.
  pub record IsAuth (a : Auth B) : Type 0 where
    pub sessions : IsBackend a.sessions Stored
    pub injects : (t : AuthToken) → Ensures Stored (a.token_injector t) Any

  module _ (a : Auth B) (keeps : IsAuth a) (next : Handler)
      (goes_on : Ensures Stored next Any) where
    with_token-kept : (r : Result AuthToken) → Ensures Stored (inject a r next) Any
    with_token-kept (err e) = goes_on
    with_token-kept (ok t) =
        chain (IsKept Stored) (a.token_injector t) _ (keeps.injects t) λ _ _. goes_on

    loaded-kept :
        (get_token : Session → String → Action B AuthToken) (p : ℕ)
        → ((s : Session) → Ensures Stored (get_token s a.provider_id) Any)
        → Ensures Stored (with_getter a (some get_token) p next) Any
    loaded-kept get_token p kept = chain (IsKept Stored) (read p) _ (reads Stored p) λ s _.
        chain (IsKept Stored) (attempt (get_token s a.provider_id)) _
          (tried (IsKept Stored) _ (kept s)) λ t _. with_token-kept t

    by_type-kept :
        (type : OauthTokenType) (p : ℕ) → Ensures Stored (with_getter a (getter a type) p next) Any
    by_type-kept access_token_type p =
        loaded-kept (get_access_token a.sessions) p
          λ s. get_access_token-kept Stored a.sessions keeps.sessions s a.provider_id
    by_type-kept refresh_token_type p =
        loaded-kept (get_refresh_token a.sessions) p
          λ s. get_refresh_token-kept Stored a.sessions keeps.sessions s a.provider_id
    by_type-kept id_token_type p =
        loaded-kept (get_id_token a.sessions) p
          λ s. get_id_token-kept Stored a.sessions keeps.sessions s a.provider_id
    by_type-kept (unknown_type s) p =
        fail (IsKept Stored) (other "unknown token type in authentication middleware")

    with_session-kept : (r : Result ℕ) → Ensures Stored (with_session a r next) Any
    with_session-kept (err e) = goes_on
    with_session-kept (ok p) = by_type-kept a.token_type p

    pub auth_middleware-kept : Ensures Stored (auth_middleware a next) Any
    unfolding auth_middleware
    auth_middleware-kept =
        chain (IsKept Stored) (attempt (get a.sessions)) _
          (tried (IsKept Stored) _ (get-kept Stored a.sessions keeps.sessions))
          λ r _. with_session-kept r
