-- ===== src/Revproxy/Auth.antt =====
-- revproxy/auth.go
pub mod Injected
pub mod Kept
use renku_gateway.Prelude.{
  ℕ, String, str_eq, ◌+++◌, ℤ, is_zero, Bool, true, false, not, ◌&&◌, Dict, Option, none, some,
  Result, ok, err, other, Exec, pure, raise, lift, attempt, ◌>>=◌, ◌>>◌, if◌then◌else◌,
}
use renku_gateway.Models.Token.{
  AuthToken, OauthTokenType, access_token_type, refresh_token_type, id_token_type, unknown_type,
}
use renku_gateway.Models.Session.{Session}
use renku_gateway.Sessions.Context.{Context, Action, read, header_get, header_set}
use renku_gateway.Sessions.Store.{SessionStore, get}
use renku_gateway.Sessions.Tokens.{get_access_token, get_refresh_token, get_id_token}

pub record IdTokenClaims : Type 0 where
  pub subject : String
  pub email : String
  pub name : String

-- The functions of the standard library and of the OIDC library that the injectors call: `unix` is
-- the text of `Time.Unix`, `base_url` parses a URL and prints it without path, query and fragment,
-- `git_credentials` is the JSON of the notebooks' header, `basic` the header of `SetBasicAuth`.
pub record Formats : Type 0 where
  pub unix_text : ℤ → String
  pub base_url : String → Result String
  pub git_credentials : String → String → Option ℤ → Result String
  pub base64 : String → String
  pub basic : String → String → String
  pub parse_id_token : String → Result IdTokenClaims

abbrev pub TokenInjector : Type 0 → Type 0
TokenInjector B = AuthToken → Action B (Unit {0})

-- An access token without an expiry date is written with -1.
abbrev expiry_of : AuthToken → Option ℤ
expiry_of token = if is_zero token.expires_at then none else some token.expires_at

module _ {B : Type 0} where
  unfoldable pub inject_in_header : String → TokenInjector B
  inject_in_header header_key token = do
    existing_token ← header_get header_key
    (if not (str_eq existing_token "") then pure tt else header_set header_key token.value)

  unfoldable pub inject_bearer_token : TokenInjector B
  inject_bearer_token token = do
    existing_token ← header_get "Authorization"
    (if not (str_eq existing_token "")
        then pure tt
        else header_set "Authorization" ("Bearer " +++ token.value))

  unfoldable pub notebooks_gitlab_access_token_injector : Formats → TokenInjector B
  notebooks_gitlab_access_token_injector f access_token = do
    existing_token ← header_get "Renku-Auth-Git-Credentials"
    (if not (str_eq existing_token "") then pure tt else (do
      issuer_url ← lift (f.base_url access_token.token_url)
      output_json ←
          lift (
            f.git_credentials issuer_url ("Bearer " +++ access_token.value)
              (expiry_of access_token))
      header_set "Renku-Auth-Git-Credentials" (f.base64 output_json)))

  unfoldable pub core_svc_renku_id_token_injector : Formats → TokenInjector B
  core_svc_renku_id_token_injector f id_token = do
    existing_token ← header_get "Renku-User"
    (if not (str_eq existing_token "") then pure tt else (do
      claims ← lift (f.parse_id_token id_token.value)
      header_set "Renku-User" id_token.value
      header_set "Renku-User-Id" claims.subject
      header_set "Renku-User-Email" (f.base64 claims.email)
      header_set "Renku-User-Fullname" (f.base64 claims.name)))

  unfoldable pub gitlab_cli_token_injector : Formats → TokenInjector B
  gitlab_cli_token_injector f access_token =
      if str_eq access_token.value ""
      then pure tt
      else header_set "Authorization" (f.basic "oauth2" access_token.value)

  unfoldable pub data_service_gitlab_access_token_injector : Formats → TokenInjector B
  data_service_gitlab_access_token_injector f access_token = do
    existing_token ← header_get "Gitlab-Access-Token"
    (if not (str_eq existing_token "") then pure tt else (do
      header_set "Gitlab-Access-Token" access_token.value
      (if is_zero access_token.expires_at
          then pure tt
          else header_set "Gitlab-Access-Token-Expires-At" (f.unix_text access_token.expires_at))))

pub record Auth (B : Type 0) : Type 0 where
  pub sessions : SessionStore B
  pub token_injector : AuthToken → Action B (Unit {0})
  pub provider_id : String
  pub token_type : OauthTokenType

-- What the options of `NewAuth` have set; the provider and the type have defaults.
pub record AuthOptions (B : Type 0) : Type 0 where
  pub sessions : Option (SessionStore B)
  pub token_injector : Option (AuthToken → Action B (Unit {0}))
  pub provider_id : String
  pub token_type : OauthTokenType

abbrev is_known_type : OauthTokenType → Bool
is_known_type (unknown_type s) = false
is_known_type _ = true

abbrev initialized :
    {B : Type 0}
    → Option (SessionStore B)
    → Option (AuthToken → Action B (Unit {0}))
    → String
    → OauthTokenType
    → Result (Auth B)
initialized none injector provider_id kind = err (other "session store not initialized")
initialized (some s) none provider_id kind = err (other "token injector not initialized")
initialized (some s) (some i) provider_id kind =
    if not (is_known_type kind)
    then err (other "unknown token type in authentication middleware")
    else ok
        (record { sessions = s; token_injector = i; provider_id = provider_id; token_type = kind })

unfoldable pub new_auth : {B : Type 0} → AuthOptions B → Result (Auth B)
new_auth o = initialized o.sessions o.token_injector o.provider_id o.token_type

module _ {B : Type 0} (a : Auth B) where
  -- Which getter the middleware calls; `none` for a type that it does not know.
  abbrev getter : OauthTokenType → Option (Session → String → Action B AuthToken)
  getter access_token_type = some (get_access_token a.sessions)
  getter refresh_token_type = some (get_refresh_token a.sessions)
  getter id_token_type = some (get_id_token a.sessions)
  getter (unknown_type s) = none

  abbrev inject : Result AuthToken → Action B (Unit {0}) → Action B (Unit {0})
  inject (err e) next = next
  inject (ok token) next = a.token_injector token >> next

  abbrev with_getter :
      Option (Session → String → Action B AuthToken) → ℕ → Action B (Unit {0}) → Action B (Unit {0})
  with_getter none p next = raise (other "unknown token type in authentication middleware")
  with_getter (some get_token) p next = do
    session ← read p
    token ← attempt (get_token session a.provider_id)
    inject token next

  abbrev with_session : Result ℕ → Action B (Unit {0}) → Action B (Unit {0})
  with_session (err e) next = next
  with_session (ok p) next = with_getter (getter a.token_type) p next

  -- A token that cannot be loaded never stops the request.
  unfoldable pub auth_middleware : Action B (Unit {0}) → Action B (Unit {0})
  auth_middleware next = do session ← attempt (get a.sessions); with_session session next
