-- ===== src/Config.antt =====
-- internal/config: the configuration, its validation, and the defaults that the loader sets.
pub mod Accepted
pub mod Keys
pub mod Loader
pub mod Redacted
use renku_gateway.Prelude.{
  ℕ, ◌*◌, String, str_eq, ◌+++◌, ◌==◌, ℤ, pos, ltb_ℤ, leb_ℤ, Bool, true, false, not, ◌&&◌, ◌||◌,
  Dict, remove, Option, none, some, is_some, List, [], ◌∷◌, Result, ok, err, other, if◌then◌else◌,
}
use Prim.Native.String.{len}

-- config/main.go; a Go string, of which only these two values are told apart from the others.
pub data RunningEnvironment : Type 0 where
  development production : RunningEnvironment
  unknown : String → RunningEnvironment

abbrev pub is_development : RunningEnvironment → Bool
is_development development = true
is_development _ = false

-- url.URL as the configuration uses it.
pub record Url : Type 0 where
  pub scheme : String
  pub host : String
  pub path : String

-- config/session.go
pub record AuthorizationVerifier : Type 0 where
  pub issuer : String
  pub audience : String
  pub authorized_party : String

pub record SessionConfig : Type 0 where
  pub idle_session_ttl_seconds : ℤ
  pub max_session_ttl_seconds : ℤ
  pub authorization_verifiers : List AuthorizationVerifier
  pub cookie_encoding_key : String
  pub cookie_hash_key : String
  pub unsafe_no_cookie_handler : Bool

unfoldable pub validate_sessions : RunningEnvironment → SessionConfig → Result (Unit {0})
validate_sessions e c =
    if leb_ℤ c.idle_session_ttl_seconds (pos 0)
    then err (other "idle session TTL seconds needs to be greater than 0")
    else if ltb_ℤ (pos 0) c.max_session_ttl_seconds
        && ltb_ℤ c.max_session_ttl_seconds c.idle_session_ttl_seconds
    then err (other "max session TTL seconds cannot be less than idle session TTL seconds")
    else if not (is_development e) && c.unsafe_no_cookie_handler
    then err (other "a cookie handler needs to be configured in production")
    else ok tt

-- config/login.go
pub record OidcClient : Type 0 where
  pub issuer : String
  pub client_id : String
  pub client_secret : String
  pub scopes : List String
  pub callback_uri : String
  pub use_pkce : Bool
  pub cookie_encoding_key : String
  pub cookie_hash_key : String
  pub unsafe_no_cookie_handler : Bool

pub record LoginConfig : Type 0 where
  pub enable_internal_gitlab : Bool
  pub renku_base_url : Option Url
  pub login_routes_base_path : String
  pub token_encryption_enabled : Bool
  pub token_encryption_secret_key : String
  pub providers : Dict OidcClient
  pub old_gitlab_logout : Bool
  pub logout_gitlab_upon_renku_logout : Bool

-- The loop over the providers; Go's order of iteration is not fixed, the list's is.
unfoldable pub check_providers : Dict OidcClient → Result (Unit {0})
check_providers [] = ok tt
check_providers ((k, v) ∷ more) =
    if not (str_eq k "renku") && not (str_eq k "gitlab")
    then err (other "unknown provider id")
    else if v.unsafe_no_cookie_handler
    then err (other "provider cannot be configured without a cookie handler in production")
    else check_providers more

-- The map of providers is shared, so deleting from it changes the caller's configuration.
unfoldable pub without_gitlab : LoginConfig → LoginConfig
without_gitlab c =
    if not c.enable_internal_gitlab then record c { providers = remove "gitlab" c.providers } else c

abbrev check_base_url : Option Url → Result (Unit {0}) → Result (Unit {0})
check_base_url url (err e) = err e
check_base_url none (ok u) = err (other "the renkuBaseURL cannot be null or ''")
check_base_url (some url) (ok u) = ok tt

abbrev check_login : RunningEnvironment → LoginConfig → Result (Unit {0})
check_login e c =
    if c.token_encryption_enabled && not (len c.token_encryption_secret_key == 32)
    then err (other "token encryption key has to be 32 bytes long")
    else check_base_url c.renku_base_url
        (if is_development e then ok tt else check_providers c.providers)

unfoldable pub validate_login : RunningEnvironment → LoginConfig → Result (Unit {0}) × LoginConfig
unfolding check_providers without_gitlab
validate_login e c = (check_login e (without_gitlab c), without_gitlab c)

-- config/revproxy.go
pub record RevproxyConfig : Type 0 where
  pub enable_internal_gitlab : Bool
  pub renku_base_url : Option Url
  pub data_service : Option Url
  pub keycloak : Option Url
  pub ui_server : Option Url

unfoldable pub validate_revproxy : RevproxyConfig → Result (Unit {0})
validate_revproxy r =
    if not (is_some r.data_service)
    then err (other "the proxy config is missing the url to the data service")
    else if not (is_some r.keycloak)
    then err (other "the proxy config is missing the url to keycloak")
    else if not (is_some r.ui_server)
    then err (other "the proxy config is missing the url to ui-server")
    else if not (is_some r.renku_base_url)
    then err (other "the renkuBaseURL cannot be null or ''")
    else ok tt

-- config/redis.go
pub record RedisConfig : Type 0 where
  pub type : String
  pub addresses : List String
  pub is_sentinel : Bool
  pub password : String
  pub master_name : String
  pub db_index : ℤ

unfoldable pub validate_redis : RunningEnvironment → RedisConfig → Result (Unit {0})
validate_redis e c =
    if not (is_development e) && str_eq c.type "redis-mock"
    then err (other "redis type cannot be \"redis-mock\" in production")
    else ok tt

-- config/redirects.go
pub record GitlabRedirectsConfig : Type 0 where
  pub enabled : Bool
  pub renku_base_url : Option Url
  pub redirected_host : String
  pub entry_ttl_seconds : ℤ

unfoldable pub validate_redirects :
    GitlabRedirectsConfig → Result (Unit {0}) × GitlabRedirectsConfig
validate_redirects r =
    if r.enabled && not (is_some r.renku_base_url)
    then (
      err (other "the redirects store is enabled but the config is missing the base url for Renku"),
      r,
    )
    else (
      ok tt,
      (if leb_ℤ r.entry_ttl_seconds (pos 0)
          then record r { entry_ttl_seconds = pos (60 * 5) }
          else r),
    )

-- config/other.go; the sample rate, a float, is left out.
pub record PosthogConfig : Type 0 where
  pub enabled : Bool
  pub api_key : String
  pub host : String
  pub environment : String

pub record SentryConfig : Type 0 where
  pub enabled : Bool
  pub dsn : String
  pub environment : String

-- config/main.go; the fields that nothing here reads are left out.
pub record Config : Type 0 where
  pub running_environment : RunningEnvironment
  pub sessions : SessionConfig
  pub redirects : GitlabRedirectsConfig
  pub revproxy : RevproxyConfig
  pub login : LoginConfig
  pub redis : RedisConfig
  pub posthog : PosthogConfig
  pub sentry : SentryConfig

abbrev then_check : Result (Unit {0}) → Result (Unit {0}) → Result (Unit {0})
then_check (err e) next = err e
then_check (ok u) next = next

-- The redirects are not among the parts that are validated.
unfoldable pub validate : Config → Result (Unit {0}) × Config
validate c =
    let e = c.running_environment in
    let (login, login_config) = validate_login e c.login in
    elim (validate_sessions e c.sessions) [
      | err x ↦ (err x, c)
      | ok _ ↦ (
        then_check login (then_check (validate_revproxy c.revproxy) (validate_redis e c.redis)),
        record c { login = login_config },
      )
    ]

-- The last part of `getConfig` in config/config_handler.go: production is the default environment,
-- and the UI server's port is made explicit. `port` is `url.URL.Port`.
abbrev pub or_production : RunningEnvironment → RunningEnvironment
or_production development = development
or_production _ = production

unfoldable pub with_port : (Url → String) → Url → Url
with_port port u =
    if str_eq (port u) ""
    then (if str_eq u.scheme "http"
        then record u { host = u.host +++ ":80" }
        else if str_eq u.scheme "https"
        then record u { host = u.host +++ ":443" }
        else u)
    else u

abbrev map_url : (Url → Url) → Option Url → Option Url
map_url f none = none
map_url f (some u) = some (f u)

unfoldable pub finish_config : (Url → String) → Config → Config
unfolding with_port
finish_config port c = record c {
  running_environment = or_production c.running_environment;
  revproxy = record c.revproxy { ui_server = map_url (with_port port) c.revproxy.ui_server };
}
