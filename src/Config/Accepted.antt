-- ===== src/Config/Accepted.antt =====
-- What `Validate` accepts.
use renku_gateway.Prelude.{
  String, str_eq, eq_iff, pos, ◌<ℤ◌, ◌≤ℤ◌, true, false, Dict, lookup, none, [], ◌∷◌, ◌≡◌, ◌≢◌, ◌⊎◌,
  ◌↔◌, inl, inr, refl, sym, ap, Result, Result-cases, ok, err, arith, if◌then◌else◌, lookup-remove,
}
use Prim.Native.String.{len}
use renku_gateway.Config.{
  then_check, RunningEnvironment, development, SessionConfig, OidcClient, LoginConfig,
  RevproxyConfig, RedisConfig, Config, check_providers, check_login, without_gitlab,
  validate_sessions, validate_login, validate_revproxy, validate_redis, validate_redirects,
  validate,
}

-- A known provider, with a cookie handler.
abbrev IsKnown : String → OidcClient → Type 0
IsKnown k v = ((k ≡ "renku") ⊎ (k ≡ "gitlab")) × (v.unsafe_no_cookie_handler ≡ false)

abbrev pub AllKnown : Dict OidcClient → Type 0
AllKnown [] = Unit
AllKnown ((k, v) ∷ more) = IsKnown k v × AllKnown more

check_providers_iff : (ps : Dict OidcClient) → (check_providers ps ≡ ok tt) ↔ AllKnown ps
unfolding check_providers
check_providers_iff [] = ground arith
check_providers_iff ((k, v) ∷ more) =
    ground (arith, eq_iff k "renku", eq_iff k "gitlab", check_providers_iff more)

-- What a configuration that was accepted for production has.
pub record IsSafe (c : Config) : Type 0 where
  pub idle_positive : pos 0 <ℤ c.sessions.idle_session_ttl_seconds
  pub idle_le_max :
      (c.sessions.max_session_ttl_seconds ≤ℤ pos 0)
      ⊎ (c.sessions.idle_session_ttl_seconds ≤ℤ c.sessions.max_session_ttl_seconds)
  pub session_cookies : c.sessions.unsafe_no_cookie_handler ≡ false
  pub providers_known : AllKnown c.login.providers
  pub key_length :
      c.login.token_encryption_enabled ≡ true → len c.login.token_encryption_secret_key ≡ 32
  pub real_redis : c.redis.type ≢ "redis-mock"
  pub login_url : c.login.renku_base_url ≢ none
  pub data_service_url : c.revproxy.data_service ≢ none
  pub keycloak_url : c.revproxy.keycloak ≢ none
  pub ui_server_url : c.revproxy.ui_server ≢ none
  pub base_url : c.revproxy.renku_base_url ≢ none

-- The parts of an accepted configuration, one by one.
record IsValidated (c c' : Config) : Type 0 where
  sessions_ok : validate_sessions c.running_environment c.sessions ≡ ok tt
  login_ok : (validate_login c.running_environment c.login).0 ≡ ok tt
  revproxy_ok : validate_revproxy c.revproxy ≡ ok tt
  redis_ok : validate_redis c.running_environment c.redis ≡ ok tt
  same : c' ≡ record c { login = (validate_login c.running_environment c.login).1 }

then_check-ok : (a b : Result (Unit {0})) → then_check a b ≡ ok tt → (a ≡ ok tt) × (b ≡ ok tt)
then_check-ok (ok u) b h = (refl, h)
then_check-ok (err e) b h = cc

validate-IsValidated : (c c' : Config) → validate c ≡ (ok tt, c') → IsValidated c c'
unfolding validate
validate-IsValidated c c' e =
    elim (Result-cases (validate_sessions c.running_environment c.sessions)) [
      | inr (x, bad) ↦ absurd (ground arith)
      | inl (_, good) ↦
          let rest : (
            then_check (validate_login c.running_environment c.login).0 (
                then_check (validate_revproxy c.revproxy)
                  (validate_redis c.running_environment c.redis)),
            record c { login = (validate_login c.running_environment c.login).1 },
          )
              ≡ (ok tt, c') =
            rw (good, validate) at e in
          let (l, more) = then_check-ok _ _ (ap (λ x. x.0) rest) in
          let (r, d) = then_check-ok _ _ more in
          record {
            sessions_ok = good;
            login_ok = l;
            revproxy_ok = r;
            redis_ok = d;
            same = sym (ap (λ x. x.1) rest);
          }
    ]

module _ (e : RunningEnvironment) (prod : e ≢ development) where
  sessions-safe :
      (c : SessionConfig)
      → validate_sessions e c ≡ ok tt
      → (pos 0 <ℤ c.idle_session_ttl_seconds)
        × ((c.max_session_ttl_seconds ≤ℤ pos 0)
            ⊎ (c.idle_session_ttl_seconds ≤ℤ c.max_session_ttl_seconds))
        × (c.unsafe_no_cookie_handler ≡ false)
  unfolding validate_sessions
  sessions-safe c h = ground arith

  login-safe :
      (c : LoginConfig)
      → check_login e c ≡ ok tt
      → AllKnown c.providers
        × (c.token_encryption_enabled ≡ true → len c.token_encryption_secret_key ≡ 32)
        × (c.renku_base_url ≢ none)
  login-safe c h = ground (arith, check_providers_iff c.providers)

  redis-safe : (c : RedisConfig) → validate_redis e c ≡ ok tt → c.type ≢ "redis-mock"
  unfolding validate_redis
  redis-safe c h = ground (arith, eq_iff c.type "redis-mock")

revproxy-safe :
    (c : RevproxyConfig)
    → validate_revproxy c ≡ ok tt
    → (c.data_service ≢ none)
      × (c.keycloak ≢ none)
      × (c.ui_server ≢ none)
      × (c.renku_base_url ≢ none)
unfolding validate_revproxy
revproxy-safe c h = ground arith

-- Whatever environment the configuration names but "development", one that is accepted is safe, as
-- the caller has it afterwards.
pub validate-IsSafe :
    (c c' : Config) → c.running_environment ≢ development → validate c ≡ (ok tt, c') → IsSafe c'
unfolding validate_login
validate-IsSafe c c' prod e =
    let v = validate-IsValidated c c' e in
    let (idle, max, cookies) = sessions-safe c.running_environment prod c.sessions v.sessions_ok in
    let (known, key, url) =
      login-safe c.running_environment prod (without_gitlab c.login) v.login_ok in
    let (data_url, kc_url, ui_url, renku_url) = revproxy-safe c.revproxy v.revproxy_ok in
    rw v.same (record {
      idle_positive = idle;
      idle_le_max = max;
      session_cookies = cookies;
      providers_known = known;
      key_length = key;
      real_redis = redis-safe c.running_environment prod c.redis v.redis_ok;
      login_url = url;
      data_service_url = data_url;
      keycloak_url = kc_url;
      ui_server_url = ui_url;
      base_url = renku_url;
    })

pub validate_running_environment :
    (c c' : Config) → validate c ≡ (ok tt, c') → c'.running_environment ≡ c.running_environment
validate_running_environment c c' e =
    ap (λ x. x.running_environment) (validate-IsValidated c c' e).same

-- Without the internal GitLab the accepted configuration has no provider "gitlab", and the others
-- as they were.
pub validate-without_gitlab :
    (c c' : Config) (k : String)
    → c.login.enable_internal_gitlab ≡ false
    → validate c ≡ (ok tt, c')
    → lookup k c'.login.providers ≡ (if str_eq "gitlab" k then none else lookup k c.login.providers)
unfolding validate_login without_gitlab
validate-without_gitlab c c' k off e =
    rw ((validate-IsValidated c c' e).same, off, lookup-remove) refl

-- The default of five minutes for the redirects' time to live is never applied: what `Validate`
-- accepts keeps its redirects, also where their own `Validate` would set the default.
pub validate-redirects :
    (c c' : Config)
    → c.redirects.entry_ttl_seconds ≤ℤ pos 0
    → c.redirects.renku_base_url ≢ none
    → validate c ≡ (ok tt, c')
    → (c'.redirects ≡ c.redirects)
      × (validate_redirects c.redirects
          ≡ (ok tt, record c.redirects { entry_ttl_seconds = pos 300 }))
unfolding validate_redirects
validate-redirects c c' low url e = (rw (validate-IsValidated c c' e).same refl, ground arith)
