-- ===== src/Tests/Configs.antt =====
-- Configurations (config).
use renku_gateway.Prelude.{
  String, str_eq, ℕ, ◌==◌, ℤ, pos, Bool, true, false, Dict, lookup, List, [], ◌∷◌, Option, none,
  some, ◌≡◌, ◌≢◌, ◌⊎◌, ◌↔◌, refl, ok, err, other, arith, if◌then◌else◌,
}
use renku_gateway.Config.{
  production, development, Url, SessionConfig, OidcClient, LoginConfig, RevproxyConfig, RedisConfig,
  GitlabRedirectsConfig, Config, validate, validate_redirects,
}
use renku_gateway.Config.Accepted.{IsSafe, validate-IsSafe, validate-redirects}
use renku_gateway.Config.Loader.{Viper, Value, read_config, load_config-IsSafe}

abbrev pub url : Url
url = record { scheme = "https"; host = "renku"; path = "" }

abbrev pub provider : OidcClient
provider = record {
  issuer = "https://renku/auth";
  client_id = "gateway";
  client_secret = "secret";
  scopes = [];
  callback_uri = "https://renku/api/auth/callback";
  use_pkce = true;
  cookie_encoding_key = "";
  cookie_hash_key = "";
  unsafe_no_cookie_handler = false;
}

abbrev pub sessions : SessionConfig
sessions = record {
  idle_session_ttl_seconds = pos 3600;
  max_session_ttl_seconds = pos 86400;
  authorization_verifiers = [];
  cookie_encoding_key = "0123456789abcdef";
  cookie_hash_key = "0123456789abcdef0123456789abcdef";
  unsafe_no_cookie_handler = false;
}

abbrev pub config : Config
config = record {
  running_environment = production;
  sessions = sessions;
  redirects = record {
    enabled = true;
    renku_base_url = some url;
    redirected_host = "";
    entry_ttl_seconds = pos 0;
  };
  revproxy = record {
    enable_internal_gitlab = false;
    renku_base_url = some url;
    data_service = some url;
    keycloak = some url;
    ui_server = some url;
  };
  login = record {
    enable_internal_gitlab = false;
    renku_base_url = some url;
    login_routes_base_path = "/api/auth";
    token_encryption_enabled = false;
    token_encryption_secret_key = "";
    providers = ("renku", provider) ∷ ("gitlab", provider) ∷ [];
    old_gitlab_logout = false;
    logout_gitlab_upon_renku_logout = false;
  };
  redis = record {
    type = "redis";
    addresses = "localhost:6379" ∷ [];
    is_sentinel = false;
    password = "";
    master_name = "";
    db_index = pos 0;
  };
  posthog = record { enabled = false; api_key = ""; host = ""; environment = "" };
  sentry = record { enabled = false; dsn = ""; environment = "" };
}

abbrev pub accepted : Config
accepted = (validate config).1

validate-IsSafe_example : IsSafe accepted
unfolding validate renku_gateway.Config.validate_sessions renku_gateway.Config.validate_login
    renku_gateway.Prelude.remove renku_gateway.Config.validate_revproxy
    renku_gateway.Config.validate_redis
validate-IsSafe_example = validate-IsSafe config accepted (λ e. cc e) refl

validate-redirects_example :
    (accepted.redirects ≡ config.redirects)
    × (validate_redirects config.redirects
        ≡ (ok tt, record config.redirects { entry_ttl_seconds = pos 300 }))
unfolding validate renku_gateway.Config.validate_sessions renku_gateway.Config.validate_login
    renku_gateway.Prelude.remove renku_gateway.Config.validate_revproxy
    renku_gateway.Config.validate_redis
validate-redirects_example = validate-redirects config accepted (ground arith) (λ e. cc e) refl

-- One file has the whole configuration.
abbrev viper : Viper (Option Config)
viper = record {
  merge_in_config = λ v. (ok tt, some config);
  read_secret = ok none;
  merge_config_map = λ m v. (ok tt, v);
  environ = "GATEWAY_DEBUGMODE=true" ∷ "HOME=/" ∷ [];
  read_env = λ vars. ok (("gateway_debugmode", Value.text "true") ∷ []);
  set = λ key val v. v;
  unmarshal = λ hook v. elim v [ none ↦ err (other "no file") | some c ↦ ok c ];
  parse_url = λ s. ok url;
  port = λ u. "443";
}

load_config-IsSafe_example :
    (output : Config) × (read_config viper none ≡ (ok output, some config))
    × (((output.running_environment ≡ development) × (accepted.running_environment ≡ development))
        ⊎ ((output.running_environment ≢ development)
            × (accepted.running_environment ≡ production)
            × IsSafe accepted))
unfolding renku_gateway.Config.Loader.load_config validate renku_gateway.Config.validate_sessions
    renku_gateway.Config.finish_config renku_gateway.Config.validate_login
    renku_gateway.Prelude.remove renku_gateway.Config.validate_revproxy
    renku_gateway.Config.validate_redis
load_config-IsSafe_example = load_config-IsSafe viper none (some config) accepted refl
