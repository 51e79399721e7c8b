-- ===== src/Revproxy/Routes.antt =====
-- revproxy/main.go
use renku_gateway.Prelude.{
  String, Bool, true, false, List, [], ◌∷◌, ◌++◌, Option, none, some, Result, ok, err, other,
  and_then, if◌then◌else◌,
}
use renku_gateway.Models.Token.{access_token_type, refresh_token_type}
use renku_gateway.Sessions.Store.{SessionStore}
use renku_gateway.Revproxy.Auth.{
  Auth, Formats, new_auth, inject_bearer_token, inject_in_header,
  data_service_gitlab_access_token_injector,
}

pub data Upstream : Type 0 where
  renku_base keycloak data_service ui_server : Upstream

-- One middleware of a route, or the handler at its end.
pub data Step : Type 0 where
  common : Step
  not_found_handler : Step
  set_base_host set_keycloak_host : Step
  redirect_from_store : Step
  renku_access_token notebooks_renku_refresh_token data_gitlab_access_token : Step
  notebooks_anonymous_id ensure_session : Step
  strip_prefix : String → Step
  regex_rewrite : String → String → Step
  proxy : Upstream → Step

pub record Route : Type 0 where
  pub path : String
  pub steps : List Step

abbrev pub after_common : String → List Step → Route
after_common path steps = record { path = path; steps = common ∷ steps }

-- `redirect_path` is `path.Join` of the redirect store's prefix and ":projectPath".
abbrev pub redirect_routes : Option String → List Route
redirect_routes none = []
redirect_routes (some redirect_path) =
    after_common redirect_path (set_base_host ∷ redirect_from_store ∷ proxy renku_base ∷ []) ∷ []

abbrev gitlab_routes : List Route
gitlab_routes =
    after_common "/api/notebooks" (
      renku_access_token
      ∷ data_gitlab_access_token
      ∷ notebooks_renku_refresh_token
      ∷ notebooks_anonymous_id
      ∷ regex_rewrite "^/api/notebooks(.*)" "/api/data/notebooks$1"
      ∷ proxy data_service
      ∷ [])
    ∷ after_common "/api/data" (
        renku_access_token
        ∷ data_gitlab_access_token
        ∷ notebooks_renku_refresh_token
        ∷ notebooks_anonymous_id
        ∷ proxy data_service
        ∷ [])
    ∷ after_common "/api/kc"
        (strip_prefix "/api/kc" ∷ renku_access_token ∷ set_keycloak_host ∷ proxy keycloak ∷ [])
    ∷ after_common "/ui-server/ws" (ensure_session ∷ renku_access_token ∷ proxy ui_server ∷ [])
    ∷ after_common "/ui-server/api/allows-iframe" (proxy ui_server ∷ [])
    ∷ []

abbrev v2_routes : List Route
v2_routes =
    after_common "/api/notebooks" (
      renku_access_token
      ∷ notebooks_renku_refresh_token
      ∷ notebooks_anonymous_id
      ∷ regex_rewrite "^/api/notebooks(.*)" "/api/data/notebooks$1"
      ∷ proxy data_service
      ∷ [])
    ∷ after_common "/api/data" (
        renku_access_token
        ∷ notebooks_renku_refresh_token
        ∷ notebooks_anonymous_id
        ∷ proxy data_service
        ∷ [])
    ∷ after_common "/api/kc"
        (strip_prefix "/api/kc" ∷ renku_access_token ∷ set_keycloak_host ∷ proxy keycloak ∷ [])
    ∷ after_common "/ui-server/ws" (ensure_session ∷ renku_access_token ∷ proxy ui_server ∷ [])
    ∷ after_common "/ui-server/api/allows-iframe" (proxy ui_server ∷ [])
    ∷ []

-- `RegisterHandlers`, in the order of the registrations.
unfoldable pub register_handlers : Bool → Option String → List Route
register_handlers enable_internal_gitlab redirect_path =
    after_common "/api/data/user/secret_key/" (not_found_handler ∷ [])
    ∷ (redirect_routes redirect_path
        ++ ((if enable_internal_gitlab then gitlab_routes else v2_routes)
            ++ after_common "/" (set_base_host ∷ proxy renku_base ∷ []) ∷ []))

-- The fields that `initializeAuth` sets; `data_gitlab` is the zero value where GitLab is off.
pub record Auths (B : Type 0) : Type 0 where
  pub renku_access_token_auth : Auth B
  pub notebooks_renku_refresh_token_auth : Auth B
  pub data_gitlab_access_token_auth : Option (Auth B)

module _ {B : Type 0} (formats : Formats) where
  abbrev gitlab_auth : Bool → Option (SessionStore B) → Result (Option (Auth B))
  gitlab_auth false sessions = ok none
  gitlab_auth true sessions =
      and_then
        (new_auth (record {
          sessions = sessions;
          token_type = access_token_type;
          provider_id = "gitlab";
          token_injector = some (data_service_gitlab_access_token_injector formats);
        }))
        (λ a. ok (some a))

  unfoldable pub initialize_auth : Bool → Option (SessionStore B) → Result (Auths B)
  initialize_auth enable_internal_gitlab sessions =
      and_then
        (new_auth (record {
          sessions = sessions;
          token_type = access_token_type;
          provider_id = "renku";
          token_injector = some inject_bearer_token;
        }))
        (λ access.
          and_then
            (new_auth (record {
              sessions = sessions;
              token_type = refresh_token_type;
              provider_id = "renku";
              token_injector = some (inject_in_header "Renku-Auth-Refresh-Token");
            }))
            (λ refresh. and_then (gitlab_auth enable_internal_gitlab sessions) (λ gitlab.
              ok (record {
                renku_access_token_auth = access;
                notebooks_renku_refresh_token_auth = refresh;
                data_gitlab_access_token_auth = gitlab;
              }))))

  -- `NewServer`, from what its options have set: the configuration as its `EnableInternalGitlab`.
  unfoldable pub new_server : Option Bool → Option (SessionStore B) → Result (Auths B)
  unfolding initialize_auth
  new_server none sessions = err (other "revproxy config not provided")
  new_server (some enable) none = err (other "session handler not initialized")
  new_server (some enable) (some sessions) = initialize_auth enable (some sessions)
