-- ===== src/Login/Logout.antt =====
-- `GetLogout` and `GetUserProfile` (login/login_server_routes.go, oidc/client.go).
pub mod Ended
pub mod Kept
use renku_gateway.Prelude.{
  ℕ, String, str_eq, eq_iff, not, Bool, Bool-cases, true, false, ◌&&◌, ℤ, negsuc, Dict, lookup,
  insert, lookup-insert, has_key, is_unique, List, [], ◌∷◌, Option, none, some, ◌≡◌, ◌≢◌, ◌⊎◌, inl,
  inr, refl, sym, ap, ◌∙◌, arith, Result, ok, err, Error, Exec, pure, raise, lift, attempt,
  and_then, ◌>>=◌, ◌>>◌, >>=-eq-ok, if◌then◌else◌,
}
use renku_gateway.Models.Token.{AuthToken}
use renku_gateway.Sessions.Context.{Context, Action, read}
use renku_gateway.Sessions.Store.{SessionStore, get, delete}
use renku_gateway.Sessions.Tokens.{get_id_token}
use renku_gateway.Oidc.Store.{ClientStore, find_client}
use renku_gateway.Login.{LoginServer, or_default}

-- net/url, as the two routes use it: `with_query` adds one parameter to the query.
pub record Urls (U : Type 0) : Type 0 where
  pub parse : String → Result U
  pub join_path : U → String → U
  pub with_query : U → String → String → U
  pub text : U → String

-- The rest of the configuration that `GetLogout` reads.
pub record LogoutConfig (U : Type 0) : Type 0 where
  pub base_url : U
  pub login_routes_base_path : String
  pub logout_gitlab_upon_renku_logout : Bool
  pub old_gitlab_logout : Bool

-- The data of the template "logout": the base URL, where to go, and the logout URL of each provider.
pub record LogoutPage : Type 0 where
  pub renku_base_url : String
  pub redirect_url : String
  pub providers : Dict String

module _ {U : Type 0} (urls : Urls U) (config : LogoutConfig U) where
  abbrev renku_logout : String → U → String
  renku_logout renku_id_token url = urls.text (
      urls.with_query (urls.join_path url "./protocol/openid-connect/logout") "id_token_hint"
        renku_id_token)

  abbrev with_renku : String → String → String → Dict String → Result (Dict String)
  with_renku renku_id_token provider_id issuer template =
      if str_eq provider_id "renku" && not (str_eq renku_id_token "")
      then and_then (urls.parse issuer)
          (λ url. ok (insert provider_id (renku_logout renku_id_token url) template))
      else ok template

  abbrev gateway_logout : String
  gateway_logout = urls.text (
      urls.join_path (urls.join_path config.base_url config.login_routes_base_path)
        "./gitlab/logout")

  abbrev gitlab_url : String → Result String
  gitlab_url issuer =
      if config.old_gitlab_logout
      then and_then (urls.parse issuer)
          (λ url. ok (urls.text (urls.join_path url "./users/sign_out")))
      else ok gateway_logout

  abbrev with_gitlab : String → String → Dict String → Result (Dict String)
  with_gitlab provider_id issuer template =
      if config.logout_gitlab_upon_renku_logout && str_eq provider_id "gitlab"
      then and_then (gitlab_url issuer) (λ url. ok (insert provider_id url template))
      else ok template

  -- One provider's turn in the loop.
  unfoldable pub add_provider : String → String → String → Dict String → Result (Dict String)
  add_provider renku_id_token provider_id issuer template =
      and_then (with_renku renku_id_token provider_id issuer template)
        (λ t. with_gitlab provider_id issuer t)

  -- The loop over the providers and their issuers, up to the first error.
  unfoldable pub template_providers : String → Dict String → Dict String → Result (Dict String)
  template_providers renku_id_token [] template = ok template
  template_providers renku_id_token ((provider_id, issuer) ∷ more) template =
      and_then (add_provider renku_id_token provider_id issuer template)
        (λ t. template_providers renku_id_token more t)

  module _ {B : Type 0} (l : LoginServer B) where
    open l use {sessions}

    abbrev value_or_empty : Result AuthToken → String
    value_or_empty (ok token) = token.value
    value_or_empty (err e) = ""

    abbrev renku_token_of : Result ℕ → Action B String
    renku_token_of (err e) = pure ""
    renku_token_of (ok p) = do
      session ← read p
      found ← attempt (get_id_token sessions session "renku")
      pure (value_or_empty found)

    unfoldable pub renku_id_token : Action B String
    renku_id_token = do found ← attempt (get sessions); renku_token_of found

    unfoldable pub get_logout : Option String → Action B LogoutPage
    unfolding template_providers renku_id_token
    get_logout redirect_url = do
      token ← renku_id_token
      delete sessions
      providers ← lift (template_providers token l.config.providers [])
      pure (record {
        renku_base_url = l.config.renku_base_url;
        redirect_url = or_default redirect_url l.config.renku_base_url;
        providers = providers;
      })

-- The page that `GetUserProfile` redirects to, from the issuer of the client for "renku".
unfoldable pub user_profile_url : {U : Type 0} → Urls U → (issuer : String) → Result String
user_profile_url urls issuer =
    and_then (urls.parse issuer)
      (λ url. ok (urls.text (urls.with_query (urls.join_path url "./account") "referrer" "renku")))

unfoldable pub get_user_profile :
    {U S : Type 0} → Urls U → (ClientStore S) → (String → String) → Result String
unfolding user_profile_url
get_user_profile urls clients issuer_of =
    and_then (find_client clients "renku") (λ client. user_profile_url urls (issuer_of client.id))
