-- ===== src/Login/Logout/Kept.antt =====
-- `GetLogout` keeps sessions bounded (login/login_server_routes.go).
use renku_gateway.Prelude.{ℕ, String, [], Option, Result, ok, err, lift, attempt}
use renku_gateway.Sessions.Context.{read}
use renku_gateway.Prelude.Keeps.{Any, chain, return, tried, lifted}
use renku_gateway.Sessions.Keeps.{Ensures, reads, IsKept}
use renku_gateway.Sessions.Store.{get, delete}
use renku_gateway.Sessions.Store.Kept.{get-kept, delete-kept}
use renku_gateway.Sessions.Tokens.{get_id_token}
use renku_gateway.Sessions.Tokens.Kept.{get_id_token-kept}
use renku_gateway.Login.{LoginServer, or_default}
use renku_gateway.Login.Kept.{IsLoginBackend}
use renku_gateway.Login.Logout.{
  Urls, LogoutConfig, template_providers, value_or_empty, renku_token_of, renku_id_token,
  get_logout,
}

module _ {B U : Type 0} (Stored : B → Type 0) (l : LoginServer B) (keeps : IsLoginBackend l Stored)
    (urls : Urls U) (logout : LogoutConfig U) where
  open l use {config, sessions}

  renku_token_of-kept : (r : Result ℕ) → Ensures Stored (renku_token_of urls logout l r) Any
  renku_token_of-kept (err e) = return (IsKept Stored) "" tt
  renku_token_of-kept (ok p) = chain (IsKept Stored) (read p) _ (reads Stored p) λ s _.
      chain (IsKept Stored) (attempt (get_id_token sessions s "renku")) _
        (tried (IsKept Stored) _ (get_id_token-kept Stored sessions keeps.sessions s "renku"))
        λ found _. return (IsKept Stored) (value_or_empty urls logout l found) tt

  pub get_logout-kept :
      (redirect_url : Option String) → Ensures Stored (get_logout urls logout l redirect_url) Any
  unfolding get_logout renku_id_token
  get_logout-kept redirect_url =
      chain (IsKept Stored) (renku_id_token urls logout l) _
        (chain (IsKept Stored) (attempt (get sessions)) _
          (tried (IsKept Stored) _ (get-kept Stored sessions keeps.sessions))
          λ found _. renku_token_of-kept found)
        λ token _.
          chain (IsKept Stored) (delete sessions) _ (delete-kept Stored sessions keeps.sessions)
            λ _ _.
              chain (IsKept Stored)
                (lift (template_providers urls logout token config.providers [])) _
                (lifted (IsKept Stored) {Q = Any}
                  (template_providers urls logout token config.providers []) (λ p e. tt))
                λ providers _.
                  return (IsKept Stored)
                    (record {
                      renku_base_url = config.renku_base_url;
                      redirect_url = or_default redirect_url config.renku_base_url;
                      providers = providers;
                    })
                    tt
