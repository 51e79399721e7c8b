-- ===== src/Login/Kept.antt =====
-- The routes of the login server keep sessions bounded (login/login_server_routes.go).
use renku_gateway.Prelude.{
  ℕ, String, str_eq, not, ◌+++◌, Bool-cases, Option, none, some, List, [], ◌∷◌, Result, ok, err,
  Error, other, ◌≡◌, inl, inr, refl, Exec, lift, gets, attempt, if◌then◌else◌,
}
use renku_gateway.Models.TokenSet.{AuthTokenSet}
use renku_gateway.Models.Session.{Session, max_ttl}
use renku_gateway.Sessions.Context.{Context, Action, backend_op, read, write}
use renku_gateway.Prelude.Keeps.{Keeps, Any, Tried, chain, return, fail, either, tried, lifted}
use renku_gateway.Sessions.Keeps.{
  IsBounded, IsBackend, Ensures, backend, aside, reads, writes, IsKept,
}
use renku_gateway.Sessions.Store.{get, create, save}
use renku_gateway.Sessions.Store.Kept.{get-kept, create-kept, save-kept}
use renku_gateway.Sessions.Tokens.Kept.{save_tokens-kept}
use renku_gateway.Oidc.{OidcClient, Tokens, code_exchange_callback, exchanged, reported, token_set}
use renku_gateway.Oidc.Store.{find_client}
use renku_gateway.Login.{
  LoginServer, redirected, handled, unauthorized, token_json, or_default, logged_in, named_tokens,
  requested, report_user, send_metrics, finish_login, start_login, next_step, next_auth_step,
  get_login, token_callback, callback_step, get_callback, user_of, get_gitlab_token,
}

logged_in-IsBounded :
    (provider_id : String) (tokens : AuthTokenSet) (s : Session)
    → IsBounded s
    → IsBounded (logged_in provider_id tokens s)
unfolding logged_in max_ttl
logged_in-IsBounded provider_id tokens s bounded = elim (Bool-cases (str_eq provider_id "renku")) [
  | inl e ↦ rw e bounded
  | inr e ↦ rw e bounded
]

-- What a login server promises: the backend of its sessions, and packages that reach the sessions
-- through the gateway's own methods only.
pub record IsLoginBackend {B : Type 0} (l : LoginServer B) (Stored : B → Type 0) : Type 0 where
  pub sessions : IsBackend l.sessions Stored
  pub states : Keeps Stored l.generate_state Any
  pub reports :
      (m : String → Exec B (Unit {0})) (user_id : String)
      → l.user_logged_in ≡ some m
      → Keeps Stored (m user_id) Any
  pub gets_access : (id : String) → Keeps Stored (l.token_store.get_fresh_access_token id) Any
  pub redirects :
      (state : String) (client : OidcClient (Context B))
      → Ensures Stored (l.auth_url_handler state client) Any
  pub exchanges :
      (callback : Tokens → Action B (Unit {0})) (client : OidcClient (Context B))
      → ((t : Tokens) → Ensures Stored (callback t) Any)
      → Ensures Stored (l.code_exchange_handler callback client) Any
  pub errors : (e : Error) → Ensures Stored (l.http_error e) Any
  pub ids :
      (id : String) (client : OidcClient (Context B))
      → find_client l.provider_store id ≡ ok client
      → Ensures Stored client.client.generate_id Any

module _ {B : Type 0} (Stored : B → Type 0) (l : LoginServer B)
    (keeps : IsLoginBackend l Stored) where
  open l use {config, sessions, provider_store}

  report_user-kept :
      (m : Option (String → Exec B (Unit {0}))) (r : Result ℕ)
      → l.user_logged_in ≡ m
      → Ensures Stored (report_user l m r) Any
  report_user-kept none r e = return (IsKept Stored) tt tt
  report_user-kept (some m) (err x) e = return (IsKept Stored) tt tt
  report_user-kept (some m) (ok p) e = chain (IsKept Stored) (read p) _ (reads Stored p) λ s _.
      chain (IsKept Stored) (attempt (backend_op (m s.user_id))) _
        (tried (IsKept Stored) _ (backend Stored _ (keeps.reports m s.user_id e)))
        λ _ _. return (IsKept Stored) tt tt

  send_metrics-kept :
      (m : Option (String → Exec B (Unit {0})))
      → l.user_logged_in ≡ m
      → Ensures Stored (send_metrics l m) Any
  send_metrics-kept none e = return (IsKept Stored) tt tt
  send_metrics-kept (some m) e =
      chain (IsKept Stored) (attempt (get sessions)) _
        (tried (IsKept Stored) _ (get-kept Stored sessions keeps.sessions))
        λ found _. report_user-kept (some m) found e

  saved : Ensures Stored (attempt (save sessions)) (Tried Any)
  saved = tried (IsKept Stored) _ (save-kept Stored sessions keeps.sessions)

  finish_login-kept : (p : ℕ) → Ensures Stored (finish_login l p) Any
  unfolding max_ttl
  finish_login-kept p = chain (IsKept Stored) (read p) _ (reads Stored p) λ s bounded.
      chain (IsKept Stored) (write p (record s { login_redirect_url = "" })) _
        (writes Stored p _ bounded)
        λ _ _. chain (IsKept Stored) (attempt (save sessions)) _ saved λ _ _.
          chain (IsKept Stored) (send_metrics l l.user_logged_in) _
            (send_metrics-kept l.user_logged_in refl)
            λ _ _.
              chain (IsKept Stored) (gets l.is_committed) _ (aside Stored _ (λ c. (refl, refl)))
                λ committed _.
                  return (IsKept Stored)
                    (if committed
                      then handled
                      else redirected (
                          if str_eq s.login_redirect_url ""
                          then config.renku_base_url
                          else s.login_redirect_url))
                    tt

  start_login-kept :
      (p : ℕ) (provider_id : String) → Ensures Stored (start_login l p provider_id) Any
  unfolding max_ttl
  start_login-kept p provider_id =
      let found = find_client provider_store provider_id in
      chain (IsKept Stored) (backend_op l.generate_state) _ (backend Stored _ keeps.states)
        λ state _. chain (IsKept Stored) (read p) _ (reads Stored p) λ s bounded.
          chain (IsKept Stored) (write p (record s { login_state = state })) _
            (writes Stored p _ bounded)
            λ _ _.
              chain (IsKept Stored) (lift found) _
                (lifted (IsKept Stored) {Q = Any} found (λ c e. tt))
                λ client _. chain (IsKept Stored) (attempt (save sessions)) _ saved λ _ _.
                  chain (IsKept Stored) (l.auth_url_handler state client) _
                    (keeps.redirects state client) λ _ _. return (IsKept Stored) handled tt

  next_step-kept : (p : ℕ) (rest : List String) → Ensures Stored (next_step l p rest) Any
  next_step-kept p [] = finish_login-kept p
  next_step-kept p (provider_id ∷ rest) = start_login-kept p provider_id

  next_auth_step-kept : (p : ℕ) → Ensures Stored (next_auth_step l p) Any
  unfolding next_auth_step
  next_auth_step-kept p =
      chain (IsKept Stored) (read p) _ (reads Stored p) λ s _. next_step-kept p s.login_sequence

  pub get_login-kept :
      (redirect_url : Option String) (provider_ids : Option (List String))
      → Ensures Stored (get_login l redirect_url provider_ids) Any
  unfolding get_login max_ttl
  get_login-kept redirect_url provider_ids =
      chain (IsKept Stored) (create sessions) _ (create-kept Stored sessions keeps.sessions) λ p _.
        chain (IsKept Stored) (read p) _ (reads Stored p) λ s bounded.
          chain (IsKept Stored)
            (write p (record s {
              login_redirect_url = or_default redirect_url config.renku_base_url;
              login_sequence = requested l provider_ids;
            }))
            _ (writes Stored p _ bounded) λ _ _. next_auth_step-kept p

  token_callback-kept :
      (p : ℕ) (provider_id : String) (tokens : AuthTokenSet)
      → Ensures Stored (token_callback l p provider_id tokens) Any
  unfolding token_callback
  token_callback-kept p provider_id tokens =
      chain (IsKept Stored) (read p) _ (reads Stored p) λ s bounded.
        chain (IsKept Stored) (write p (logged_in provider_id tokens s)) _
          (writes Stored p _ (logged_in-IsBounded provider_id tokens s bounded))
          λ _ _.
            save_tokens-kept Stored sessions keeps.sessions p
              (named_tokens provider_id tokens (logged_in provider_id tokens s))

  reported-kept :
      (client : OidcClient (Context B)) (r : Result (Unit {0}))
      → Ensures Stored (reported client l.http_error r) Any
  reported-kept client (err e) = keeps.errors e
  reported-kept client (ok u) = return (IsKept Stored) tt tt

  exchanged-kept :
      (p : ℕ) (provider_id : String) (client : OidcClient (Context B)) (tokens : Tokens)
      (r : Result String)
      → Ensures Stored (exchanged client l.http_error (token_callback l p provider_id) tokens r) Any
  exchanged-kept p provider_id client tokens (err e) = keeps.errors e
  exchanged-kept p provider_id client tokens (ok id) =
      chain (IsKept Stored) (attempt (token_callback l p provider_id (token_set client id tokens)))
        _ (tried (IsKept Stored) _ (token_callback-kept p provider_id (token_set client id tokens)))
        λ done _. reported-kept client done

  code_exchange_callback-kept :
      (p : ℕ) (provider_id : String) (client : OidcClient (Context B)) (tokens : Tokens)
      → find_client provider_store provider_id ≡ ok client
      → Ensures Stored
          (code_exchange_callback client l.http_error (token_callback l p provider_id) tokens)
          Any
  unfolding code_exchange_callback
  code_exchange_callback-kept p provider_id client tokens known =
      chain (IsKept Stored) (attempt client.client.generate_id) _
        (tried (IsKept Stored) _ (keeps.ids provider_id client known))
        λ id _. exchanged-kept p provider_id client tokens id

  callback_step-kept :
      (p : ℕ) (sequence : List String) → Ensures Stored (callback_step l p sequence) Any
  unfolding max_ttl
  callback_step-kept p [] = fail (IsKept Stored) (other "login sequence is invalid")
  callback_step-kept p (provider_id ∷ rest) =
      let found = find_client provider_store provider_id in
      chain (IsKept Stored) (read p) _ (reads Stored p) λ s bounded.
        chain (IsKept Stored) (write p (record s { login_sequence = rest })) _
          (writes Stored p _ bounded)
          λ _ _.
            chain (IsKept Stored) (lift found) _
              (lifted (IsKept Stored) {Q = λ c. found ≡ ok c} found (λ c e. e))
              λ client known.
                chain (IsKept Stored)
                  (l.code_exchange_handler
                    (code_exchange_callback client l.http_error (token_callback l p provider_id))
                    client)
                  _
                  (keeps.exchanges _ client
                    λ t. code_exchange_callback-kept p provider_id client t known)
                  λ _ _. next_auth_step-kept p

  pub get_callback-kept : (state : String) → Ensures Stored (get_callback l state) Any
  unfolding get_callback
  get_callback-kept state =
      either (IsKept Stored) (str_eq state "") _ _
        (fail (IsKept Stored) (other "a state parameter is required"))
        (chain (IsKept Stored) (get sessions) _ (get-kept Stored sessions keeps.sessions) λ p _.
          chain (IsKept Stored) (read p) _ (reads Stored p) λ s _.
            either (IsKept Stored) (not (str_eq state s.login_state)) _ _
              (fail (IsKept Stored) (other "state cannot be found in the existing session"))
              (callback_step-kept p s.login_sequence))

  user_of-kept : (r : Result ℕ) → Ensures Stored (user_of l r) Any
  user_of-kept (err e) = return (IsKept Stored) "" tt
  user_of-kept (ok p) =
      chain (IsKept Stored) (read p) _ (reads Stored p) λ s _. return (IsKept Stored) s.user_id tt

  pub get_gitlab_token-kept : Ensures Stored (get_gitlab_token l) Any
  unfolding get_gitlab_token
  get_gitlab_token-kept =
      chain (IsKept Stored) (attempt (get sessions)) _
        (tried (IsKept Stored) _ (get-kept Stored sessions keeps.sessions))
        λ found _. chain (IsKept Stored) (user_of l found) _ (user_of-kept found) λ user_id _.
          either (IsKept Stored) (str_eq user_id "") _ _ (return (IsKept Stored) unauthorized tt) (
            chain (IsKept Stored)
              (backend_op (l.token_store.get_fresh_access_token ("gitlab:" +++ user_id))) _
              (backend Stored _ (keeps.gets_access ("gitlab:" +++ user_id)))
              λ token _. return (IsKept Stored) (token_json token.value token.expires_at) tt)
