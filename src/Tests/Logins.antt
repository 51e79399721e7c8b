-- ===== src/Tests/Logins.antt =====
-- Logins (login).
use renku_gateway.Config.{LoginConfig as Settings}
use renku_gateway.Login.Logout.{Urls, LogoutConfig, LogoutPage, renku_id_token, get_logout}
use renku_gateway.Login.Logout.Ended.{get_logout-ends}
use renku_gateway.Login.Callback.{IsOutside}
use renku_gateway.Login.Progress.{IsStarted, answer_to, get_callback-progress}
use renku_gateway.Login.Setup.{served, new_login_server-clients}
use renku_gateway.Oidc.{OidcClient, RelyingParty}
use renku_gateway.Oidc.Setup.{RpConfig}
use renku_gateway.Oidc.Store.{find_client}
use renku_gateway.Tests.Configs.{provider}
use renku_gateway.Prelude.{
  ℕ, ◌+◌, String, ◌+++◌, List, Exec, has_key, is_some, Bool-cases, str_eq, inl, inr, Result, arith,
  ◌==◌, pos, true, false, [], ◌∷◌, none, some, lookup, ◌≡◌, refl, is_ok, ok, err, Error, other, ◌⊎◌,
}
use renku_gateway.Models.TokenSet.{AuthTokenSet}
use renku_gateway.Models.Session.{Session}
use renku_gateway.Sessions.Context.{Context, session_at, zero_session}
use renku_gateway.Sessions.Store.{get, get_session_id_from_cookie, session_ctx_key}
use renku_gateway.Login.{
  LoginServer, token_json, redirected, handled, get_callback, get_gitlab_token, token_callback,
}
use renku_gateway.Login.Steps.{get_callback-token_callback, get_gitlab_token-token_callback}
use renku_gateway.Tests.Memory.{access, refresh, id_token, session}
use renku_gateway.Tests.Requests.{World, store, token_store, with_session}

abbrev server : LoginServer World
server = record {
  config = record {
    renku_base_url = "https://renku";
    enable_internal_gitlab = true;
    providers = ("gitlab", "https://gitlab") ∷ [];
  };
  sessions = store;
  provider_store = [];
  token_store = token_store;
  user_logged_in = none;
  generate_state = λ w. (ok "st2", w);
  auth_url_handler = λ state client c. (ok tt, c);
  code_exchange_handler = λ callback client c. (ok tt, c);
  http_error = λ e c. (ok tt, c);
  is_committed = λ c. false;
}

abbrev tokens : AuthTokenSet
tokens = record {
  access_token = record access { provider_id = "gitlab" };
  refresh_token = record refresh { provider_id = "gitlab" };
  id_token = record id_token { provider_id = "gitlab" };
}

abbrev user_session : Context World
user_session = record with_session { heap = λ p. record session { user_id = "u1" } }

abbrev after_callback : Context World
after_callback = (token_callback server 0 "gitlab" tokens user_session).1

replay_example : (e : Error) × (get_callback server "st" after_callback ≡ (err e, after_callback))
unfolding get lookup token_callback renku_gateway.Sessions.Tokens.save_tokens
    renku_gateway.Models.TokenSet.validate_tokens_type renku_gateway.Models.Session.expired
replay_example =
    get_callback-token_callback server 0 "gitlab" "st" tokens user_session after_callback
      after_callback refl refl

-- A later request: another login has begun in the session, and it was touched.
abbrev later_request : Context World
later_request = record after_callback {
  heap = λ p. record (after_callback.heap p) { login_state = "st3"; expires_at = pos 250 };
}

get_gitlab_token_example :
    (lookup "gitlab" (later_request.heap 0).token_ids ≡ some "gitlab:u1")
    × ((get_gitlab_token server later_request).0 ≡ ok (token_json "A" (pos 200)))
unfolding token_callback renku_gateway.Sessions.Tokens.save_tokens
    renku_gateway.Models.TokenSet.validate_tokens_type get lookup
    renku_gateway.Models.Session.expired
get_gitlab_token_example =
    get_gitlab_token-token_callback server 0 tokens access user_session after_callback later_request
      later_request later_request.backend refl (λ e. cc e) refl refl refl refl

-- A server with a client for Renku, and a session that waits for its only callback.
abbrev client : OidcClient (Context World)
client = record {
  client = record {
    token_url = "https://renku/token";
    refresh_tokens = λ t c. (err (other "unused"), c);
    parse_token = λ t. (pos 0, none);
    verify_tokens = λ a t c. (err (other "unused"), c);
    generate_id = λ c. (ok "t1", c);
  };
  id = "renku";
}

abbrev renku_server : LoginServer World
renku_server = record server { provider_store = ("renku", client) ∷ [] }

known_client :
    (id : String) (c : OidcClient (Context World)) (d : Context World)
    → find_client renku_server.provider_store id ≡ ok c
    → (c.client.generate_id d).1.heap ≡ d.heap
unfolding find_client lookup
known_client id c d found = elim (Bool-cases (str_eq "renku" id)) [
  | inr unknown ↦
      absurd
        (missing (err (other "cannot find the provider with the ID")) refl (rw unknown at found))
  | inl known ↦
      let is_client : ok client ≡ ok c = rw known at found in
      let same : client ≡ c = ground arith in rw (← same) refl
]
  where
    missing :
        (r : Result (OidcClient (Context World)))
        → r ≡ err (other "cannot find the provider with the ID")
        → r ≡ ok c
        → ⊥
    missing r same h = cc

-- Packages that keep to their part: the exchange fails, and writes an error to the response.
renku_server-IsOutside : IsOutside renku_server
renku_server-IsOutside = record {
  error_heap = λ x c. refl;
  id_heap = known_client;
  exchange = λ callback c p d keeps. (refl, record { sequence = refl; url = refl });
  auth = λ state c d. refl;
}

abbrev pending : Context World
pending = record with_session {
  heap = λ p. record session { login_sequence = "renku" ∷ []; login_redirect_url = "https://app" };
}

get_callback-progress_example :
    ((◌≡◌ {A = List String} [] []
      → (get_callback renku_server "st" pending).0
        ≡ ok (answer_to renku_server (pending.heap 0) (get_callback renku_server "st" pending).1)))
    × ((next : String) (more : List String) (next_client : OidcClient (Context World))
        → [] ≡ next ∷ more
        → find_client renku_server.provider_store next ≡ ok next_client
        → ((b : World) → is_ok (renku_server.generate_state b).0 ≡ true)
        → IsStarted renku_server 0 next_client [] "https://app"
            (get_callback renku_server "st" pending))
unfolding get lookup renku_gateway.Models.Session.expired find_client
get_callback-progress_example =
    get_callback-progress renku_server 0 "st" "renku" [] client pending pending
      renku_server-IsOutside refl (λ e. cc e) refl refl refl

abbrev settings : Settings
settings = record {
  enable_internal_gitlab = false;
  renku_base_url = none;
  login_routes_base_path = "/api/auth";
  token_encryption_enabled = false;
  token_encryption_secret_key = "";
  providers = ("renku", provider) ∷ [];
  old_gitlab_logout = false;
  logout_gitlab_upon_renku_logout = false;
}

abbrev new_relying_party : RpConfig → Exec ℕ (RelyingParty (Context World))
new_relying_party c w = (ok client.client, w + 1)

abbrev made : LoginServer World
made = served server (λ u. "https://renku") settings (("renku", client) ∷ []) store token_store none

new_login_server-clients_example :
    (made.sessions ≡ store)
    × (made.token_store ≡ token_store)
    × (has_key "renku" settings.providers ≡ true
        → (c : OidcClient (Context World)) × (find_client made.provider_store "renku" ≡ ok c)
          × (c.id ≡ "renku"))
    × (has_key "renku" settings.providers ≡ false
        → is_ok (find_client made.provider_store "renku") ≡ false)
unfolding renku_gateway.Prelude.is_unique renku_gateway.Login.Setup.new_login_server
    renku_gateway.Login.Setup.with_config renku_gateway.Oidc.Setup.new_client_store
    renku_gateway.Oidc.Setup.new_client renku_gateway.Config.Keys.validate_oidc_config
    renku_gateway.Login.Setup.with_session_store renku_gateway.Login.Setup.with_token_store
    renku_gateway.Prelude.insert
new_login_server-clients_example =
    new_login_server-clients server (λ u. "https://renku") new_relying_party settings store
      token_store made "renku" 0 1 refl refl

abbrev pub urls : Urls String
urls = record {
  parse = λ s. ok s;
  join_path = λ u s. u +++ s;
  with_query = λ u k v. u +++ ("?" +++ (k +++ ("=" +++ v)));
  text = λ u. u;
}

abbrev pub logout_config : LogoutConfig String
logout_config = record {
  base_url = "https://renku";
  login_routes_base_path = "/api/auth";
  logout_gitlab_upon_renku_logout = true;
  old_gitlab_logout = true;
}

abbrev page : LogoutPage
page = record {
  renku_base_url = "https://renku";
  redirect_url = "https://renku";
  providers = ("gitlab", "https://gitlab./users/sign_out") ∷ [];
}

abbrev logged_out : Context World
logged_out = (get_logout urls logout_config server none with_session).1

get_logout-ends_example :
    ((id : String) × (d : Context World) × (d
        ≡ (renku_id_token urls logout_config server with_session).1)
      × (get_session_id_from_cookie store d ≡ (ok id, d))
      × ((id ≡ "")
          ⊎ (store.session_repo.remove_session id d.backend ≡ (ok tt, logged_out.backend))))
    × ((p : ℕ) × (lookup session_ctx_key logged_out.store ≡ some (session_at p))
        × (logged_out.heap p ≡ zero_session))
    × (is_some (lookup "gitlab" page.providers) ≡ true)
    × (page.redirect_url ≡ "https://renku")
unfolding get_logout get lookup renku_gateway.Models.Session.expired
    renku_gateway.Sessions.Store.delete renku_gateway.Sessions.Tokens.get_id_token
    renku_gateway.Login.Logout.add_provider renku_gateway.Prelude.insert
get_logout-ends_example =
    get_logout-ends urls logout_config server none with_session logged_out page refl
