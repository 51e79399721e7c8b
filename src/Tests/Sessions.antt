-- ===== src/Tests/Sessions.antt =====
-- Sessions of requests (sessions).
use renku_gateway.Prelude.{
  String, ℕ, ◌==◌, ◌+++◌, suc, ℤ, pos, Bool, false, true, List, [], ◌∷◌, Option, none, some, Result,
  ok, err, Error, session_not_found, session_parse, other, Exec, pure, raise, ◌>>=◌, ◌>>◌, ◌≡◌, ◌≢◌,
  refl, lookup, str_eq, if◌then◌else◌,
}
use renku_gateway.Models.Token.{AuthToken, access_token_type}
use renku_gateway.Models.TokenSet.{AuthTokenSet}
use renku_gateway.Models.Session.{Session, expired}
use renku_gateway.Sessions.Context.{Cookie, session_at, write, token_value, Action}
use renku_gateway.Sessions.Store.{
  SessionStore, session_ctx_key, get, get_without_context, create, save, delete, middleware,
  get_session_id_from_cookie,
}
use renku_gateway.Sessions.Store.Lifecycle.{save-delete, entered, middleware-saves}
use renku_gateway.Sessions.Tokens.{save_tokens, get_auth_token_from_context}
use renku_gateway.Sessions.Tokens.Saved.{IsSaved, save_tokens-IsSaved, context_only_access}
use renku_gateway.Tests.Memory.{access, refresh, id_token, session}
use renku_gateway.Tests.Requests.{World, store, world, request, with_cookie, with_session}

abbrev tokens : AuthTokenSet
tokens = record { access_token = access; refresh_token = refresh; id_token = id_token }

save_tokens-IsSaved_example :
    IsSaved store 0 tokens with_session (save_tokens store 0 tokens with_session).1
unfolding save_tokens renku_gateway.Models.TokenSet.validate_tokens_type
save_tokens-IsSaved_example =
    save_tokens-IsSaved store 0 tokens with_session (save_tokens store 0 tokens with_session).1 refl

abbrev made : Cookie
made = record {
  name = "_renku_session";
  value = "s1";
  path = "/";
  max_age = pos 0;
  secure = true;
  http_only = true;
  same_site_lax = true;
}

save-delete_example :
    save store (delete store with_cookie).1
    ≡ (ok tt, record (delete store with_cookie).1 { backend = world })
unfolding get_session_id_from_cookie delete
save-delete_example = save-delete store "s1" (pos 150) with_cookie world refl refl

-- A session that has expired at once.
abbrev expired_session : Session
expired_session = record session { expires_at = pos 100 }

abbrev hasty_store : SessionStore World
hasty_store = record store { new_session = λ w. (ok expired_session, w) }

-- A handler that makes a session, as a login does, changes it and fails.
abbrev handler : Action World (Unit {0})
handler = do
  p ← create store
  write p (record session { user_id = "u2" })
  raise (other "handler failed")

middleware-saves_example :
    let d = (handler (entered store request)).1 in
    ((middleware store handler request).0 ≡ (handler (entered store request)).0)
    × ((p : ℕ) (now : ℤ) (b : World)
        → lookup session_ctx_key d.store ≡ some (session_at p)
        → store.now d.backend ≡ (now, b)
        → expired now (d.heap p) ≡ false
        → (middleware store handler request).1 ≡ record d {
          backend =
              if str_eq (d.heap p).id ""
              then b
              else (store.session_repo.set_session (d.heap p) b).1;
        })
middleware-saves_example = middleware-saves store handler request

-- So the changed session is written.
saved_by_login :
    (middleware store handler request).1.backend.sessions ≡ record session { user_id = "u2" } ∷ []
unfolding middleware get get_without_context create save lookup expired renku_gateway.Prelude.insert
    renku_gateway.Prelude.trim_prefix renku_gateway.Sessions.Store.cookie
saved_by_login = refl

context_only_access_example : access.type ≡ access_token_type
unfolding get_auth_token_from_context lookup renku_gateway.Models.Token.expired
context_only_access_example =
    context_only_access store "access_token:a" access
      (record request { store = ("access_token:a", token_value access) ∷ [] })
      (record request { store = ("access_token:a", token_value access) ∷ [] }) refl
