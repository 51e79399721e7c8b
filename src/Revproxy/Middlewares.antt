-- ===== src/Revproxy/Middlewares.antt =====
-- The middlewares of revproxy/middlewares.go that use the session store.
pub mod Anonymous
pub mod Kept
use renku_gateway.Prelude.{
  ℕ, String, str_eq, ◌+++◌, ◌||◌, not, Bool, Result, ok, err, Exec, pure, attempt, ◌>>=◌, ◌>>◌,
  if◌then◌else◌,
}
use renku_gateway.Models.Session.{Session}
use renku_gateway.Sessions.Context.{Context, Action, read, header_get, header_set}
use renku_gateway.Sessions.Store.{SessionStore, get, create}

module _ {B : Type 0} (sessions : SessionStore B) where
  abbrev named_or_create : ℕ → Action B ℕ
  named_or_create p = do
    session ← read p
    (if str_eq session.id "" then create sessions else pure p)

  abbrev get_or_create : Result ℕ → Action B ℕ
  get_or_create (err e) = create sessions
  get_or_create (ok p) = named_or_create p

  unfoldable pub ensure_session : Action B (Unit {0}) → Action B (Unit {0})
  ensure_session next = do found ← attempt (get sessions); get_or_create found; next

  -- The request carries one of the three headers of a logged-in user.
  abbrev is_known : Action B Bool
  is_known = do
    access_token ← header_get "Renku-Auth-Access-Token"
    id_token ← header_get "Renku-Auth-Id-Token"
    refresh_token ← header_get "Renku-Auth-Refresh-Token"
    pure (not (str_eq access_token "") || not (str_eq id_token "") || not (str_eq refresh_token ""))

  abbrev set_anonymous_id : Action B (Unit {0})
  set_anonymous_id = do
    found ← attempt (get sessions)
    p ← get_or_create found
    session ← read p
    header_set "Renku-Auth-Anon-Id" ("anon-" +++ session.id)

  unfoldable pub notebooks_anonymous_id : Action B (Unit {0}) → Action B (Unit {0})
  notebooks_anonymous_id next = do
    known ← is_known
    (if known then next else set_anonymous_id >> next)
