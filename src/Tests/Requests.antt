-- ===== src/Tests/Requests.antt =====
-- A backend for the session store (sessions), and requests for it.
use renku_gateway.Prelude.{
  str_eq, ℤ, pos, List, [], ◌∷◌, none, ok, err, session_not_found, no_cookie, Exec, other,
  if◌then◌else◌,
}
use renku_gateway.Models.Token.{AuthToken}
use renku_gateway.Models.Session.{Session}
use renku_gateway.Sessions.Context.{Context, session_at, zero_session}
use renku_gateway.Sessions.Store.{SessionStore, TokenStoreInterface, default_cookie}
use renku_gateway.Tests.Memory.{access, refresh, id_token, session}

-- The sessions and tokens that have been written, and the clock.
pub record World : Type 0 where
  pub sessions : List Session
  pub tokens : List AuthToken
  pub clock : ℤ

abbrev write_token : AuthToken → Exec World (Unit {0})
write_token o w = (ok tt, record w { tokens = o ∷ w.tokens })

abbrev pub token_store : TokenStoreInterface World
token_store = record {
  get_fresh_access_token = λ id w. (ok access, w);
  set_access_token = write_token;
  get_refresh_token = λ id w. (ok refresh, w);
  set_refresh_token = write_token;
  get_fresh_id_token = λ id w. (ok id_token, w);
  set_id_token = write_token;
}

abbrev pub store : SessionStore World
store = record {
  verify_access_token =
      λ token w. (if str_eq token "T" then ok "u1" else err (other "not verified"), w);
  cookie_template = default_cookie;
  cookie_handler = none;
  new_session = λ w. (ok session, w);
  session_repo = record {
    get_session = λ id w. (if str_eq id "s1" then ok session else err session_not_found, w);
    set_session = λ s w. (ok tt, record w { sessions = s ∷ w.sessions });
    remove_session = λ id w. (ok tt, w);
  };
  token_store = token_store;
  now = λ w. (w.clock, w);
  basic_auth = λ header. none;
}

abbrev pub world : World
world = record { sessions = []; tokens = []; clock = pos 150 }

-- A request without a cookie and without headers, one with a session's cookie, and one whose
-- session has been loaded.
abbrev pub request : Context World
request = record {
  backend = world;
  heap = λ p. zero_session;
  next_ref = 0;
  store = [];
  headers = [];
  cookie = err no_cookie;
  set_cookies = [];
}

abbrev pub with_cookie : Context World
with_cookie = record request { cookie = ok "s1" }

abbrev pub with_session : Context World
with_session = record with_cookie {
  heap = λ p. session;
  next_ref = 1;
  store = ("renku_session", session_at 0) ∷ [];
}
