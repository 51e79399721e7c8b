-- ===== src/Sessions/Store.antt =====
-- sessions/session_store.go
pub mod Loading
pub mod Kept
pub mod Lifecycle
use renku_gateway.Prelude.{
  ℕ, String, str_eq, trim_prefix, ◌+++◌, ℤ, pos, negsuc, Bool, true, Dict, Option, none, some, List,
  [], ◌∷◌, Result, ok, err, Error, session_not_found, session_parse, session_expired, no_cookie,
  is_redis_nil, Exec, pure, raise, lift, attempt, ◌>>=◌, ◌>>◌, if◌then◌else◌,
}
use renku_gateway.Models.Token.{AuthToken}
use renku_gateway.Models.Session.{Session, expired, touch}
use renku_gateway.Sessions.Context.{
  Cookie, CtxValue, session_at, nil_session, token_value, other_value, Context, Action,
  zero_session, backend_op, alloc, read, write, ctx_get, ctx_set, header_get, header_set,
  set_cookie,
}

-- sessions/session_constants.go
abbrev pub session_cookie_name : String
session_cookie_name = "_renku_session"

abbrev pub session_ctx_key : String
session_ctx_key = "renku_session"

-- models/cookie_handler.go: gorilla/securecookie in production.
pub record CookieHandler : Type 0 where
  pub encode : String → String → Result String
  pub decode : String → String → Result String

-- models/session_repository.go
pub record SessionRepository (B : Type 0) : Type 0 where
  pub get_session : String → Exec B Session
  pub set_session : Session → Exec B (Unit {0})
  pub remove_session : String → Exec B (Unit {0})

-- models/token_store.go
pub record TokenStoreInterface (B : Type 0) : Type 0 where
  pub get_fresh_access_token : String → Exec B AuthToken
  pub set_access_token : AuthToken → Exec B (Unit {0})
  pub get_refresh_token : String → Exec B AuthToken
  pub set_refresh_token : AuthToken → Exec B (Unit {0})
  pub get_fresh_id_token : String → Exec B AuthToken
  pub set_id_token : AuthToken → Exec B (Unit {0})

-- `verify_access_token` gives the subject of the claims. `basic_auth` is net/http's parser of an
-- Authorization header into a user name and a password.
pub record SessionStore (B : Type 0) : Type 0 where
  pub verify_access_token : String → Exec B String
  pub cookie_template : Cookie
  pub cookie_handler : Option CookieHandler
  pub new_session : Exec B Session
  pub session_repo : SessionRepository B
  pub token_store : TokenStoreInterface B
  pub now : B → ℤ × B
  pub basic_auth : String → Option (String × String)

-- The template that `NewSessionStore` sets.
abbrev pub default_cookie : Cookie
default_cookie = record {
  name = session_cookie_name;
  value = "";
  path = "/";
  max_age = pos 0;
  secure = true;
  http_only = true;
  same_site_lax = true;
}

abbrev session_id_of : Result String → String
session_id_of (ok id) = id
session_id_of (err e) = ""

unfoldable pub token_ids_of : String → Dict String
token_ids_of user_id = ("renku", "renku:" +++ user_id) ∷ ("gitlab", "gitlab:" +++ user_id) ∷ []

-- The session made from a verified token, which is never saved.
unfoldable pub ephemeral : ℤ → String → Session
unfolding token_ids_of
ephemeral now user_id = record zero_session {
  created_at = now;
  user_id = user_id;
  token_ids = token_ids_of user_id;
}

module _ {B : Type 0} (sessions : SessionStore B) where
  open sessions use {cookie_handler, cookie_template, session_repo}

  abbrev pub read_clock : Action B ℤ
  read_clock = backend_op λ b. let (t, b') = sessions.now b in (ok t, b')

  -- A session is loaded where the context holds one that has not expired. The type assertion gives
  -- nil for a value of another type, and nil is tested first.
  from_value : Option CtxValue → Action B ℕ
  from_value none = raise session_not_found
  from_value (some nil_session) = raise session_not_found
  from_value (some (token_value o)) = raise session_not_found
  from_value (some other_value) = raise session_not_found
  from_value (some (session_at p)) = do
    session ← read p
    now ← read_clock
    (if expired now session then raise session_expired else pure p)

  unfoldable pub get_from_context : Action B ℕ
  unfolding from_value
  get_from_context = do session_raw ← ctx_get session_ctx_key; from_value session_raw

  abbrev pub decoded : Option CookieHandler → String → String
  decoded none value = value
  decoded (some h) value = session_id_of (h.decode session_cookie_name value)

  abbrev cookie_session_id : Result String → Action B String
  cookie_session_id (ok value) = pure (decoded cookie_handler value)
  cookie_session_id (err no_cookie) = pure ""
  cookie_session_id (err e) = raise e

  unfoldable pub get_session_id_from_cookie : Action B String
  get_session_id_from_cookie c = cookie_session_id c.cookie c

  -- Both ways of authorization: verify the token, put an ephemeral session into the context, and
  -- set the header to the bare token.
  abbrev from_verified : String → Result String → Action B ℕ
  from_verified access_token (err e) = raise session_not_found
  from_verified access_token (ok user_id) = do
    now ← read_clock
    p ← alloc (ephemeral now user_id)
    ctx_set session_ctx_key (session_at p)
    header_set "Authorization" access_token
    pure p

  unfoldable pub from_token : String → Action B ℕ
  unfolding ephemeral
  from_token access_token = do
    claims ← attempt (backend_op (sessions.verify_access_token access_token))
    from_verified access_token claims

  unfoldable pub bearer_token : String → String
  bearer_token header = trim_prefix (trim_prefix header "Bearer ") "bearer "

  unfoldable pub get_from_headers : Action B ℕ
  unfolding from_token bearer_token
  get_from_headers = do
    header ← header_get "Authorization"
    let access_token = bearer_token header
    (if str_eq access_token "" then raise session_not_found else from_token access_token)

  abbrev from_password : Option (String × String) → Action B ℕ
  from_password none = raise session_not_found
  from_password (some (_, password)) = from_token password

  unfoldable pub get_from_basic_auth : Action B ℕ
  unfolding from_token
  get_from_basic_auth = do
    header ← header_get "Authorization"
    from_password (sessions.basic_auth header)

  abbrev or_missing : Result Session → Action B Session
  or_missing (ok s) = pure s
  or_missing (err e) = if is_redis_nil e then raise session_not_found else raise e

  -- The last part of `Get`: the session of the cookie, from the repository. The pointer that it
  -- returns is not in the context.
  unfoldable pub load : String → Action B ℕ
  load session_id = do
    found ← attempt (backend_op (session_repo.get_session session_id))
    session ← or_missing found
    now ← read_clock
    (if expired now session
        then raise session_expired
        else (do touched_at ← read_clock; alloc (touch touched_at session)))

  abbrev or_else : Result ℕ → Action B ℕ → Action B ℕ
  or_else (ok p) m = pure p
  or_else (err e) m = m

  unfoldable pub get_without_context : Action B ℕ
  unfolding get_session_id_from_cookie get_from_headers get_from_basic_auth load
  get_without_context = do
    session_id ← get_session_id_from_cookie
    (if str_eq session_id ""
        then (do
          from_headers ← attempt get_from_headers
          or_else from_headers (do
            from_basic_auth ← attempt get_from_basic_auth
            or_else from_basic_auth (raise session_not_found)))
        else load session_id)

  unfoldable pub get : Action B ℕ
  unfolding get_from_context get_without_context
  get = do in_context ← attempt get_from_context; or_else in_context get_without_context

  abbrev encoded : Option CookieHandler → String → Result String
  encoded none id = ok id
  encoded (some h) id = h.encode session_cookie_name id

  unfoldable pub cookie : Session → Action B Cookie
  cookie session = do
    value ← lift (encoded cookie_handler session.id)
    pure (record cookie_template { value = value })

  unfoldable pub create : Action B ℕ
  create = do
    session ← backend_op sessions.new_session
    cookie ← cookie session
    p ← alloc session
    ctx_set session_ctx_key (session_at p)
    set_cookie cookie
    pure p

  unfoldable pub save : Action B (Unit {0})
  save = do
    p ← get
    session ← read p
    (if str_eq session.id "" then pure tt else backend_op (session_repo.set_session session))

  unfoldable pub delete : Action B (Unit {0})
  delete = do
    session_id ← get_session_id_from_cookie
    set_cookie (record cookie_template { max_age = negsuc 0 })
    p ← alloc zero_session
    ctx_set session_ctx_key (session_at p)
    (if str_eq session_id "" then pure tt else backend_op (session_repo.remove_session session_id))

  abbrev put_loaded : Result ℕ → Action B (Unit {0})
  put_loaded (ok p) = ctx_set session_ctx_key (session_at p)
  put_loaded (err e) = pure tt

  -- The middleware around a handler: an error of `Save` is only logged.
  unfoldable pub middleware : Action B (Unit {0}) → Action B (Unit {0})
  middleware next = do
    loaded ← attempt get
    put_loaded loaded
    answer ← attempt next
    attempt save
    lift answer
