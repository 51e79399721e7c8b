-- ===== src/Sessions/Tokens.antt =====
-- sessions/token_handling.go
pub mod Saved
pub mod Kept
use renku_gateway.Prelude.{
  ℕ, String, ◌+++◌, ℤ, not, Dict, lookup, insert, Option, none, some, Result, ok, err, Error,
  token_not_found, token_parse, token_expired, token_type, is_redis_nil, Exec, pure, raise, lift,
  attempt, ◌>>=◌, ◌>>◌, if◌then◌else◌,
}
use renku_gateway.Models.Token.{AuthToken, expired}
use renku_gateway.Models.TokenSet.{AuthTokenSet, is_access, validate_tokens_type}
use renku_gateway.Models.Session.{Session}
use renku_gateway.Sessions.Context.{
  CtxValue, session_at, nil_session, token_value, other_value, Action, backend_op, read, write,
  ctx_get,
}
use renku_gateway.Sessions.Store.{SessionStore, read_clock}

unfoldable pub access_token_key : String → String
access_token_key token_id = "access_token" +++ (":" +++ token_id)

unfoldable pub refresh_token_key : String → String
refresh_token_key token_id = "refresh_token" +++ (":" +++ token_id)

unfoldable pub id_token_key : String → String
id_token_key token_id = "id_token" +++ (":" +++ token_id)

module _ {B : Type 0} (sessions : SessionStore B) where
  open sessions use {token_store}

  -- Whatever the key, only a token of the access type is accepted.
  from_value : Option CtxValue → Action B AuthToken
  from_value none = raise token_not_found
  from_value (some nil_session) = raise token_parse
  from_value (some (session_at p)) = raise token_parse
  from_value (some other_value) = raise token_parse
  from_value (some (token_value token)) = do
    now ← read_clock sessions
    (if expired now token
        then raise token_expired
        else if not (is_access token.type)
        then raise token_type
        else pure token)

  unfoldable pub get_auth_token_from_context : String → Action B AuthToken
  unfolding from_value
  get_auth_token_from_context key = do token_raw ← ctx_get key; from_value token_raw

  unfoldable pub get_access_token_from_context : String → Action B AuthToken
  get_access_token_from_context token_id = get_auth_token_from_context (access_token_key token_id)

  unfoldable pub get_refresh_token_from_context : String → Action B AuthToken
  get_refresh_token_from_context token_id = get_auth_token_from_context (refresh_token_key token_id)

  unfoldable pub get_id_token_from_context : String → Action B AuthToken
  get_id_token_from_context token_id = get_auth_token_from_context (id_token_key token_id)

  abbrev from_store : Result AuthToken → Action B AuthToken
  from_store (err e) = if is_redis_nil e then raise token_not_found else raise e
  from_store (ok token) = do
    now ← read_clock sessions
    (if expired now token then raise token_expired else pure token)

  abbrev cached_or : Result AuthToken → Exec B AuthToken → Action B AuthToken
  cached_or (ok token) load = pure token
  cached_or (err e) load = do stored ← attempt (backend_op load); from_store stored

  -- The three getters differ in the two places where they look.
  abbrev with_token_id :
      (String → Action B AuthToken)
      → (String → Exec B AuthToken)
      → Option String
      → Action B AuthToken
  with_token_id in_context load none = raise token_not_found
  with_token_id in_context load (some token_id) = do
    cached ← attempt (in_context token_id)
    cached_or cached (load token_id)

  unfoldable pub get_access_token : Session → String → Action B AuthToken
  get_access_token session provider_id =
      with_token_id get_access_token_from_context token_store.get_fresh_access_token
        (lookup provider_id session.token_ids)

  unfoldable pub get_refresh_token : Session → String → Action B AuthToken
  get_refresh_token session provider_id =
      with_token_id get_refresh_token_from_context token_store.get_refresh_token
        (lookup provider_id session.token_ids)

  unfoldable pub get_id_token : Session → String → Action B AuthToken
  get_id_token session provider_id =
      with_token_id get_id_token_from_context token_store.get_fresh_id_token
        (lookup provider_id session.token_ids)

  abbrev with_token : AuthTokenSet → Session → Session
  with_token tokens session = record session {
    token_ids = insert tokens.access_token.provider_id tokens.access_token.id session.token_ids;
  }

  -- The session is changed through its pointer, before the tokens are written.
  unfoldable pub save_tokens : ℕ → AuthTokenSet → Action B (Unit {0})
  save_tokens p tokens = do
    lift (validate_tokens_type tokens)
    session ← read p
    write p (with_token tokens session)
    backend_op (token_store.set_access_token tokens.access_token)
    backend_op (token_store.set_refresh_token tokens.refresh_token)
    backend_op (token_store.set_id_token tokens.id_token)
