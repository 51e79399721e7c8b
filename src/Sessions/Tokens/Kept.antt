-- ===== src/Sessions/Tokens/Kept.antt =====
-- Loading and saving tokens keeps sessions bounded (sessions/token_handling.go).
use renku_gateway.Prelude.{
  ℕ, String, not, lookup, Option, none, some, Result, ok, err, token_not_found, token_parse,
  token_expired, token_type, is_redis_nil, refl, Exec, pure, raise, lift, attempt, ◌>>=◌,
  if◌then◌else◌,
}
use renku_gateway.Models.Token.{AuthToken, expired}
use renku_gateway.Models.TokenSet.{AuthTokenSet, is_access, validate_tokens_type}
use renku_gateway.Models.Session.{Session, max_ttl}
use renku_gateway.Sessions.Context.{
  CtxValue, session_at, nil_session, token_value, other_value, Action, backend_op, read, write,
  ctx_get,
}
use renku_gateway.Prelude.Keeps.{Keeps, Any, chain, return, fail, either, tried, lifted}
use renku_gateway.Sessions.Keeps.{IsBackend, Ensures, backend, aside, reads, writes, IsKept}
use renku_gateway.Sessions.Store.{SessionStore, read_clock}
use renku_gateway.Sessions.Store.Kept.{read_clock-kept}
use renku_gateway.Sessions.Tokens.{
  from_value, get_auth_token_from_context, get_access_token_from_context,
  get_refresh_token_from_context, get_id_token_from_context, from_store, cached_or, with_token_id,
  get_access_token, get_refresh_token, get_id_token, with_token, save_tokens,
}

module _ {B : Type 0} (Stored : B → Type 0) (sessions : SessionStore B)
    (keeps : IsBackend sessions Stored) where
  open sessions use {token_store}

  unexpired_kept :
      (token : AuthToken) (m n : AuthToken → Action B AuthToken)
      → Ensures Stored (m token) Any
      → Ensures Stored (n token) Any
      → Ensures Stored
          (read_clock sessions >>= λ now. if expired now token then m token else n token)
          Any
  unexpired_kept token m n kept_m kept_n =
      chain (IsKept Stored) (read_clock sessions) _ (read_clock-kept Stored sessions keeps)
        λ now _. either (IsKept Stored) (expired now token) _ _ kept_m kept_n

  from_value-kept : (v : Option CtxValue) → Ensures Stored (from_value sessions v) Any
  unfolding from_value
  from_value-kept none = fail (IsKept Stored) token_not_found
  from_value-kept (some nil_session) = fail (IsKept Stored) token_parse
  from_value-kept (some (session_at p)) = fail (IsKept Stored) token_parse
  from_value-kept (some other_value) = fail (IsKept Stored) token_parse
  from_value-kept (some (token_value token)) =
      unexpired_kept token (λ t. raise token_expired)
        (λ t. if not (is_access t.type) then raise token_type else pure t)
        (fail (IsKept Stored) token_expired)
        (either (IsKept Stored) (not (is_access token.type)) _ _ (fail (IsKept Stored) token_type)
          (return (IsKept Stored) token tt))

  get_auth_token_from_context-kept :
      (key : String) → Ensures Stored (get_auth_token_from_context sessions key) Any
  unfolding get_auth_token_from_context
  get_auth_token_from_context-kept key =
      chain (IsKept Stored) (ctx_get key) _ (aside Stored _ (λ c. (refl, refl)))
        λ v _. from_value-kept v

  from_store-kept : (r : Result AuthToken) → Ensures Stored (from_store sessions r) Any
  from_store-kept (err e) =
      either (IsKept Stored) (is_redis_nil e) _ _ (fail (IsKept Stored) token_not_found)
        (fail (IsKept Stored) e)
  from_store-kept (ok token) =
      unexpired_kept token (λ t. raise token_expired) (λ t. pure t)
        (fail (IsKept Stored) token_expired) (return (IsKept Stored) token tt)

  cached_or-kept :
      (r : Result AuthToken) (load : Exec B AuthToken)
      → Keeps Stored load Any
      → Ensures Stored (cached_or sessions r load) Any
  cached_or-kept (ok token) load kept = return (IsKept Stored) token tt
  cached_or-kept (err e) load kept =
      chain (IsKept Stored) (attempt (backend_op load)) _
        (tried (IsKept Stored) _ (backend Stored load kept)) λ stored _. from_store-kept stored

  with_token_id-kept :
      (in_context : String → Action B AuthToken) (load : String → Exec B AuthToken)
      (id : Option String)
      → ((id : String) → Ensures Stored (in_context id) Any)
      → ((id : String) → Keeps Stored (load id) Any)
      → Ensures Stored (with_token_id sessions in_context load id) Any
  with_token_id-kept in_context load none context_kept load_kept =
      fail (IsKept Stored) token_not_found
  with_token_id-kept in_context load (some id) context_kept load_kept =
      chain (IsKept Stored) (attempt (in_context id)) _ (tried (IsKept Stored) _ (context_kept id))
        λ cached _. cached_or-kept cached (load id) (load_kept id)

  pub get_access_token-kept :
      (s : Session) (provider_id : String)
      → Ensures Stored (get_access_token sessions s provider_id) Any
  unfolding get_access_token get_access_token_from_context
  get_access_token-kept s provider_id =
      with_token_id-kept _ _ (lookup provider_id s.token_ids)
        (λ id. get_auth_token_from_context-kept _) keeps.gets_access

  pub get_refresh_token-kept :
      (s : Session) (provider_id : String)
      → Ensures Stored (get_refresh_token sessions s provider_id) Any
  unfolding get_refresh_token get_refresh_token_from_context
  get_refresh_token-kept s provider_id =
      with_token_id-kept _ _ (lookup provider_id s.token_ids)
        (λ id. get_auth_token_from_context-kept _) keeps.gets_refresh

  pub get_id_token-kept :
      (s : Session) (provider_id : String)
      → Ensures Stored (get_id_token sessions s provider_id) Any
  unfolding get_id_token get_id_token_from_context
  get_id_token-kept s provider_id =
      with_token_id-kept _ _ (lookup provider_id s.token_ids)
        (λ id. get_auth_token_from_context-kept _) keeps.gets_id

  pub save_tokens-kept :
      (p : ℕ) (tokens : AuthTokenSet) → Ensures Stored (save_tokens sessions p tokens) Any
  unfolding save_tokens max_ttl
  save_tokens-kept p tokens =
      let valid = validate_tokens_type tokens in
      chain (IsKept Stored) (lift valid) _ (lifted (IsKept Stored) valid (λ v e. tt)) λ _ _.
        chain (IsKept Stored) (read p) _ (reads Stored p) λ s bounded.
          chain (IsKept Stored) (write p (with_token sessions tokens s)) _
            (writes Stored p _ bounded)
            λ _ _.
              chain (IsKept Stored) (backend_op (token_store.set_access_token tokens.access_token))
                _ (backend Stored _ (keeps.sets_access tokens.access_token))
                λ _ _.
                  chain (IsKept Stored)
                    (backend_op (token_store.set_refresh_token tokens.refresh_token)) _
                    (backend Stored _ (keeps.sets_refresh tokens.refresh_token))
                    λ _ _. backend Stored _ (keeps.sets_id tokens.id_token)
