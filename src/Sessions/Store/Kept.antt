-- ===== src/Sessions/Store/Kept.antt =====
-- The session store keeps sessions bounded (sessions/session_store.go).
use renku_gateway.Prelude.{
  ℕ, String, str_eq, eq_iff, ◌≢◌, true, false, ℤ, pos, negsuc, ◌<ℤ◌, +ℤ_parts, arith, Option, none,
  some, Result, ok, err, no_cookie, is_redis_nil, session_not_found, session_expired, ◌≡◌, inl, inr,
  refl, lift, attempt,
}
use renku_gateway.Models.Session.{Session, touch, expired, max_ttl, idle_ttl, seconds}
use renku_gateway.Models.Session.Touch.{InRange, seconds-InRange, touch-le-max}
use renku_gateway.Sessions.Context.{
  CtxValue, session_at, nil_session, token_value, other_value, Action, zero_session, backend_op,
  alloc, read, ctx_get, ctx_set, header_get, header_set, set_cookie,
}
use renku_gateway.Prelude.Keeps.{Any, Tried, chain, return, fail, either, either_by, tried, lifted}
use renku_gateway.Sessions.Keeps.{
  IsBounded, IsBackend, Ensures, InTime, backend, aside, reads, allocates, IsKept,
}
use renku_gateway.Sessions.Store.{
  SessionStore, session_ctx_key, ephemeral, read_clock, from_value, get_from_context,
  cookie_session_id, get_session_id_from_cookie, from_verified, from_token, bearer_token,
  get_from_headers, from_password, get_from_basic_auth, or_missing, load, or_else,
  get_without_context, get, encoded, cookie, create, save, delete, put_loaded, middleware,
}

InRange-positive : (n : ℤ) → InRange n → pos 0 <ℤ n
InRange-positive (pos n) h = omega arith
InRange-positive (negsuc n) h = absurd (omega arith)

touch-expiry :
    (now : ℤ) (s : Session)
    → InRange s.idle_ttl_seconds
    → InRange s.max_ttl_seconds
    → pos 0 <ℤ s.created_at
    → pos 0 <ℤ now
    → pos 0 <ℤ (touch now s).expires_at
unfolding touch max_ttl idle_ttl
touch-expiry now s idle max created h = ground (
  arith,
  seconds-InRange s.idle_ttl_seconds idle,
  seconds-InRange s.max_ttl_seconds max,
  +ℤ_parts now (seconds s.idle_ttl_seconds),
  +ℤ_parts s.created_at (seconds s.max_ttl_seconds),
)

touch-IsBounded : (now : ℤ) (s : Session) → pos 0 <ℤ now → IsBounded s → IsBounded (touch now s)
unfolding touch max_ttl
touch-IsBounded now s h (inl no_id) = inl no_id
touch-IsBounded now s h (inr (idle, max, created, early, _, _)) = inr (
  idle,
  max,
  created,
  early,
  touch-expiry now s idle max created h,
  touch-le-max now s (InRange-positive _ idle) (InRange-positive _ max),
)

named : (id : String) → str_eq id "" ≡ false → id ≢ ""
named id e same = let h : str_eq id "" ≡ true = (eq_iff id "").1 same in cc (e, h)

ephemeral-IsBounded : (now : ℤ) (user_id : String) → IsBounded (ephemeral now user_id)
unfolding ephemeral
ephemeral-IsBounded now user_id = inl refl

module _ {B : Type 0} (Stored : B → Type 0) (sessions : SessionStore B)
    (keeps : IsBackend sessions Stored) where
  open sessions use {cookie_handler, cookie_template, session_repo}

  pub read_clock-kept : Ensures Stored (read_clock sessions) InTime
  read_clock-kept = record {
    after = λ c k. record { held = k.held; stored = keeps.clock c.backend k.stored };
    returns = λ c now k e.
        let same : (sessions.now c.backend).0 ≡ now = cc e in rw (← same) (keeps.in_time c.backend);
  }

  from_value-kept : (v : Option CtxValue) → Ensures Stored (from_value sessions v) Any
  unfolding from_value
  from_value-kept none = fail (IsKept Stored) session_not_found
  from_value-kept (some nil_session) = fail (IsKept Stored) session_not_found
  from_value-kept (some (token_value o)) = fail (IsKept Stored) session_not_found
  from_value-kept (some other_value) = fail (IsKept Stored) session_not_found
  from_value-kept (some (session_at p)) = chain (IsKept Stored) (read p) _ (reads Stored p) λ s _.
      chain (IsKept Stored) (read_clock sessions) _ read_clock-kept λ now _.
        either (IsKept Stored) (expired now s) _ _ (fail (IsKept Stored) session_expired)
          (return (IsKept Stored) p tt)

  get_from_context-kept : Ensures Stored (get_from_context sessions) Any
  unfolding get_from_context
  get_from_context-kept =
      chain (IsKept Stored) (ctx_get session_ctx_key) _ (aside Stored _ (λ c. (refl, refl)))
        λ v _. from_value-kept v

  cookie_session_id-kept : (v : Result String) → Ensures Stored (cookie_session_id sessions v) Any
  cookie_session_id-kept (ok value) = return (IsKept Stored) _ tt
  cookie_session_id-kept (err no_cookie) = return (IsKept Stored) "" tt
  cookie_session_id-kept (err e) = fail (IsKept Stored) e

  get_session_id_from_cookie-kept : Ensures Stored (get_session_id_from_cookie sessions) Any
  unfolding get_session_id_from_cookie
  get_session_id_from_cookie-kept = record {
    after = λ c k. (cookie_session_id-kept c.cookie).after c k;
    returns = λ c a k e. tt;
  }

  from_verified-kept :
      (token : String) (r : Result String) → Ensures Stored (from_verified sessions token r) Any
  from_verified-kept token (err e) = fail (IsKept Stored) session_not_found
  from_verified-kept token (ok user_id) =
      chain (IsKept Stored) (read_clock sessions) _ read_clock-kept λ now _.
        chain (IsKept Stored) (alloc (ephemeral now user_id)) _
          (allocates Stored _ (ephemeral-IsBounded now user_id))
          λ p _.
            chain (IsKept Stored) (ctx_set session_ctx_key (session_at p)) _
              (aside Stored _ (λ c. (refl, refl)))
              λ _ _.
                chain (IsKept Stored) (header_set "Authorization" token) _
                  (aside Stored _ (λ c. (refl, refl))) λ _ _. return (IsKept Stored) p tt

  from_token-kept : (token : String) → Ensures Stored (from_token sessions token) Any
  unfolding from_token
  from_token-kept token =
      chain (IsKept Stored) (attempt (backend_op (sessions.verify_access_token token))) _
        (tried (IsKept Stored) _ (backend Stored _ (keeps.verifies token)))
        λ claims _. from_verified-kept token claims

  get_from_headers-kept : Ensures Stored (get_from_headers sessions) Any
  unfolding get_from_headers
  get_from_headers-kept =
      chain (IsKept Stored) (header_get "Authorization") _ (aside Stored _ (λ c. (refl, refl)))
        λ h _.
          either (IsKept Stored) (str_eq (bearer_token sessions h) "") _ _
            (fail (IsKept Stored) session_not_found) (from_token-kept (bearer_token sessions h))

  from_password-kept :
      (p : Option (String × String)) → Ensures Stored (from_password sessions p) Any
  from_password-kept none = fail (IsKept Stored) session_not_found
  from_password-kept (some (user, password)) = from_token-kept password

  get_from_basic_auth-kept : Ensures Stored (get_from_basic_auth sessions) Any
  unfolding get_from_basic_auth
  get_from_basic_auth-kept =
      chain (IsKept Stored) (header_get "Authorization") _ (aside Stored _ (λ c. (refl, refl)))
        λ h _. from_password-kept (sessions.basic_auth h)

  or_missing-kept :
      (r : Result Session) → Tried IsBounded r → Ensures Stored (or_missing sessions r) IsBounded
  or_missing-kept (ok s) bounded = return (IsKept Stored) s (bounded s refl)
  or_missing-kept (err e) bounded =
      either (IsKept Stored) (is_redis_nil e) _ _ (fail (IsKept Stored) session_not_found)
        (fail (IsKept Stored) e)

  load-kept : (id : String) → Ensures Stored (load sessions id) Any
  unfolding load
  load-kept id =
      chain (IsKept Stored) (attempt (backend_op (session_repo.get_session id))) _
        (tried (IsKept Stored) _ (backend Stored _ (keeps.gets id)))
        λ found bounded.
          chain (IsKept Stored) (or_missing sessions found) _ (or_missing-kept found bounded) λ s b.
            chain (IsKept Stored) (read_clock sessions) _ read_clock-kept λ now _.
              either (IsKept Stored) (expired now s) _ _ (fail (IsKept Stored) session_expired) (
                chain (IsKept Stored) (read_clock sessions) _ read_clock-kept
                  λ later h. allocates Stored (touch later s) (touch-IsBounded later s h.0 b))

  or_else-kept :
      (r : Result ℕ) (m : Action B ℕ)
      → Ensures Stored m Any
      → Ensures Stored (or_else sessions r m) Any
  or_else-kept (ok p) m e = return (IsKept Stored) p tt
  or_else-kept (err x) m e = e

  get_without_context-kept : Ensures Stored (get_without_context sessions) Any
  unfolding get_without_context
  get_without_context-kept =
      chain (IsKept Stored) (get_session_id_from_cookie sessions) _ get_session_id_from_cookie-kept
        λ id _.
          either (IsKept Stored) (str_eq id "") _ _
            (chain (IsKept Stored) (attempt (get_from_headers sessions)) _
              (tried (IsKept Stored) _ get_from_headers-kept)
              λ in_headers _. or_else-kept in_headers _ (
                chain (IsKept Stored) (attempt (get_from_basic_auth sessions)) _
                  (tried (IsKept Stored) _ get_from_basic_auth-kept)
                  λ in_basic _. or_else-kept in_basic _ (fail (IsKept Stored) session_not_found)))
            (load-kept id)

  pub get-kept : Ensures Stored (get sessions) Any
  unfolding get
  get-kept =
      chain (IsKept Stored) (attempt (get_from_context sessions)) _
        (tried (IsKept Stored) _ get_from_context-kept)
        λ in_context _. or_else-kept in_context _ get_without_context-kept

  cookie-kept : (s : Session) → Ensures Stored (cookie sessions s) Any
  unfolding cookie
  cookie-kept s =
      let value = encoded sessions cookie_handler s.id in
      chain (IsKept Stored) (lift value) _ (lifted (IsKept Stored) value (λ v e. tt))
        λ v _. return (IsKept Stored) _ tt

  pub create-kept : Ensures Stored (create sessions) Any
  unfolding create
  create-kept =
      chain (IsKept Stored) (backend_op sessions.new_session) _ (backend Stored _ keeps.makes)
        λ s bounded. chain (IsKept Stored) (cookie sessions s) _ (cookie-kept s) λ k _.
          chain (IsKept Stored) (alloc s) _ (allocates Stored s bounded) λ p _.
            chain (IsKept Stored) (ctx_set session_ctx_key (session_at p)) _
              (aside Stored _ (λ c. (refl, refl)))
              λ _ _.
                chain (IsKept Stored) (set_cookie k) _ (aside Stored _ (λ c. (refl, refl)))
                  λ _ _. return (IsKept Stored) p tt

  pub save-kept : Ensures Stored (save sessions) Any
  unfolding save
  save-kept = chain (IsKept Stored) (get sessions) _ get-kept λ p _.
      chain (IsKept Stored) (read p) _ (reads Stored p) λ s bounded.
        either_by (IsKept Stored) (str_eq s.id "") _ _ (λ e. return (IsKept Stored) tt tt)
          λ e. backend Stored (session_repo.set_session s) (keeps.sets s bounded (named s.id e))

  pub delete-kept : Ensures Stored (delete sessions) Any
  unfolding delete
  delete-kept =
      chain (IsKept Stored) (get_session_id_from_cookie sessions) _ get_session_id_from_cookie-kept
        λ id _.
          chain (IsKept Stored) (set_cookie (record cookie_template { max_age = negsuc 0 })) _
            (aside Stored _ (λ c. (refl, refl)))
            λ _ _.
              chain (IsKept Stored) (alloc zero_session) _
                (allocates Stored zero_session (inl refl))
                λ p _.
                  chain (IsKept Stored) (ctx_set session_ctx_key (session_at p)) _
                    (aside Stored _ (λ c. (refl, refl)))
                    λ _ _.
                      either (IsKept Stored) (str_eq id "") _ _ (return (IsKept Stored) tt tt)
                        (backend Stored (session_repo.remove_session id) (keeps.removes id))

  put_loaded-kept : (r : Result ℕ) → Ensures Stored (put_loaded sessions r) Any
  put_loaded-kept (ok p) = aside Stored _ λ c. (refl, refl)
  put_loaded-kept (err e) = return (IsKept Stored) tt tt

  pub middleware-kept :
      (next : Action B (Unit {0}))
      → Ensures Stored next Any
      → Ensures Stored (middleware sessions next) Any
  unfolding middleware
  middleware-kept next kept =
      chain (IsKept Stored) (attempt (get sessions)) _ (tried (IsKept Stored) _ get-kept)
        λ loaded _.
          chain (IsKept Stored) (put_loaded sessions loaded) _ (put_loaded-kept loaded) λ _ _.
            chain (IsKept Stored) (attempt next) _ (tried (IsKept Stored) _ kept) λ answer _.
              chain (IsKept Stored) (attempt (save sessions)) _ (tried (IsKept Stored) _ save-kept)
                λ _ _. lifted (IsKept Stored) answer λ a e. tt
