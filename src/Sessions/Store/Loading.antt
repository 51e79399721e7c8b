-- ===== src/Sessions/Store/Loading.antt =====
-- Where `Get` finds the session of a request (sessions/session_store.go).
use renku_gateway.Prelude.{
  ℕ, String, ℤ, false, lookup, Option, none, some, ◌≡◌, ◌≢◌, ◌∙◌, ap, refl, Result-cases, inl, inr,
  ok, err, session_parse, arith,
}
use renku_gateway.Models.Session.{Session, expired}
use renku_gateway.Sessions.Context.{
  Cookie, Context, CtxValue, nil_session, token_value, other_value, session_at,
}
use renku_gateway.Sessions.Store.{
  SessionStore, CookieHandler, session_ctx_key, session_cookie_name, get, get_from_context,
  get_session_id_from_cookie, cookie, decoded, encoded, from_value,
}

-- What a cookie handler promises: a value that it has encoded decodes to that value.
abbrev pub IsFaithful : Option CookieHandler → Type 0
IsFaithful none = Unit
IsFaithful (some h) = (name v w : String) → h.encode name v ≡ ok w → h.decode name w ≡ ok v

module _ {B : Type 0} (sessions : SessionStore B) where
  open sessions use {cookie_handler, session_repo}

  decoded-encoded :
      (h : Option CookieHandler) (id value : String)
      → IsFaithful h
      → encoded sessions h id ≡ ok value
      → decoded sessions h value ≡ id
  decoded-encoded none id value f e = ground arith
  decoded-encoded (some h) id value f e = rw (f session_cookie_name id value e) refl

  from_value-ne-session_parse :
      (v : Option CtxValue) (c : Context B) → (from_value sessions v c).0 ≢ err session_parse
  unfolding from_value
  from_value-ne-session_parse none c = cc
  from_value-ne-session_parse (some nil_session) c = cc
  from_value-ne-session_parse (some (token_value o)) c = cc
  from_value-ne-session_parse (some other_value) c = cc
  from_value-ne-session_parse (some (session_at p)) c = ground arith

  -- A session in the context that has not expired is returned as the same pointer, whatever the
  -- request's cookie and headers say, and only the clock is read.
  pub get_in_context :
      (p : ℕ) (now : ℤ) (c : Context B) (b : B)
      → lookup session_ctx_key c.store ≡ some (session_at p)
      → sessions.now c.backend ≡ (now, b)
      → expired now (c.heap p) ≡ false
      → get sessions c ≡ (ok p, record c { backend = b })
  unfolding get
  get_in_context p now c b in_store clock live = rw (in_store, clock, live) refl

  -- The session ID that is read from a cookie which `Create` has made is the session's.
  pub get_session_id-cookie :
      (session : Session) (k : Cookie) (c c' d : Context B)
      → IsFaithful cookie_handler
      → cookie sessions session c ≡ (ok k, c')
      → d.cookie ≡ ok k.value
      → get_session_id_from_cookie sessions d ≡ (ok session.id, d)
  unfolding cookie get_session_id_from_cookie
  get_session_id-cookie session k c c' d f made sent =
      elim (Result-cases (encoded sessions cookie_handler session.id)) [
        | inr (e, bad) ↦ absurd (ground arith)
        | inl (v, good) ↦
            let same : v ≡ k.value = ground arith in
            rw (sent, decoded-encoded cookie_handler session.id k.value f (good ∙ ap ok same)) refl
      ]

  -- An error of the type `ErrSessionParse` never comes back from the context.
  pub get_from_context-ne-session_parse :
      (c : Context B) → (get_from_context sessions c).0 ≢ err session_parse
  unfolding get_from_context
  get_from_context-ne-session_parse c =
      from_value-ne-session_parse (lookup session_ctx_key c.store) c
