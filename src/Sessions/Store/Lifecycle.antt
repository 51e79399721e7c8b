-- ===== src/Sessions/Store/Lifecycle.antt =====
-- A session from `Create` over `Save` to `Delete` (sessions/session_store.go).
use renku_gateway.Prelude.{
  ℕ, String, str_eq, eq_iff, ==_refl, ℤ, true, false, Bool-cases, ◌⊎◌, lookup, insert,
  lookup-insert, none, some, ◌≡◌, ap, ◌∙◌, refl, Result, Result-cases, if◌then◌else◌, inl, inr,
  trim_prefix, ok, err, session_not_found, no_cookie, >>=-eq-ok, arith,
}
use renku_gateway.Models.Session.{expired}
use renku_gateway.Sessions.Context.{Context, session_at, Action, backend_op, zero_session}
use renku_gateway.Sessions.Store.{
  SessionStore, session_ctx_key, get, get_session_id_from_cookie, cookie, create, save, delete,
  middleware, cookie_session_id,
}
use renku_gateway.Sessions.Store.Loading.{get_in_context}

module _ {B : Type 0} (sessions : SessionStore B) where
  open sessions use {session_repo}

  -- An ephemeral session, without an ID, is not saved: `Save` does only what `Get` does.
  pub save_ephemeral :
      (p : ℕ) (c c' : Context B)
      → get sessions c ≡ (ok p, c')
      → (c'.heap p).id ≡ ""
      → save sessions c ≡ (ok tt, c')
  unfolding save
  save_ephemeral p c c' found no_id = rw (found, no_id) refl

  -- A session with an ID is written to the repository as it stands behind its pointer.
  pub save_stored :
      (p : ℕ) (c c' : Context B)
      → get sessions c ≡ (ok p, c')
      → str_eq (c'.heap p).id "" ≡ false
      → save sessions c ≡ (
        (session_repo.set_session (c'.heap p) c'.backend).0,
        record c' { backend = (session_repo.set_session (c'.heap p) c'.backend).1 },
      )
  unfolding save
  save_stored p c c' found has_id = rw (found, has_id) refl

  -- The context after `Delete`, whatever the repository answered.
  pub delete_context :
      (id : String) (c : Context B)
      → get_session_id_from_cookie sessions c ≡ (ok id, c)
      → (lookup session_ctx_key (delete sessions c).1.store ≡ some (session_at c.next_ref))
        × ((delete sessions c).1.heap c.next_ref ≡ zero_session)
  unfolding delete
  delete_context id c read_id = elim (Bool-cases (str_eq id "")) [
    | inl none_sent ↦ rw (read_id, none_sent) (simp lookup-insert, simp ==_refl)
    | inr sent ↦ rw (read_id, sent) (simp lookup-insert, simp ==_refl)
  ]

  -- Reading the cookie changes nothing.
  cookie_read :
      (r : Result String) (c : Context B) (id : String) (t : Context B)
      → cookie_session_id sessions r c ≡ (ok id, t)
      → cookie_session_id sessions r c ≡ (ok id, c)
  cookie_read (ok v) c id t e = ground arith
  cookie_read (err no_cookie) c id t e = ground arith
  cookie_read (err x) c id t e = ground arith

  pub delete-eq-ok :
      (c c' : Context B)
      → delete sessions c ≡ (ok tt, c')
      → (id : String) × (get_session_id_from_cookie sessions c ≡ (ok id, c))
  unfolding delete get_session_id_from_cookie
  delete-eq-ok c c' e =
      let (id, t, p, _) = >>=-eq-ok (get_session_id_from_cookie sessions) _ c e in
      (id, cookie_read c.cookie c id t p)

  -- A `Delete` that succeeds has removed the session of the cookie from the repository, at the end.
  pub delete-removed :
      (id : String) (c d e : Context B)
      → get_session_id_from_cookie sessions c ≡ (ok id, c)
      → delete sessions c ≡ (ok tt, d)
      → d ≡ e
      → (id ≡ "") ⊎ (session_repo.remove_session id c.backend ≡ (ok tt, e.backend))
  unfolding delete
  delete-removed id c d e read_id done same = elim (Bool-cases (str_eq id "")) [
    | inl none_sent ↦ inl (ground (arith, eq_iff id ""))
    | inr sent ↦
        let removed = rw (read_id, sent) at done in
        inr (ap (λ x. (x.0, x.1.backend)) removed ∙ ap (λ x. (ok tt, x.backend)) same)
  ]

  -- After `Delete` the `Save` of the session middleware writes nothing, so that it does not bring
  -- the session back: it reads the clock, finds the empty session, and succeeds.
  pub save-delete :
      (id : String) (now : ℤ) (c : Context B) (b : B)
      → get_session_id_from_cookie sessions c ≡ (ok id, c)
      → sessions.now (delete sessions c).1.backend ≡ (now, b)
      → save sessions (delete sessions c).1 ≡ (ok tt, record (delete sessions c).1 { backend = b })
  save-delete id now c b read_id clock =
      let (in_store, empty) = delete_context id c read_id in
      save_ephemeral c.next_ref (delete sessions c).1 (record (delete sessions c).1 { backend = b })
        (get_in_context sessions c.next_ref now (delete sessions c).1 b in_store clock
          (unfold expired in rw empty refl))
        (ap (λ s. s.id) empty)

  -- What `Create` leaves in the context.
  create_in_context :
      (p : ℕ) (c c' : Context B)
      → create sessions c ≡ (ok p, c')
      → lookup session_ctx_key c'.store ≡ some (session_at p)
  unfolding create cookie
  create_in_context p c c' e =
      let (s, c₁, p₁, e₁) = >>=-eq-ok (backend_op sessions.new_session) _ c e in
      let (k, c₂, p₂, e₂) = >>=-eq-ok (cookie sessions s) _ c₁ e₁ in
      let same_ref : c₂.next_ref ≡ p = ground arith in
      let same_store : insert session_ctx_key (session_at c₂.next_ref) c₂.store ≡ c'.store =
        ap (λ x. x.1.store) e₂ in
      rw (← same_store, ← same_ref) (simp lookup-insert)

  -- The session that `Create` has made is the one that `Get` then returns, while it has not expired.
  pub get-create :
      (p : ℕ) (now : ℤ) (c c' : Context B) (b : B)
      → create sessions c ≡ (ok p, c')
      → sessions.now c'.backend ≡ (now, b)
      → expired now (c'.heap p) ≡ false
      → get sessions c' ≡ (ok p, record c' { backend = b })
  get-create p now c c' b made clock live =
      get_in_context sessions p now c' b (create_in_context p c c' made) clock live

  -- A session that has expired as soon as it is made, as `NewSession` makes it when there is no
  -- maximum TTL, is never saved: for a request with neither a cookie nor credentials `Save` finds no
  -- session, and nothing but the clock is touched.
  pub save-create-expired :
      (p : ℕ) (now : ℤ) (c c' : Context B) (b : B)
      → create sessions c ≡ (ok p, c')
      → sessions.now c'.backend ≡ (now, b)
      → expired now (c'.heap p) ≡ true
      → c'.cookie ≡ err no_cookie
      → lookup "Authorization" c'.headers ≡ none
      → sessions.basic_auth "" ≡ none
      → save sessions c' ≡ (err session_not_found, record c' { backend = b })
  unfolding save get trim_prefix
  save-create-expired p now c c' b made clock dead no_cookie_sent no_header no_basic =
      rw
        (create_in_context p c c' made, clock, dead, no_cookie_sent, no_header, no_header, no_basic)
        refl

  -- The context in which the handler of the session middleware starts.
  abbrev with_loaded : Result ℕ × Context B → Context B
  with_loaded (ok p, c) = record c { store = insert session_ctx_key (session_at p) c.store }
  with_loaded (err e, c) = c

  abbrev pub entered : Context B → Context B
  entered c = with_loaded (get sessions c)

  middleware_run :
      (next : Action B (Unit {0})) (c : Context B)
      → middleware sessions next c ≡ ((next (entered c)).0, (save sessions (next (entered c)).1).1)
  unfolding middleware
  middleware_run next c = elim (Result-cases (get sessions c).0) [
    | inl (p, found) ↦ rw found refl
    | inr (e, missing) ↦ rw missing refl
  ]

  -- Whatever the handler does, and whether or not a session could be loaded for it, the session
  -- middleware passes on its answer, errors included. The session behind the context's pointer at
  -- the end, loaded or made by the handler, is written to the repository as the handler has left
  -- it, if it has not expired and has an ID; without an ID nothing is written.
  pub middleware-saves :
      (next : Action B (Unit {0})) (c : Context B)
      → let d = (next (entered c)).1 in
        ((middleware sessions next c).0 ≡ (next (entered c)).0)
        × ((p : ℕ) (now : ℤ) (b : B)
            → lookup session_ctx_key d.store ≡ some (session_at p)
            → sessions.now d.backend ≡ (now, b)
            → expired now (d.heap p) ≡ false
            → (middleware sessions next c).1 ≡ record d {
              backend =
                  if str_eq (d.heap p).id "" then b else (session_repo.set_session (d.heap p) b).1;
            })
  middleware-saves next c =
      let d = (next (entered c)).1 in
      (
        ap (λ x. x.0) (middleware_run next c),
        λ p now b in_store clock live.
            let found = get_in_context sessions p now d b in_store clock live in
            ap (λ x. x.1) (middleware_run next c) ∙ elim (Bool-cases (str_eq (d.heap p).id "")) [
              | inl no_id ↦
                  ap (λ x. x.1)
                    (save_ephemeral p d (record d { backend = b }) found
                      (ground (arith, eq_iff (d.heap p).id "")))
                  ∙ rw no_id refl
              | inr has_id ↦
                  ap (λ x. x.1) (save_stored p d (record d { backend = b }) found has_id)
                  ∙ rw has_id refl
            ],
      )
