-- ===== src/Db/SessionRepo/RoundTrip.antt =====
-- Writing and reading sessions in Redis (db/session_repo_redis.go).
use renku_gateway.Prelude.{
  String, Dict, is_unique, true, pos, ◌+ℤ◌, ◌<ℤ◌, ◌≤ℤ◌, ◌≡◌, ◌≢◌, refl, sym, ap, ◌∙◌, [], ◌∷◌, ◌++◌,
  err, Result-cases, none, some, Result, ok, err, session_not_found, >>=-eq-ok, arith, Option-cases,
  ◌⊎◌, inl, inr,
}
use renku_gateway.Models.Session.{Session}
use renku_gateway.Db.Client.{KeepsHashes, Expires, hash_of}
use renku_gateway.Db.Serialize.{Codec, SessionBack, serialize_session, deserialize_to_struct}
use renku_gateway.Db.TokenRepo.{RedisAdapter, token_expires_at_leeway}
use renku_gateway.Db.SessionRepo.{
  session_key, get_session, set_session, missing_is_session_not_found,
}

-- Both dates of the session have a text form.
abbrev pub IsStorable : Codec → Session → Type 0
IsStorable codec s = (codec.time_text s.created_at ≢ none) × (codec.time_text s.expires_at ≢ none)

-- What `get_session` makes of a hash.
abbrev answer : {R : Type 0} → RedisAdapter R → Result (Dict String) → Result Session
answer r (err e) = err e
answer r (ok h) = missing_is_session_not_found (deserialize_to_struct r.codec.decode_session h)

abbrev session_hash : Codec → Session → String → String → Dict String
session_hash codec s created expires =
    ("ID", s.id)
    ∷ ("CreatedAt", created)
    ∷ ("ExpiresAt", expires)
    ∷ ("IdleTTLSeconds", codec.int_text s.idle_ttl_seconds)
    ∷ ("MaxTTLSeconds", codec.int_text s.max_ttl_seconds)
    ∷ ("UserID", s.user_id)
    ∷ ("TokenIDs", codec.map_text s.token_ids)
    ∷ ("LoginRedirectURL", s.login_redirect_url)
    ∷ ("LoginSequence", codec.slice_text s.login_sequence)
    ∷ ("LoginState", s.login_state)
    ∷ []

hash_of-serialize_session :
    (codec : Codec) (s : Session)
    → IsStorable codec s
    → (h : Dict String) × (hash_of (serialize_session codec s) ≡ some h)
      × (h ≢ [])
      × (is_unique h ≡ true)
unfolding is_unique
hash_of-serialize_session codec s (c, x) =
    by_dates (Option-cases (codec.time_text s.created_at))
      (Option-cases (codec.time_text s.expires_at))
  where
    by_dates :
        (codec.time_text s.created_at ≡ none)
          ⊎ ((t : String) × (codec.time_text s.created_at ≡ some t))
        → (codec.time_text s.expires_at ≡ none)
          ⊎ ((t : String) × (codec.time_text s.expires_at ≡ some t))
        → (h : Dict String) × (hash_of (serialize_session codec s) ≡ some h)
          × (h ≢ [])
          × (is_unique h ≡ true)
    by_dates (inl e) _ = absurd (c e)
    by_dates (inr _) (inl e) = absurd (x e)
    by_dates (inr (t, p)) (inr (u, q)) =
        (session_hash codec s t u, unfold hash_of serialize_session in rw (p, q) refl, cc, refl)

module _ {R : Type 0} (r : RedisAdapter R) (laws : KeepsHashes r.rdb) where
  open laws use {stored, time}

  get_session_of_stored :
      (id : String) (w : R) → get_session r id w ≡ (answer r (stored w (session_key id)), w)
  unfolding get_session
  get_session_of_stored id w = elim (Result-cases (stored w (session_key id))) [
    | inl (h, e) ↦ rw (laws.hget_all_stored (session_key id) w, e) (ground arith)
    | inr (x, e) ↦ rw (laws.hget_all_stored (session_key id) w, e) refl
  ]

  answer-written :
      (s : Session) (h more : Dict String)
      → SessionBack r.codec s
      → hash_of (serialize_session r.codec s) ≡ some h
      → h ≢ []
      → answer r (ok (h ++ more)) ≡ ok s
  unfolding deserialize_to_struct
  answer-written s [] more d q n = absurd (n refl)
  answer-written s (x ∷ h) more d q n = rw (d (x ∷ h) more q) refl

  -- A session that expires in the future is read back, under its ID, as it was written; the sessions
  -- under other keys stay as they were.
  pub get_session-set_session :
      (s : Session) (w w' : R)
      → SessionBack r.codec s
      → IsStorable r.codec s
      → time w <ℤ s.expires_at +ℤ token_expires_at_leeway
      → set_session r s w ≡ (ok tt, w')
      → (get_session r s.id w' ≡ (ok s, w'))
        × ((id : String)
            → session_key s.id ≢ session_key id
            → (get_session r id w').0 ≡ (get_session r id w).0)
  unfolding set_session
  get_session-set_session s w w' d storable future e =
      let (_, t, p, q) =
        >>=-eq-ok (r.rdb.hset (session_key s.id) (serialize_session r.codec s)) _ w e in
      let (h, hashed, not_empty, unique) = hash_of-serialize_session r.codec s storable in
      let future' : time t <ℤ s.expires_at +ℤ token_expires_at_leeway =
        rw (laws.time-hset _ _ w t p) future in
      let (more, there) =
        laws.stored-hset (session_key s.id) (serialize_session r.codec s) h w t hashed unique p in
      (
        get_session_of_stored s.id w'
            ∙ ap (λ x. (x, w'))
                (ap (answer r) (
                    laws.stored-expire_at (session_key s.id) _ t w' (session_key s.id) future' q
                    ∙ there)
                  ∙ answer-written s h more d hashed not_empty),
        λ id other.
            ap (λ x. x.0) (get_session_of_stored id w')
            ∙ ap (answer r) (
                laws.stored-expire_at (session_key s.id) _ t w' (session_key id) future' q
                ∙ laws.stored-hset_other (session_key s.id) (serialize_session r.codec s) w t
                    (session_key id) other p)
            ∙ sym (ap (λ x. x.0) (get_session_of_stored id w)),
      )

  -- A session that is to live forever (the zero expiry date) is deleted as it is saved: `SetSession`
  -- sets the key's expiry to ten seconds after the zero time, and the session is not found again.
  pub forever_session_is_lost :
      Expires r.rdb laws
      → (s : Session) (w w' : R) → s.expires_at ≡ pos 0
      → pos 0 +ℤ token_expires_at_leeway ≤ℤ time w
      → set_session r s w ≡ (ok tt, w')
      → get_session r s.id w' ≡ (err session_not_found, w')
  unfolding set_session deserialize_to_struct
  forever_session_is_lost expires s w w' zero past e =
      let (_, t, p, q) =
        >>=-eq-ok (r.rdb.hset (session_key s.id) (serialize_session r.codec s)) _ w e in
      get_session_of_stored s.id w'
      ∙ ap (λ h. (answer r h, w'))
          (expires (session_key s.id) _ t w' (rw (laws.time-hset _ _ w t p, zero) past) q)
