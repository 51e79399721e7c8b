-- ===== src/TokenStore/Refresh.antt =====
-- A refresh over the Redis adapter (tokenstore/token_store.go over db/token_repo_redis.go).
use renku_gateway.Prelude.{
  ◌>>◌, ◌>>=◌, String, ℤ, ◌≡◌, ◌≢◌, inl, inr, sym, refl, ap, ◌∙◌, true, false, Bool-cases, ok, Exec,
  pure, >>=-eq-ok, arith,
}
use renku_gateway.Models.Token.{AuthToken, access_token_type, refresh_token_type, id_token_type}
use renku_gateway.Models.Token.Encryption.{IsFaithful}
use renku_gateway.Models.TokenSet.{AuthTokenSet}
use renku_gateway.Db.Client.{KeepsHashes}
use renku_gateway.Db.TokenRepo.{
  RedisAdapter, get_token_key, get_auth_token, set_auth_token, validate_token_type,
  access_token_key, refresh_token_key, id_token_key,
}
use renku_gateway.Db.TokenRepo
use renku_gateway.Db.TokenRepo.Keys.{get_token_key_injective}
use renku_gateway.Db.TokenRepo.RoundTrip.{
  IsStorable, get_auth_token-set_auth_token, time-set_auth_token,
}
use renku_gateway.TokenStore.{
  save_fresh, save_fresh_id, TokenStore, in_place, is_absent, refresh_access_token,
}
use renku_gateway.TokenStore.Redis.{
  redis_repository, set_access_token_typed, set_refresh_token_typed, set_id_token_typed,
  key_of_access, key_of_refresh, key_of_id, in_place-ids,
}

module _ {R : Type 0} (r : RedisAdapter R) (laws : KeepsHashes r.rdb)
    (f : IsFaithful r.encryptor) where
  open laws use {time}

  -- What one write leaves: the token at its key, every token at another key, and the time.
  written :
      (o : AuthToken) (w w' : R)
      → IsStorable r.codec (time w) o
      → set_auth_token r o w ≡ (ok tt, w')
      → ((get_auth_token r (get_token_key o) w').0 ≡ ok o)
        × ((key : String)
            → get_token_key o ≢ key
            → (get_auth_token r key w').0 ≡ (get_auth_token r key w).0)
        × (time w' ≡ time w)
  written o w w' h e =
      let (here, other) = get_auth_token-set_auth_token r laws o w w' f h e in
      (ap (λ x. x.0) here, other, time-set_auth_token r laws o w w' e)

  get_token_key_ne :
      (o p : AuthToken)
      → validate_token_type o.type ≡ ok tt
      → validate_token_type p.type ≡ ok tt
      → o.type ≢ p.type
      → get_token_key o ≢ get_token_key p
  get_token_key_ne o p h k n e = n (get_token_key_injective o p h k e).0

  -- The lookups by type find the tokens of the set under their keys.
  pub record IsKept (s : AuthTokenSet) (w : R) : Type 0 where
    pub access : (get_auth_token r (access_token_key s.access_token.id) w).0 ≡ ok s.access_token
    pub refresh : (get_auth_token r (refresh_token_key s.refresh_token.id) w).0 ≡ ok s.refresh_token
    pub id :
        is_absent s.id_token ≡ false
        → (get_auth_token r (id_token_key s.id_token.id) w).0 ≡ ok s.id_token

  -- The three writes of a refresh, one after the other; without an ID token there are two.
  writes_kept :
      (a b : AuthToken) (w₁ w₂ w₃ : R)
      → a.type ≡ access_token_type
      → b.type ≡ refresh_token_type
      → IsStorable r.codec (time w₁) a
      → IsStorable r.codec (time w₁) b
      → set_auth_token r a w₁ ≡ (ok tt, w₂)
      → set_auth_token r b w₂ ≡ (ok tt, w₃)
      → ((get_auth_token r (get_token_key a) w₃).0 ≡ ok a)
        × ((get_auth_token r (get_token_key b) w₃).0 ≡ ok b)
        × (time w₃ ≡ time w₁)
  unfolding validate_token_type
  writes_kept a b w₁ w₂ w₃ at bt ha hb ea eb =
      let (here_a, _, time_a) = written a w₁ w₂ ha ea in
      let (here_b, other_b, time_b) = written b w₂ w₃ (rw time_a hb) eb in
      (
        other_b (get_token_key a) (get_token_key_ne b a (rw bt refl) (rw at refl) (rw (at, bt) cc))
            ∙ here_a,
        here_b,
        time_b ∙ time_a,
      )

  abbrev pub over_redis : ℤ → (AuthToken → Exec R AuthTokenSet) → (R → ℤ × R) → TokenStore R
  over_redis margin refresh now = record {
    expiry_margin = margin;
    refresh = refresh;
    token_repo = redis_repository r;
    now = now;
  }

  at_key :
      (w : R) {k j : String} {o : AuthToken}
      → k ≡ j
      → (get_auth_token r j w).0 ≡ ok o
      → (get_auth_token r k w).0 ≡ ok o
  at_key w e h = ap (λ x. (get_auth_token r x w).0) e ∙ h

  absent-IsKept :
      (n : AuthTokenSet) (w w₁ w₂ : R)
      → n.access_token.type ≡ access_token_type
      → n.refresh_token.type ≡ refresh_token_type
      → is_absent n.id_token ≡ true
      → IsStorable r.codec (time w₂) n.access_token
      → IsStorable r.codec (time w₂) n.refresh_token
      → set_auth_token r n.access_token w ≡ (ok tt, w₁)
      → set_auth_token r n.refresh_token w₁ ≡ (ok tt, w₂)
      → IsKept n w₂
  absent-IsKept n w w₁ w₂ at bt gone ha hb pa pb =
      let start : time w₂ ≡ time w =
        time-set_auth_token r laws n.refresh_token w₁ w₂ pb
        ∙ time-set_auth_token r laws n.access_token w w₁ pa in
      let (here_a, here_b, _) =
        writes_kept n.access_token n.refresh_token w w₁ w₂ at bt (rw start at ha) (rw start at hb)
          pa pb in
      record {
        access = at_key w₂ (sym (key_of_access n.access_token at)) here_a;
        refresh = at_key w₂ (sym (key_of_refresh n.refresh_token bt)) here_b;
        id = λ there. cc (gone, there);
      }

  present-IsKept :
      (a b c : AuthToken) (w w₁ w₂ w₃ : R)
      → set_auth_token r a w ≡ (ok tt, w₁)
      → set_auth_token r b w₁ ≡ (ok tt, w₂)
      → set_auth_token r c w₂ ≡ (ok tt, w₃)
      → (a.type ≡ access_token_type) × (b.type ≡ refresh_token_type) × (c.type ≡ id_token_type)
      → IsStorable r.codec (time w₃) a
      → IsStorable r.codec (time w₃) b
      → IsStorable r.codec (time w₃) c
      → IsKept (record { access_token = a; refresh_token = b; id_token = c }) w₃
  unfolding validate_token_type
  present-IsKept a b c w w₁ w₂ w₃ pa pb pc (at, bt, ct) ha hb hc =
      let time_ab = time-set_auth_token r laws b w₁ w₂ pb ∙ time-set_auth_token r laws a w w₁ pa in
      let time_c = time-set_auth_token r laws c w₂ w₃ pc in
      let (here_a, here_b, _) =
        writes_kept a b w w₁ w₂ at bt (rw (time_c ∙ time_ab) at ha) (rw (time_c ∙ time_ab) at hb) pa
          pb in
      let (here_c, other_c, _) = written c w₂ w₃ (rw time_c at hc) pc in
      let c≢a : get_token_key c ≢ get_token_key a =
        get_token_key_ne c a (rw ct refl) (rw at refl) (rw (at, ct) cc) in
      let c≢b : get_token_key c ≢ get_token_key b =
        get_token_key_ne c b (rw ct refl) (rw bt refl) (rw (bt, ct) cc) in
      record {
        access = at_key w₃ (sym (key_of_access a at)) (other_c (get_token_key a) c≢a ∙ here_a);
        refresh = at_key w₃ (sym (key_of_refresh b bt)) (other_c (get_token_key b) c≢b ∙ here_b);
        id = λ _. at_key w₃ (sym (key_of_id c ct)) here_c;
      }

  tail-IsKept :
      (margin : ℤ) (refresh : AuthToken → Exec R AuthTokenSet) (now : R → ℤ × R) (n : AuthTokenSet)
      (w w₁ w₂ w₃ : R)
      → set_auth_token r n.access_token w ≡ (ok tt, w₁)
      → set_auth_token r n.refresh_token w₁ ≡ (ok tt, w₂)
      → save_fresh_id (over_redis margin refresh now) n.id_token w₂ ≡ (ok tt, w₃)
      → n.access_token.type ≡ access_token_type
      → n.refresh_token.type ≡ refresh_token_type
      → IsStorable r.codec (time w₃) n.access_token
      → IsStorable r.codec (time w₃) n.refresh_token
      → (is_absent n.id_token ≡ false → IsStorable r.codec (time w₃) n.id_token)
      → IsKept n w₃
  unfolding save_fresh_id redis_repository
  tail-IsKept margin refresh now n w w₁ w₂ w₃ pa pb pc at bt ha hb hc =
      elim (Bool-cases (is_absent n.id_token)) [
        | inl gone ↦
            let last : w₂ ≡ w₃ = ap (λ x. x.1) (rw gone at pc) in
            absent-IsKept n w w₁ w₃ at bt gone ha hb pa (rw last at pb)
        | inr there ↦
            let (ct, set_c) = set_id_token_typed r n.id_token w₂ w₃ (rw there at pc) in
            present-IsKept n.access_token n.refresh_token n.id_token w w₁ w₂ w₃ pa pb set_c
              (at, bt, ct) ha hb (hc there)
      ]

  -- The writes of a set, and what the lookups of their keys then give.
  save_fresh-stored :
      (margin : ℤ) (refresh : AuthToken → Exec R AuthTokenSet) (now : R → ℤ × R)
      (n s : AuthTokenSet) (w w' : R)
      → save_fresh (over_redis margin refresh now) n w ≡ (ok s, w')
      → IsStorable r.codec (time w') s.access_token
      → IsStorable r.codec (time w') s.refresh_token
      → (is_absent s.id_token ≡ false → IsStorable r.codec (time w') s.id_token)
      → (n ≡ s) × IsKept s w'
  unfolding save_fresh redis_repository validate_token_type
  save_fresh-stored margin refresh now n s w w' e ha hb hc =
      let save_id : AuthToken → Exec R (Unit {0}) = save_fresh_id (over_redis margin refresh now) in
      let (_, w₁, p₁, e₁) =
        >>=-eq-ok (TokenRepo.set_access_token r n.access_token)
          (λ _. TokenRepo.set_refresh_token r n.refresh_token >> (save_id n.id_token >> pure n)) w
          e in
      let (_, w₂, p₂, e₂) =
        >>=-eq-ok (TokenRepo.set_refresh_token r n.refresh_token)
          (λ _. save_id n.id_token >> pure n) w₁ e₁ in
      let (_, w₃, p₃, e₃) = >>=-eq-ok (save_id n.id_token) (λ _. pure n) w₂ e₂ in
      let same : n ≡ s = ground arith in
      let last : w₃ ≡ w' = ground arith in
      let (at, pa) = set_access_token_typed r n.access_token w w₁ p₁ in
      let (bt, pb) = set_refresh_token_typed r n.refresh_token w₁ w₂ p₂ in
      (
        same,
        rw (← same, ← last)
            (tail-IsKept margin refresh now n w w₁ w₂ w₃ pa pb p₃ at bt (rw (← same, ← last) at ha)
              (rw (← same, ← last) at hb) (rw (← same, ← last) at hc)),
      )

  -- A refresh that succeeds has given its tokens the ID under which the old ones were kept, and the
  -- next lookups of that ID find exactly them: the access token, the refresh token and, if the
  -- provider sent one, the ID token. Each has to be a token that Redis keeps.
  pub refresh_access_token-stored :
      (margin : ℤ) (refresh : AuthToken → Exec R AuthTokenSet) (now : R → ℤ × R) (token_id : String)
      (s : AuthTokenSet) (w w' : R)
      → refresh_access_token (over_redis margin refresh now) token_id w ≡ (ok s, w')
      → IsStorable r.codec (time w') s.access_token
      → IsStorable r.codec (time w') s.refresh_token
      → (is_absent s.id_token ≡ false → IsStorable r.codec (time w') s.id_token)
      → ((TokenRepo.get_access_token r token_id w').0 ≡ ok s.access_token)
        × ((TokenRepo.get_refresh_token r token_id w').0 ≡ ok s.refresh_token)
        × (is_absent s.id_token ≡ false → (TokenRepo.get_id_token r token_id w').0 ≡ ok s.id_token)
  unfolding refresh_access_token TokenRepo.get_access_token TokenRepo.get_refresh_token
      TokenRepo.get_id_token
  refresh_access_token-stored margin refresh now token_id s w w' e ha hb hc =
      let ts = over_redis margin refresh now in
      let (o, w₁, _, e₁) =
        >>=-eq-ok (ts.token_repo.get_refresh_token token_id)
          (λ o. refresh o >>= λ p. save_fresh ts (in_place token_id p)) w e in
      let (p, w₂, _, e₂) = >>=-eq-ok (refresh o) (λ p. save_fresh ts (in_place token_id p)) w₁ e₁ in
      let (same, kept) =
        save_fresh-stored margin refresh now (in_place token_id p) s w₂ w' e₂ ha hb hc in
      let ids = in_place-ids token_id p in
      (
        at_key w' (ap access_token_key (sym (ap (λ t. t.access_token.id) (sym same) ∙ ids.0)))
            kept.access,
        at_key w' (ap refresh_token_key (sym (ap (λ t. t.refresh_token.id) (sym same) ∙ ids.1)))
            kept.refresh,
        λ there.
            at_key w'
              (ap id_token_key (
                sym (
                  ap (λ t. t.id_token.id) (sym same)
                  ∙ ids.2 (ap (λ t. is_absent t.id_token) same ∙ there))))
              (kept.id there),
      )
