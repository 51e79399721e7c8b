-- ===== src/TokenStore/Fresh.antt =====
-- `GetFreshAccessToken` and `GetFreshIDToken` of tokenstore/token_store.go.
use renku_gateway.Prelude.{
  String, pos, ◌+ℤ◌, ◌≤ℤ◌, ◌<ℤ◌, ◌⊎◌, ◌>>=◌, ◌≡◌, true, false, refl, Bool-cases, inl, inr, Result,
  ok, err, Error, token_not_found, token_expired, >>=-eq-ok, Exec, lift, attempt, arith,
}
use renku_gateway.Models.Token.{AuthToken, expired, expires_soon}
use renku_gateway.Models.Token.Expiry.{expired_within_margin}
use renku_gateway.Models.TokenSet.{AuthTokenSet}
use renku_gateway.TokenStore.{
  TokenStore, refresh_access_token, refreshed_access_token, refreshed_id_token, lapsed_token, renew,
  fetch, unexpired, or_lapsed, get_fresh_access_token, get_fresh_id_token,
}

module _ {W : Type 0} (ts : TokenStore W) where
  -- The token was not expired at the reading of the clock that ended in state `w'`.
  pub record IsFresh (t : AuthToken) (w' : W) : Type 0 where
    pub before : W
    pub unexpired_then : expired (ts.now before).0 t ≡ false
    pub last : (ts.now before).1 ≡ w'

  unexpired-IsFresh : (o t : AuthToken) (w w' : W) → unexpired ts o w ≡ (ok t, w') → IsFresh t w'
  unfolding unexpired
  unexpired-IsFresh o t w w' e = elim (Bool-cases (expired (ts.now w).0 o)) [
    | inl x ↦ absurd (ground arith)
    | inr x ↦ record { before = w; unexpired_then = ground arith; last = ground arith }
  ]

  fetch-IsFresh :
      (get : Exec W AuthToken) (token_id : String)
      (refreshed : AuthToken → Result AuthTokenSet → Exec W AuthToken) (t : AuthToken) (w w' : W)
      → fetch ts get token_id refreshed w ≡ (ok t, w')
      → IsFresh t w'
  unfolding fetch
  fetch-IsFresh get token_id refreshed t w w' e =
      let (found, w₁, _, e₁) =
        >>=-eq-ok (attempt get)
          (λ found.
            lift (or_lapsed found) >>= λ token. renew ts token_id refreshed token >>= unexpired ts)
          w e in
      let (token, w₂, _, e₂) =
        >>=-eq-ok (lift (or_lapsed found))
          (λ token. renew ts token_id refreshed token >>= unexpired ts) w₁ e₁ in
      let (current, w₃, _, e₃) =
        >>=-eq-ok (renew ts token_id refreshed token) (unexpired ts) w₂ e₂ in
      unexpired-IsFresh current t w₃ w' e₃

  -- Whatever the repository and the provider do, a token that `GetFreshAccessToken` or
  -- `GetFreshIDToken` returns had not expired when the clock was read last.
  pub get_fresh_access_token-IsFresh :
      (token_id : String) (t : AuthToken) (w w' : W)
      → (get_fresh_access_token ts token_id w ≡ (ok t, w'))
        ⊎ (get_fresh_id_token ts token_id w ≡ (ok t, w'))
      → IsFresh t w'
  unfolding get_fresh_access_token get_fresh_id_token
  get_fresh_access_token-IsFresh token_id t w w' (inl e) =
      fetch-IsFresh (ts.token_repo.get_access_token token_id) token_id
        (refreshed_access_token ts token_id) t w w' e
  get_fresh_access_token-IsFresh token_id t w w' (inr e) =
      fetch-IsFresh (ts.token_repo.get_id_token token_id) token_id (refreshed_id_token ts token_id)
        t w w' e

  -- A stored token that does not expire within the margin is returned as it is, without a refresh:
  -- the only effects are the lookup and two readings of the clock, the second of them at most the
  -- margin after the first.
  pub get_fresh_access_token_cached :
      (token_id : String) (o : AuthToken) (w w₁ : W)
      → ts.token_repo.get_access_token token_id w ≡ (ok o, w₁)
      → expires_soon (ts.now w₁).0 ts.expiry_margin o ≡ false
      → (ts.now (ts.now w₁).1).0 ≤ℤ (ts.now w₁).0 +ℤ ts.expiry_margin
      → get_fresh_access_token ts token_id w ≡ (ok o, (ts.now (ts.now w₁).1).1)
  unfolding get_fresh_access_token
  get_fresh_access_token_cached token_id o w w₁ found late soon =
      rw
        (
          found,
          late,
          expired_within_margin (ts.now w₁).0 (ts.now (ts.now w₁).1).0 ts.expiry_margin o late soon,
        )
        refl

  -- A token that is missing, in a repository where the refresh fails and the second lookup finds
  -- nothing either, is reported as expired, once the clock is more than a second past the zero time.
  pub get_fresh_access_token_missing :
      (token_id : String) (w w₁ w₂ w₃ : W) (e e' : Error)
      → ts.token_repo.get_access_token token_id w ≡ (err token_not_found, w₁)
      → expires_soon (ts.now w₁).0 ts.expiry_margin lapsed_token ≡ true
      → refresh_access_token ts token_id (ts.now w₁).1 ≡ (err e, w₂)
      → ts.token_repo.get_access_token token_id w₂ ≡ (err e', w₃)
      → pos 1000000000 <ℤ (ts.now w₃).0
      → get_fresh_access_token ts token_id w ≡ (err token_expired, (ts.now w₃).1)
  unfolding get_fresh_access_token expired
  get_fresh_access_token_missing token_id w w₁ w₂ w₃ e e' found soon failed reload late =
      rw (found, soon, failed, reload) (ground arith)

  -- Where the stored token expires soon, the refreshed token is returned if the refresh succeeds and
  -- the new token has not expired; if the refresh fails, it is the token that a second lookup finds,
  -- which another instance may have refreshed.
  pub get_fresh_access_token_renewed :
      (token_id : String) (o n : AuthToken) (w w₁ w₂ : W)
      → ts.token_repo.get_access_token token_id w ≡ (ok o, w₁)
      → expires_soon (ts.now w₁).0 ts.expiry_margin o ≡ true
      → ((s : AuthTokenSet) × (refresh_access_token ts token_id (ts.now w₁).1 ≡ (ok s, w₂))
          × (s.access_token ≡ n))
        ⊎ ((e : Error) × (w' : W) × (refresh_access_token ts token_id (ts.now w₁).1 ≡ (err e, w'))
            × (ts.token_repo.get_access_token token_id w' ≡ (ok n, w₂)))
      → expired (ts.now w₂).0 n ≡ false
      → get_fresh_access_token ts token_id w ≡ (ok n, (ts.now w₂).1)
  unfolding get_fresh_access_token
  get_fresh_access_token_renewed token_id o n w w₁ w₂ found soon (inl (s, done, is_new)) live =
      rw (found, soon, done, is_new, live) refl
  get_fresh_access_token_renewed token_id o n w w₁ w₂ found soon (inr (e, w', failed, reload))
        live =
      rw (found, soon, failed, reload, live) refl
