-- ===== src/Gateway/Start/Wired.antt =====
-- How the parts of a gateway that has started hang together (cmd/gateway/main.go).
use mathlib.Core.Path.{subst}
use renku_gateway.Prelude.{
  ◌≡◌, ◌≢◌, refl, sym, ap, ◌∙◌, arith, Option, none, some, Result, ok, err, lift, >>=-eq-ok,
}
use renku_gateway.Config.{Config, development, validate}
use renku_gateway.Config.Accepted.{IsSafe, validate-IsSafe}
use renku_gateway.Config.Keys.{KeysValid}
use renku_gateway.Db.Adapter.{World}
use renku_gateway.Db.Client.{RedisClient}
use renku_gateway.Db.Adapter.{outside}
use renku_gateway.Db.TokenRepo.{RedisAdapter}
use renku_gateway.Gateway.Database.{start_database, start_database-IsEncrypted, IsEncrypted}
use renku_gateway.Gateway.Start.{
  Packages, Gateway, start, start_tokens, start_sessions, start_authenticator, start_stores,
  Metrics, token_store_interface, session_repository, or_panic, subject,
}
use renku_gateway.Oidc.Setup.{new_client_store, key_or_nil}
use renku_gateway.Sessions.Setup.{new_session_store-KeysValid, new_session_store-eq-ok}
use renku_gateway.Sessions.Store.{SessionStore}
use renku_gateway.TokenStore.{TokenStore, new_token_store}
use renku_gateway.TokenStore.Redis.{redis_repository}
use renku_gateway.Authentication.{Authenticator}
use renku_gateway.Gateway.Start.Servers.{Keeps, start_servers-Keeps}

module _ {R K : Type 0} (p : Packages R K) where
  -- One adapter keeps the sessions and the tokens, real and encrypted as configured; the cookies are
  -- signed.
  pub record IsWired (c : Config) (g : Gateway R K) : Type 0 where
    pub real : (client : RedisClient R) × (g.adapter.rdb ≡ outside client)
    pub encrypted : IsEncrypted p.drivers c g.adapter
    pub keys : KeysValid c.sessions
    pub signed :
        g.sessions.cookie_handler
        ≡ some (
            p.session_packages.new_secure_cookie c.sessions.cookie_hash_key
              (key_or_nil c.sessions.cookie_encoding_key))
    pub session_repo : g.sessions.session_repo ≡ session_repository g.adapter
    pub session_tokens : g.sessions.token_store ≡ token_store_interface g.tokens
    pub token_repo : g.tokens.token_repo ≡ redis_repository g.adapter

  start_tokens_repo :
      (c : Config) (adapter : RedisAdapter (World R)) (w w' : World R) (ts : TokenStore (World R))
      → start_tokens p c adapter w ≡ (ok ts, w')
      → ts.token_repo ≡ redis_repository adapter
  unfolding start_tokens new_token_store
  start_tokens_repo c adapter w w' ts e =
      let (clients, t, q, q') =
        >>=-eq-ok (new_client_store p.relying_party c.login.providers) _ w e in
      sym (ap (λ x. elim x.0 [ ok a ↦ a.token_repo | err y ↦ redis_repository adapter ]) q')

  or_panic-eq-ok :
      {A : Type 0} (o : Option (Result A)) (a : A) → or_panic p o ≡ ok a → o ≡ some (ok a)
  or_panic-eq-ok none a e = cc
  or_panic-eq-ok (some r) a e = ap (λ x. some x) e

  abbrev FromAdapter :
      Config → RedisAdapter (World R) → TokenStore (World R) → SessionStore (World R) → Type 0
  FromAdapter c adapter tokens sessions =
      KeysValid c.sessions
      × (sessions.cookie_handler
          ≡ some (
              p.session_packages.new_secure_cookie c.sessions.cookie_hash_key
                (key_or_nil c.sessions.cookie_encoding_key)))
      × (sessions.session_repo ≡ session_repository adapter)
      × (sessions.token_store ≡ token_store_interface tokens)

  start_sessions-FromAdapter :
      (c : Config) (adapter : RedisAdapter (World R)) (tokens : TokenStore (World R))
      (a : Authenticator K) (sessions : SessionStore (World R))
      → IsSafe c
      → start_sessions p c adapter tokens a ≡ ok sessions
      → FromAdapter c adapter tokens sessions
  unfolding start_sessions
  start_sessions-FromAdapter c adapter tokens a sessions safe e =
      let (made, _) =
        new_session_store-KeysValid p.session_packages (subject p a) (session_repository adapter)
          (token_store_interface tokens) c.sessions in
      let keys =
        new_session_store-eq-ok p.session_packages (subject p a) (session_repository adapter)
          (token_store_interface tokens) c.sessions sessions e in
      let (s, built, set_up) = made keys in
      let results : ok s ≡ ok sessions = sym built ∙ e in
      let same : s ≡ sessions = ground arith in
      rw (← same) (
        keys,
        (set_up.signed ∙ rw safe.session_cookies refl),
        set_up.session_repo,
        set_up.token_store,
      )

  start_stores-IsWired :
      (metrics : Metrics p) (c : Config) (adapter : RedisAdapter (World R)) (w w' : World R)
      (g : Gateway R K)
      → IsSafe c
      → ((client : RedisClient R) × (adapter.rdb ≡ outside client))
        × IsEncrypted p.drivers c adapter
      → start_stores p metrics c adapter w ≡ (ok g, w')
      → IsWired c g
  unfolding start_stores
  start_stores-IsWired metrics c adapter w w' g safe (real, encrypted) e =
      let (tokens, w₂, p₂, e₂) = >>=-eq-ok (start_tokens p c adapter) _ w e in
      let (a, w₃, p₃, e₃) = >>=-eq-ok (start_authenticator p c) _ w₂ e₂ in
      let (sessions, w₄, p₄, e₄) = >>=-eq-ok (lift (start_sessions p c adapter tokens a)) _ w₃ e₃ in
      of_parts tokens sessions
        (start_servers-Keeps p metrics c adapter tokens a sessions w₄ w' g e₄)
        (start_sessions-FromAdapter c adapter tokens a sessions safe (ap (λ x. x.0) p₄))
        (start_tokens_repo c adapter w w₂ tokens p₂)
    where
      of_parts :
          (tokens : TokenStore (World R)) (sessions : SessionStore (World R))
          → Keeps p adapter tokens sessions g
          → FromAdapter c adapter tokens sessions
          → tokens.token_repo ≡ redis_repository adapter
          → IsWired c g
      of_parts tokens sessions (same_a, same_t, same_s) (keys, signed, repo, store) token_repo =
          record {
            real = (real.0, ap (λ x. x.rdb) same_a ∙ real.1);
            encrypted = subst (IsEncrypted p.drivers c) (sym same_a) encrypted;
            keys = keys;
            signed = ap (λ x. x.cookie_handler) same_s ∙ signed;
            session_repo =
                ap (λ x. x.session_repo) same_s ∙ repo ∙ ap session_repository (sym same_a);
            session_tokens =
                ap (λ x. x.token_store) same_s ∙ store ∙ ap token_store_interface (sym same_t);
            token_repo =
                ap (λ x. x.token_repo) same_t ∙ token_repo ∙ ap redis_repository (sym same_a);
          }

  -- A gateway that starts from a configuration accepted for production keeps its sessions and its
  -- tokens in one adapter, which has a client of a real server and encrypts the tokens exactly if this
  -- is configured; the session store takes the tokens from the token store over that
  -- adapter; and the session cookies are signed with the configured key.
  pub start-IsWired :
      (metrics : Metrics p) (c c' : Config) (w w' : World R) (g : Gateway R K)
      → c.running_environment ≢ development
      → validate c ≡ (ok tt, c')
      → start p metrics c' w ≡ (ok g, w')
      → IsWired c' g
  unfolding start
  start-IsWired metrics c c' w w' g prod valid e =
      let (adapter, w₁, p₁, e₁) =
        >>=-eq-ok (lift (or_panic p (start_database p.drivers c'))) _ w e in
      start_stores-IsWired metrics c' adapter w₁ w' g (validate-IsSafe c c' prod valid)
        (start_database-IsEncrypted p.drivers c c' adapter prod valid
          (or_panic-eq-ok (start_database p.drivers c') adapter (ap (λ x. x.0) p₁)))
        e₁
