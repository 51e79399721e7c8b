-- ===== src/Gateway/Start/Servers.antt =====
-- The second half of the start (cmd/gateway/main.go).
use renku_gateway.Prelude.{
  String, ◌≡◌, sym, ap, arith, Option, some, ok, Exec, lift, pure, ◌>>=◌, >>=-eq-ok,
}
use renku_gateway.Config.{Config}
use renku_gateway.Db.Adapter.{World}
use renku_gateway.Db.TokenRepo.{RedisAdapter}
use renku_gateway.Gateway.Start.{Packages, Gateway, start_login, start_servers, Metrics}
use renku_gateway.Redirects.Setup.{new_redirect_store}
use renku_gateway.Redirects.{RedirectStore}
use renku_gateway.Login.{LoginServer}
use renku_gateway.Revproxy.Routes.{Auths, new_server}
use renku_gateway.Sessions.Store.{SessionStore}
use renku_gateway.TokenStore.{TokenStore}
use renku_gateway.Authentication.{Authenticator}

module _ {R K : Type 0} (p : Packages R K) where
  -- The second half keeps what it is given.
  abbrev pub Keeps :
      RedisAdapter (World R) → TokenStore (World R) → SessionStore (World R) → Gateway R K → Type 0
  Keeps adapter tokens sessions g =
      (g.adapter ≡ adapter) × (g.tokens ≡ tokens) × (g.sessions ≡ sessions)

  made-Keeps :
      (m : Gateway R K) (w : World R) (g : Gateway R K) (w' : World R)
      → pure {A = Gateway R K} m w ≡ (ok g, w')
      → Keeps m.adapter m.tokens m.sessions g
  made-Keeps m w g w' e =
      let is_made : ok m ≡ ok g = ap (λ x. x.0) e in
      let same : m ≡ g = ground arith in
      (
        ap (λ x. x.adapter) (sym same),
        ap (λ x. x.tokens) (sym same),
        ap (λ x. x.sessions) (sym same),
      )

  -- The servers get the stores that were made before them.
  pub start_servers-Keeps :
      (metrics : Metrics p) (c : Config) (adapter : RedisAdapter (World R))
      (tokens : TokenStore (World R)) (a : Authenticator K) (sessions : SessionStore (World R))
      (w w' : World R) (g : Gateway R K)
      → start_servers p metrics c adapter tokens a sessions w ≡ (ok g, w')
      → Keeps adapter tokens sessions g
  unfolding start_servers
  start_servers-Keeps metrics c adapter tokens a sessions w w' g e = by_redirects e
    where
      made :
          Option (RedirectStore (World R)) → Auths (World R) → LoginServer (World R) → Gateway R K
      made redirects auths login = record {
        adapter = adapter;
        tokens = tokens;
        authenticator = a;
        sessions = sessions;
        redirects = redirects;
        auths = auths;
        login = login;
      }

      by_redirects :
          start_servers p metrics c adapter tokens a sessions w ≡ (ok g, w')
          → Keeps adapter tokens sessions g
      by_redirects h =
          let (redirects, w₁, _, h₁) =
            >>=-eq-ok (lift (new_redirect_store p.redirect_packages c.redirects)) _ w h in
          by_auths redirects w₁ h₁
        where
          by_login :
              (redirects : Option (RedirectStore (World R))) (auths : Auths (World R))
              (client : Option (String → Exec (World R) (Unit {0}))) (u : World R)
              → (do
                login ← start_login p c sessions tokens client
                pure (made redirects auths login))
                  u
                ≡ (ok g, w')
              → Keeps adapter tokens sessions g
          by_login redirects auths client u k =
              let (login, v, _, k') = >>=-eq-ok (start_login p c sessions tokens client) _ u k in
              made-Keeps (made redirects auths login) v g w' k'

          by_auths :
              (redirects : Option (RedirectStore (World R))) (u : World R)
              → (do
                auths ←
                    lift (
                      new_server p.formats (some c.revproxy.enable_internal_gitlab) (some sessions))
                client ← lift metrics
                login ← start_login p c sessions tokens client
                pure (made redirects auths login))
                  u
                ≡ (ok g, w')
              → Keeps adapter tokens sessions g
          by_auths redirects u k =
              let (auths, v, _, k') =
                >>=-eq-ok
                  (lift
                    (new_server p.formats (some c.revproxy.enable_internal_gitlab) (some sessions)))
                  _ u k in
              let (client, x, _, k'') = >>=-eq-ok (lift metrics) _ v k' in
              by_login redirects auths client x k''
