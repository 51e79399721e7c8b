-- ===== src/Login/Setup.antt =====
-- The constructor of the login server and its routes (login/login_server.go).
use renku_gateway.Prelude.{
  String, ◌+++◌, Bool, true, false, Dict, Option, none, some, List, [], ◌∷◌, ◌≡◌, refl, ap, arith,
  Result, Result-cases, inl, inr, ok, err, Error, is_ok, other, Exec, pure, raise, lift, ◌>>=◌,
  has_key, is_unique,
}
use renku_gateway.Config.{Url, OidcClient as ClientConfig, LoginConfig as Settings}
use renku_gateway.Oidc.{RelyingParty, OidcClient}
use renku_gateway.Oidc.Setup.{RpConfig, new_client_store, find_client-new_client_store}
use renku_gateway.Oidc.Store.{ClientStore, find_client}
use renku_gateway.Sessions.Context.{Context}
use renku_gateway.Sessions.Store.{SessionStore, TokenStoreInterface}
use renku_gateway.Login.{LoginServer}

-- The server while the options fill it in; what they have not set is nil.
pub record Unfinished (B : Type 0) : Type 0 where
  pub config : Option Settings
  pub provider_store : Option (ClientStore (Context B))
  pub sessions : Option (SessionStore B)
  pub token_store : Option (TokenStoreInterface B)
  pub metrics_client : Option (String → Exec B (Unit {0}))

abbrev pub LoginServerOption : (W B : Type 0) → Type 0
LoginServerOption W B = Unfinished B → Exec W (Unfinished B)

module _ {W B : Type 0} where
  -- `WithConfig` asks every provider for its endpoints.
  unfoldable pub with_config :
      (RpConfig → Exec W (RelyingParty (Context B))) → Settings → LoginServerOption W B
  with_config new_relying_party c l = do
    clients ← new_client_store new_relying_party c.providers
    pure (record l { config = some c; provider_store = some clients })

  unfoldable pub with_session_store : SessionStore B → LoginServerOption W B
  with_session_store sessions l = pure (record l { sessions = some sessions })

  unfoldable pub with_token_store : TokenStoreInterface B → LoginServerOption W B
  with_token_store store l = pure (record l { token_store = some store })

  unfoldable pub with_metrics_client : (String → Exec B (Unit {0})) → LoginServerOption W B
  with_metrics_client client l = pure (record l { metrics_client = some client })

abbrev issuers : Dict ClientConfig → Dict String
issuers [] = []
issuers ((id, c) ∷ more) = (id, c.issuer) ∷ issuers more

abbrev initial : {B : Type 0} → Unfinished B
initial = record {
  config = none;
  provider_store = none;
  sessions = none;
  token_store = none;
  metrics_client = none;
}

-- `packages` has the functions that the server calls; its other fields are not read.
module _ {B : Type 0} (packages : LoginServer B) (url_text : Option Url → String) where
  abbrev pub served :
      Settings
      → ClientStore (Context B)
      → SessionStore B
      → TokenStoreInterface B
      → Option (String → Exec B (Unit {0}))
      → LoginServer B
  served c clients sessions tokens metrics = record packages {
    config = record {
      renku_base_url = url_text c.renku_base_url;
      enable_internal_gitlab = c.enable_internal_gitlab;
      providers = issuers c.providers;
    };
    provider_store = clients;
    sessions = sessions;
    token_store = tokens;
    user_logged_in = metrics;
  }

  abbrev with_parts :
      Option Settings
      → Option (ClientStore (Context B))
      → Option (SessionStore B)
      → Option (TokenStoreInterface B)
      → Option (String → Exec B (Unit {0}))
      → Result (LoginServer B)
  with_parts none clients sessions tokens metrics = err (other "login server config not provided")
  with_parts (some c) none sessions tokens metrics = err (other "OIDC providers not initialized")
  with_parts (some c) (some ps) none tokens metrics = err (other "session store not initialized")
  with_parts (some c) (some ps) (some s) none metrics = err (other "token store is not initialized")
  with_parts (some c) (some ps) (some s) (some t) metrics = ok (served c ps s t metrics)

  module _ {W : Type 0} where
    abbrev applied : List (LoginServerOption W B) → LoginServerOption W B
    applied [] l = pure l
    applied (opt ∷ options) l = do filled ← opt l; applied options filled

    unfoldable pub new_login_server : List (LoginServerOption W B) → Exec W (LoginServer B)
    new_login_server options = do
      l ← applied options initial
      lift (with_parts l.config l.provider_store l.sessions l.token_store l.metrics_client)

    -- A login server that starts with the options of the program has the session store and the token store
    -- that it was given, and a client for exactly the providers of the configuration, each
    -- under its own ID.
    pub new_login_server-clients :
        (new_relying_party : RpConfig → Exec W (RelyingParty (Context B))) (c : Settings)
        (sessions : SessionStore B) (tokens : TokenStoreInterface B) (l : LoginServer B)
        (id : String) (w w' : W)
        → is_unique c.providers ≡ true
        → new_login_server
            (with_config new_relying_party c
              ∷ with_session_store sessions
              ∷ with_token_store tokens
              ∷ [])
            w
          ≡ (ok l, w')
        → (l.sessions ≡ sessions)
          × (l.token_store ≡ tokens)
          × (has_key id c.providers ≡ true
              → (client : OidcClient (Context B)) × (find_client l.provider_store id ≡ ok client)
                × (client.id ≡ id))
          × (has_key id c.providers ≡ false → is_ok (find_client l.provider_store id) ≡ false)
    unfolding new_login_server with_config with_session_store with_token_store
    new_login_server-clients new_relying_party c sessions tokens l id w w' u e =
        elim (Result-cases (new_client_store new_relying_party c.providers w).0) [
          | inr (x, bad) ↦ absurd (failed x (rw bad at e))
          | inl (clients, good) ↦
              let made : (lift (ok (served c clients sessions tokens none))
                    (new_client_store new_relying_party c.providers w).1)
                  ≡ (ok l, w') =
                rw good at e in
              let is_made : ok (served c clients sessions tokens none) ≡ ok l =
                ap (λ x. x.0) made in
              let same : served c clients sessions tokens none ≡ l = ground arith in
              let (known, unknown) =
                find_client-new_client_store new_relying_party id c.providers clients w
                  (new_client_store new_relying_party c.providers w).1 u
                  (ap (λ x. (x, (new_client_store new_relying_party c.providers w).1)) good) in
              rw (← same) (refl, refl, known, unknown)
        ]
      where
        failed :
            (x : Error)
            → raise {A = LoginServer B} x (new_client_store new_relying_party c.providers w).1
              ≡ (ok l, w')
            → ⊥
        failed x h = cc

-- Which method of the server answers, and whether the middleware `NoCaching` stands before it.
pub data Handler : Type 0 where
  get_login get_callback get_logout get_user_profile get_gitlab_token get_gitlab_logout : Handler

pub record Route : Type 0 where
  pub path : String
  pub handler : Handler
  pub no_caching : Bool

-- All of them answer GET, below the base path, behind the common middlewares.
unfoldable pub register_handlers : String → List Route
register_handlers base_path =
    record { path = base_path +++ "/login"; handler = get_login; no_caching = true }
    ∷ record { path = base_path +++ "/callback"; handler = get_callback; no_caching = true }
    ∷ record { path = base_path +++ "/logout"; handler = get_logout; no_caching = true }
    ∷ record {
      path = base_path +++ "/user-profile";
      handler = get_user_profile;
      no_caching = false;
    }
    ∷ record {
      path = base_path +++ "/gitlab/exchange";
      handler = get_gitlab_token;
      no_caching = true;
    }
    ∷ record {
      path = base_path +++ "/gitlab/logout";
      handler = get_gitlab_logout;
      no_caching = false;
    }
    ∷ []
