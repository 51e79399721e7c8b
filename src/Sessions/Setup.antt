-- ===== src/Sessions/Setup.antt =====
-- `NewSessionStore` and its options (sessions/session_store.go).
use renku_gateway.Prelude.{
  String, ℤ, true, not, Option, none, some, List, [], ◌∷◌, ◌≡◌, ◌↔◌, inl, inr, refl, arith, Result,
  Result-cases, ok, err, Error, other, Exec, and_then, if◌then◌else◌,
}
use renku_gateway.Config.{SessionConfig}
use renku_gateway.Config.Keys.{check_session_keys, check_session_keys_iff, KeysValid}
use renku_gateway.Oidc.Setup.{key_or_nil}
use renku_gateway.Sessions.Context.{Cookie}
use renku_gateway.Sessions.Maker.{SessionMaker, new_session}
use renku_gateway.Sessions.Store.{
  CookieHandler, SessionRepository, SessionStore, TokenStoreInterface, default_cookie,
}

-- The store while the options fill it in; what they have not set is nil.
pub record Unfinished (B : Type 0) : Type 0 where
  pub authenticator : Option (String → Exec B String)
  pub cookie_template : Option Cookie
  pub cookie_handler : Option CookieHandler
  pub session_maker : Option SessionMaker
  pub session_repo : Option (SessionRepository B)
  pub token_store : Option (TokenStoreInterface B)

abbrev pub SessionStoreOption : Type 0 → Type 0
SessionStoreOption B = Unfinished B → Result (Unfinished B)

-- The packages that the store calls: gorilla/securecookie with its hash key and block key, the random
-- IDs, the clock, and net/http's parser of an Authorization header.
pub record Packages (B : Type 0) : Type 0 where
  pub new_secure_cookie : String → Option String → CookieHandler
  pub random_id : Exec B String
  pub now : B → ℤ × B
  pub basic_auth : String → Option (String × String)

module _ {B : Type 0} where
  unfoldable pub with_authenticator : (String → Exec B String) → SessionStoreOption B
  with_authenticator a sessions = ok (record sessions { authenticator = some a })

  unfoldable pub with_session_repository : SessionRepository B → SessionStoreOption B
  with_session_repository repo sessions = ok (record sessions { session_repo = some repo })

  unfoldable pub with_token_store : TokenStoreInterface B → SessionStoreOption B
  with_token_store store sessions = ok (record sessions { token_store = some store })

  unfoldable pub with_cookie_template : Option Cookie → SessionStoreOption B
  with_cookie_template tpl sessions = ok (record sessions { cookie_template = tpl })

  unfoldable pub with_cookie_handler : CookieHandler → SessionStoreOption B
  with_cookie_handler h sessions = ok (record sessions { cookie_handler = some h })

module _ {B : Type 0} (p : Packages B) where
  -- What `WithConfig` sets, once the keys have been checked.
  abbrev configured : SessionConfig → Unfinished B → Unfinished B
  configured c sessions = record sessions {
    cookie_handler =
        if not c.unsafe_no_cookie_handler
        then some (p.new_secure_cookie c.cookie_hash_key (key_or_nil c.cookie_encoding_key))
        else sessions.cookie_handler;
    session_maker = some (record {
      idle_session_ttl_seconds = c.idle_session_ttl_seconds;
      max_session_ttl_seconds = c.max_session_ttl_seconds;
    });
  }

  unfoldable pub with_config : SessionConfig → SessionStoreOption B
  with_config c sessions = and_then (check_session_keys c) (λ _. ok (configured c sessions))

  abbrev read_clock : Exec B ℤ
  read_clock b = let (t, b') = p.now b in (ok t, b')

  abbrev with_parts :
      Option CookieHandler
      → Option (String → Exec B String)
      → Option Cookie
      → Option SessionMaker
      → Option (SessionRepository B)
      → Option (TokenStoreInterface B)
      → Result (SessionStore B)
  with_parts h none cookie maker repo tokens = err (other "authenticator is not initialized")
  with_parts h (some a) none maker repo tokens = err (other "cookie template is not initialized")
  with_parts h (some a) (some k) none repo tokens = err (other "session maker is not initialized")
  with_parts h (some a) (some k) (some m) none tokens =
      err (other "session repository is not initialized")
  with_parts h (some a) (some k) (some m) (some r) none =
      err (other "token store is not initialized")
  with_parts h (some a) (some k) (some m) (some r) (some t) = ok (record {
    verify_access_token = a;
    cookie_template = k;
    cookie_handler = h;
    new_session = new_session p.random_id read_clock m;
    session_repo = r;
    token_store = t;
    now = p.now;
    basic_auth = p.basic_auth;
  })

  abbrev finished : Unfinished B → Result (SessionStore B)
  finished s =
      with_parts s.cookie_handler s.authenticator s.cookie_template s.session_maker s.session_repo
        s.token_store

  abbrev applied : List (SessionStoreOption B) → Result (Unfinished B) → Result (Unfinished B)
  applied [] s = s
  applied (opt ∷ options) s = applied options (and_then s opt)

  abbrev initial : Unfinished B
  initial = record {
    authenticator = none;
    cookie_template = some default_cookie;
    cookie_handler = none;
    session_maker = none;
    session_repo = none;
    token_store = none;
  }

  unfoldable pub new_session_store : List (SessionStoreOption B) → Result (SessionStore B)
  new_session_store options = and_then (applied options (ok initial)) finished

  -- The options that cmd/gateway/main.go gives.
  abbrev pub main_options :
      (String → Exec B String)
      → SessionRepository B
      → TokenStoreInterface B
      → SessionConfig
      → List (SessionStoreOption B)
  main_options a repo tokens c =
      with_authenticator a
      ∷ with_session_repository repo
      ∷ with_token_store tokens
      ∷ with_config c
      ∷ []

  abbrev main_store :
      (String → Exec B String)
      → SessionRepository B
      → TokenStoreInterface B
      → SessionConfig
      → SessionStore B
  main_store a repo tokens c = record {
    verify_access_token = a;
    cookie_template = default_cookie;
    cookie_handler = (configured c initial).cookie_handler;
    new_session = new_session p.random_id read_clock (record {
      idle_session_ttl_seconds = c.idle_session_ttl_seconds;
      max_session_ttl_seconds = c.max_session_ttl_seconds;
    });
    session_repo = repo;
    token_store = tokens;
    now = p.now;
    basic_auth = p.basic_auth;
  }

  -- The store has the authenticator, the repository, the token store and the time limits that it was given.
  -- Its cookies are for HTTPS only and not for scripts, and unless the cookie handler is switched off they
  -- are signed with the hash key.
  pub record IsConfigured (a : String → Exec B String) (repo : SessionRepository B)
      (tokens : TokenStoreInterface B) (c : SessionConfig) (s : SessionStore B) : Type 0 where
    pub authenticator : s.verify_access_token ≡ a
    pub session_repo : s.session_repo ≡ repo
    pub token_store : s.token_store ≡ tokens
    pub limits :
        s.new_session
        ≡ new_session p.random_id read_clock (record {
          idle_session_ttl_seconds = c.idle_session_ttl_seconds;
          max_session_ttl_seconds = c.max_session_ttl_seconds;
        })
    pub secure : s.cookie_template.secure ≡ true
    pub http_only : s.cookie_template.http_only ≡ true
    pub signed : s.cookie_handler ≡ (
        if c.unsafe_no_cookie_handler
        then none
        else some (p.new_secure_cookie c.cookie_hash_key (key_or_nil c.cookie_encoding_key)))

  pub new_session_store-eq-ok :
      (a : String → Exec B String) (repo : SessionRepository B) (tokens : TokenStoreInterface B)
      (c : SessionConfig) (s : SessionStore B)
      → new_session_store (main_options a repo tokens c) ≡ ok s
      → KeysValid c
  unfolding new_session_store with_config with_authenticator with_session_repository
      with_token_store
  new_session_store-eq-ok a repo tokens c s made = elim (Result-cases (check_session_keys c)) [
    | inl (_, good) ↦ (check_session_keys_iff c).0 good
    | inr (e, bad) ↦ absurd (failed e (err e) refl (rw bad at made))
  ]
    where
      failed : (e : Error) (r : Result (SessionStore B)) → r ≡ err e → r ≡ ok s → ⊥
      failed e r same h = cc

  -- With the four options of the program a store is made exactly where the keys of the cookies have
  -- valid lengths, and then it has the authenticator, the repository, the token store and the time limits
  -- that it was given, its cookies are for HTTPS only and not for scripts, and unless the cookie handler
  -- is switched off they are signed with the hash key.
  pub new_session_store-KeysValid :
      (a : String → Exec B String) (repo : SessionRepository B) (tokens : TokenStoreInterface B)
      (c : SessionConfig)
      → KeysValid c ↔ (
          (s : SessionStore B) × (new_session_store (main_options a repo tokens c) ≡ ok s)
          × IsConfigured a repo tokens c s)
  unfolding new_session_store with_config with_authenticator with_session_repository
      with_token_store
  new_session_store-KeysValid a repo tokens c =
      let (_, complete) = check_session_keys_iff c in
      (
        λ valid. (
          main_store a repo tokens c,
          rw (complete valid) refl,
          record {
            authenticator = refl;
            session_repo = refl;
            token_store = refl;
            limits = refl;
            secure = refl;
            http_only = refl;
            signed = ground arith;
          },
        ),
        λ (s, made, _). new_session_store-eq-ok a repo tokens c s made,
      )
