-- ===== src/Revproxy/Auth/Injected.antt =====
-- The credentials that the reverse proxy adds to a request (revproxy/auth.go).
use renku_gateway.Prelude.{
  ℕ, String, str_eq, ◌+++◌, ◌&&◌, Bool-cases, lookup, insert, lookup-insert, Option, some, ◌≡◌, inl,
  inr, refl, Result, ok, err, arith, if◌then◌else◌,
}
use renku_gateway.Models.Token.{
  AuthToken, OauthTokenType, access_token_type, refresh_token_type, id_token_type, unknown_type,
}
use renku_gateway.Models.Session.{Session}
use renku_gateway.Sessions.Context.{Context, Action, or_empty}
use renku_gateway.Sessions.Store.{get}
use renku_gateway.Sessions.Tokens.{get_access_token, get_refresh_token, get_id_token}
use renku_gateway.Revproxy.Auth.{
  Auth, auth_middleware, inject, inject_in_header, inject_bearer_token, with_session, with_getter,
}

-- The header's value where the client has sent none, or an empty one.
abbrev pub with_default : {B : Type 0} → String → String → Context B → String → Option String
with_default key value c j =
    if str_eq key j && str_eq (or_empty (lookup key c.headers)) ""
    then some value
    else lookup j c.headers

abbrev set_missing : {B : Type 0} → String → String → Context B → Context B
set_missing key value c =
    if str_eq (or_empty (lookup key c.headers)) ""
    then record c { headers = insert key value c.headers }
    else c

lookup-set_missing :
    {B : Type 0} (key value j : String) (c : Context B)
    → lookup j (set_missing key value c).headers ≡ with_default key value c j
lookup-set_missing key value j c = elim (Bool-cases (str_eq (or_empty (lookup key c.headers)) "")) [
  | inl e ↦ rw e (rw lookup-insert (ground arith))
  | inr e ↦ rw e (ground arith)
]

module _ {B : Type 0} (token : AuthToken) (c : Context B) where
  inject_in_header-set_missing :
      (key : String) → inject_in_header key token c ≡ (ok tt, set_missing key token.value c)
  unfolding inject_in_header
  inject_in_header-set_missing key =
      elim (Bool-cases (str_eq (or_empty (lookup key c.headers)) "")) [
        | inl e ↦ rw e refl
        | inr e ↦ rw e refl
      ]

  inject_bearer_token-set_missing :
      inject_bearer_token token c
      ≡ (ok tt, set_missing "Authorization" ("Bearer " +++ token.value) c)
  unfolding inject_bearer_token
  inject_bearer_token-set_missing =
      elim (Bool-cases (str_eq (or_empty (lookup "Authorization" c.headers)) "")) [
        | inl e ↦ rw e refl
        | inr e ↦ rw e refl
      ]

  -- The two injectors of headers never fail. Each sets its header to the token where the client has
  -- not sent it; a header that the client has sent stays as it is, and so do all other headers.
  pub inject-with_default :
      (key j : String)
      → ((inject_in_header key token c).0 ≡ ok tt)
        × (lookup j (inject_in_header key token c).1.headers ≡ with_default key token.value c j)
        × ((inject_bearer_token token c).0 ≡ ok tt)
        × (lookup j (inject_bearer_token token c).1.headers
            ≡ with_default "Authorization" ("Bearer " +++ token.value) c j)
  inject-with_default key j =
      rw (inject_in_header-set_missing key, inject_bearer_token-set_missing)
        (
          refl,
          lookup-set_missing key token.value j c,
          refl,
          lookup-set_missing "Authorization" ("Bearer " +++ token.value) j c,
        )

-- A type that `NewAuth` accepts.
abbrev pub KnownType : OauthTokenType → Type 0
KnownType (unknown_type s) = ⊥
KnownType _ = Unit

module _ {B : Type 0} (a : Auth B) where
  -- Where the middleware lets the request go on: in context `d`, whatever the next handler is.
  abbrev GoesOn : Context B → Context B → Type 0
  GoesOn c d = (next : Action B (Unit {0})) → auth_middleware a next c ≡ next d

  abbrev Safe : Type 0
  Safe = (token : AuthToken) (c : Context B) → (a.token_injector token c).0 ≡ ok tt

  with_getter-goes_on :
      (get_token : Session → String → Action B AuthToken) (p : ℕ) (c : Context B)
      → Safe
      → (d : Context B) × ((next : Action B (Unit {0}))
          → with_getter a (some get_token) p next c ≡ next d)
  with_getter-goes_on get_token p c safe =
      by_token (get_token (c.heap p) a.provider_id c).0 (get_token (c.heap p) a.provider_id c).1
    where
      by_token :
          (r : Result AuthToken) (c' : Context B)
          → (d : Context B) × ((next : Action B (Unit {0})) → inject a r next c' ≡ next d)
      by_token (err e) c' = (c', λ next. refl)
      by_token (ok token) c' = ((a.token_injector token c').1, λ next. rw (safe token c') refl)

  with_session-goes_on :
      (r : Result ℕ) (kind : OauthTokenType) (c : Context B)
      → Safe
      → a.token_type ≡ kind
      → KnownType kind
      → (d : Context B) × ((next : Action B (Unit {0})) → with_session a r next c ≡ next d)
  with_session-goes_on (err e) kind c safe is_kind known = (c, λ next. refl)
  with_session-goes_on (ok p) access_token_type c safe is_kind known =
      rw is_kind (with_getter-goes_on (get_access_token a.sessions) p c safe)
  with_session-goes_on (ok p) refresh_token_type c safe is_kind known =
      rw is_kind (with_getter-goes_on (get_refresh_token a.sessions) p c safe)
  with_session-goes_on (ok p) id_token_type c safe is_kind known =
      rw is_kind (with_getter-goes_on (get_id_token a.sessions) p c safe)
  with_session-goes_on (ok p) (unknown_type s) c safe is_kind known = absurd known

  -- Authentication never stops a request: with an injector that does not fail and a type that
  -- `NewAuth` accepts, the next handler is called exactly once, and its answer is the middleware's,
  -- whether there is a session and a token, or no session, no token, or any error on the way.
  pub auth_middleware-goes_on :
      (c : Context B)
      → ((token : AuthToken) (c : Context B) → (a.token_injector token c).0 ≡ ok tt)
      → KnownType a.token_type
      → (d : Context B) × ((next : Action B (Unit {0})) → auth_middleware a next c ≡ next d)
  unfolding auth_middleware
  auth_middleware-goes_on c safe known =
      with_session-goes_on (get a.sessions c).0 a.token_type (get a.sessions c).1 safe refl known
