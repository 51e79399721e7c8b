-- ===== src/Sessions/Context.antt =====
-- One request's echo.Context, as far as the gateway reads and writes it, over the backend `B`: what
-- the session repository, the token store, the authenticator, the clock and the random generator
-- keep. Sessions are shared by pointers, so they stand in a heap.
use renku_gateway.Prelude.{
  ◌≡◌, ◌∙◌, sym, ap, ℕ, suc, String, ℤ, pos, ◌==◌, Dict, lookup, insert, Option, none, some, List,
  [], ◌∷◌, ◌++◌, Result, ok, Exec, if◌then◌else◌, Bool,
}
use renku_gateway.Models.Token.{AuthToken}
use renku_gateway.Models.Session.{Session}

-- http.Cookie
pub record Cookie : Type 0 where
  pub name : String
  pub value : String
  pub path : String
  pub max_age : ℤ
  pub secure : Bool
  pub http_only : Bool
  pub same_site_lax : Bool

-- What the middlewares and handlers put into the context: a `*models.Session`, nil or not, a token,
-- or a value of any other type.
pub data CtxValue : Type 0 where
  session_at : ℕ → CtxValue
  nil_session : CtxValue
  token_value : AuthToken → CtxValue
  other_value : CtxValue

-- `cookie` is `c.Cookie(SessionCookieName)`. Header names are in their canonical form, as
-- net/http's `Get` and `Set` make them.
pub record Context (B : Type 0) : Type 0 where
  pub backend : B
  pub heap : ℕ → Session
  pub next_ref : ℕ
  pub store : Dict CtxValue
  pub headers : Dict String
  pub cookie : Result String
  pub set_cookies : List Cookie

abbrev pub update : {A : Type 0} → (ℕ → A) → ℕ → A → ℕ → A
update f p a q = if q == p then a else f q

-- The zero value `models.Session{}`.
abbrev pub zero_session : Session
zero_session = record {
  id = "";
  created_at = pos 0;
  expires_at = pos 0;
  idle_ttl_seconds = pos 0;
  max_ttl_seconds = pos 0;
  user_id = "";
  token_ids = [];
  login_redirect_url = "";
  login_sequence = [];
  login_state = "";
}

abbrev pub or_empty : Option String → String
or_empty none = ""
or_empty (some s) = s

abbrev pub Action : Type 0 → Type 0 → Type 0
Action B A = Exec (Context B) A

module _ {B : Type 0} where
  -- An operation of the backend.
  abbrev pub backend_op : {A : Type 0} → Exec B A → Action B A
  backend_op m c = let (r, b) = m c.backend in (r, record c { backend = b })

  abbrev pub alloc : Session → Action B ℕ
  alloc s c =
      (ok c.next_ref, record c { heap = update c.heap c.next_ref s; next_ref = suc c.next_ref })

  abbrev pub read : ℕ → Action B Session
  read p c = (ok (c.heap p), c)

  abbrev pub write : ℕ → Session → Action B (Unit {0})
  write p s c = (ok tt, record c { heap = update c.heap p s })

  abbrev pub ctx_get : String → Action B (Option CtxValue)
  ctx_get key c = (ok (lookup key c.store), c)

  abbrev pub ctx_set : String → CtxValue → Action B (Unit {0})
  ctx_set key v c = (ok tt, record c { store = insert key v c.store })

  -- Header.Get: "" where there is none.
  abbrev pub header_get : String → Action B String
  header_get key c = (ok (or_empty (lookup key c.headers)), c)

  abbrev pub header_set : String → String → Action B (Unit {0})
  header_set key v c = (ok tt, record c { headers = insert key v c.headers })

  abbrev pub set_cookie : Cookie → Action B (Unit {0})
  set_cookie k c = (ok tt, record c { set_cookies = c.set_cookies ++ k ∷ [] })

  -- Inversion of a successful backend operation.
  pub backend_op-eq-ok :
      {A : Type 0} (m : Exec B A) (c : Context B) {a : A} {c' : Context B}
      → backend_op m c ≡ (ok a, c')
      → (m c.backend ≡ (ok a, c'.backend)) × (c' ≡ record c { backend = c'.backend })
  backend_op-eq-ok m c e = (
    ap (λ x. (x.0, x.1.backend)) e,
    sym (ap (λ x. x.1) e) ∙ ap (λ b. record c { backend = b }) (ap (λ x. x.1.backend) e),
  )
