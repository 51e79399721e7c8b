-- ===== src/Revproxy/Middlewares/Anonymous.antt =====
-- The anonymous user's ID, and the sessions that the two middlewares make.
use renku_gateway.Prelude.{
  ℕ, String, str_eq, eq_iff, ◌+++◌, ◌||◌, not, Bool, true, false, Bool-cases, inl, inr, lookup,
  insert, Option, ◌≡◌, refl, Result, ok, err, Error, arith,
}
use renku_gateway.Sessions.Context.{Context, Action, or_empty}
use renku_gateway.Sessions.Store.{SessionStore, get, create}
use renku_gateway.Revproxy.Middlewares.{ensure_session, notebooks_anonymous_id}

-- None of the three headers of a logged-in user has a value.
pub record IsAnonymous {B : Type 0} (c : Context B) : Type 0 where
  pub no_access_token : or_empty (lookup "Renku-Auth-Access-Token" c.headers) ≡ ""
  pub no_id_token : or_empty (lookup "Renku-Auth-Id-Token" c.headers) ≡ ""
  pub no_refresh_token : or_empty (lookup "Renku-Auth-Refresh-Token" c.headers) ≡ ""

no_value : (o : Option String) → not (str_eq (or_empty o) "") ≡ false → or_empty o ≡ ""
no_value o h = ground (arith, eq_iff (or_empty o) "")

abbrev known_by_header : {B : Type 0} → Context B → Bool
known_by_header c =
    not (str_eq (or_empty (lookup "Renku-Auth-Access-Token" c.headers)) "")
    || not (str_eq (or_empty (lookup "Renku-Auth-Id-Token" c.headers)) "")
    || not (str_eq (or_empty (lookup "Renku-Auth-Refresh-Token" c.headers)) "")

has_header : {B : Type 0} (c : Context B) → ¬ IsAnonymous c → known_by_header c ≡ true
has_header c known = elim (Bool-cases (known_by_header c)) [
  | inl e ↦ e
  | inr e ↦ absurd (
      known (record {
        no_access_token = no_value (lookup "Renku-Auth-Access-Token" c.headers) (ground arith);
        no_id_token = no_value (lookup "Renku-Auth-Id-Token" c.headers) (ground arith);
        no_refresh_token = no_value (lookup "Renku-Auth-Refresh-Token" c.headers) (ground arith);
      }))
]

module _ {B : Type 0} (sessions : SessionStore B) where
  -- A request with a token's header goes on as it is: no session is read or made for it.
  pub notebooks_anonymous_id_known :
      (next : Action B (Unit {0})) (c : Context B)
      → ¬ IsAnonymous c
      → notebooks_anonymous_id sessions next c ≡ next c
  unfolding notebooks_anonymous_id
  notebooks_anonymous_id_known next c known = rw (has_header c known) refl

  -- An anonymous request's session is the one that `Get` finds, if it has an ID.
  pub notebooks_anonymous_id_found :
      (p : ℕ) (next : Action B (Unit {0})) (c c' : Context B)
      → IsAnonymous c
      → get sessions c ≡ (ok p, c')
      → str_eq (c'.heap p).id "" ≡ false
      → notebooks_anonymous_id sessions next c
        ≡ next (record c' {
          headers = insert "Renku-Auth-Anon-Id" ("anon-" +++ (c'.heap p).id) c'.headers;
        })
  unfolding notebooks_anonymous_id
  notebooks_anonymous_id_found p next c c' anonymous found has_id =
      rw
        (
          anonymous.no_access_token, anonymous.no_id_token, anonymous.no_refresh_token, found,
          has_id,
        )
        refl

  -- Otherwise a new session is made, once, and its ID stands in the header; the next handler is not
  -- called where no session can be made.
  pub notebooks_anonymous_id_created :
      (e : Error) (r : Result ℕ) (next : Action B (Unit {0})) (c c' d : Context B)
      → IsAnonymous c
      → get sessions c ≡ (err e, c')
      → create sessions c' ≡ (r, d)
      → notebooks_anonymous_id sessions next c ≡ elim r [
        | ok p ↦ next (record d {
          headers = insert "Renku-Auth-Anon-Id" ("anon-" +++ (d.heap p).id) d.headers;
        })
        | err e' ↦ (err e', d)
      ]
  unfolding notebooks_anonymous_id
  notebooks_anonymous_id_created e (ok p) next c c' d anonymous missing made =
      rw
        (
          anonymous.no_access_token, anonymous.no_id_token, anonymous.no_refresh_token, missing,
          made,
        )
        refl
  notebooks_anonymous_id_created e (err e') next c c' d anonymous missing made =
      rw
        (
          anonymous.no_access_token, anonymous.no_id_token, anonymous.no_refresh_token, missing,
          made,
        )
        refl

  -- `ensureSession` does the same without the header: the next handler runs with a session that has
  -- an ID in its context, or with none made where there is one already.
  pub ensure_session_created :
      (e : Error) (p : ℕ) (next : Action B (Unit {0})) (c c' d : Context B)
      → get sessions c ≡ (err e, c')
      → create sessions c' ≡ (ok p, d)
      → ensure_session sessions next c ≡ next d
  unfolding ensure_session
  ensure_session_created e p next c c' d missing made = rw (missing, made) refl
