-- ===== src/Login/Callback.antt =====
-- What the callback of a code exchange leaves of a login (login/login_server_routes.go).
use renku_gateway.Prelude.{ℕ, String, ==_refl, ◌≡◌, refl, ap, ◌∙◌, arith, Result, ok, err, Error}
use renku_gateway.Models.TokenSet.{AuthTokenSet}
use renku_gateway.Models.Session.{Session}
use renku_gateway.Sessions.Context.{Context, Action, update}
use renku_gateway.Oidc.{OidcClient, Tokens, code_exchange_callback, exchanged, reported, token_set}
use renku_gateway.Oidc.Store.{find_client}
use renku_gateway.Login.{LoginServer, token_callback, logged_in, named_tokens}
use renku_gateway.Login.Steps.{save_tokens_session}

module _ {B : Type 0} where
  -- What a login still has to do, and where it leads at the end.
  pub record SameLogin (p : ℕ) (c d : Context B) : Type 0 where
    pub sequence : (d.heap p).login_sequence ≡ (c.heap p).login_sequence
    pub url : (d.heap p).login_redirect_url ≡ (c.heap p).login_redirect_url

  pub same_heap-SameLogin : (p : ℕ) (c d : Context B) → d.heap p ≡ c.heap p → SameLogin p c d
  same_heap-SameLogin p c d e = record {
    sequence = ap (λ s. s.login_sequence) e;
    url = ap (λ s. s.login_redirect_url) e;
  }

  pub SameLogin-trans :
      (p : ℕ) (c d e : Context B) → SameLogin p c d → SameLogin p d e → SameLogin p c e
  SameLogin-trans p c d e f g = record { sequence = g.sequence ∙ f.sequence; url = g.url ∙ f.url }

-- The packages: generating a token's ID and writing an error to the response leave the sessions; the handlers of the
-- OIDC library, which echo.WrapHandler calls, never return an error, whatever they write to the
-- response, and the one for the code reaches the sessions through its callback only.
pub record IsOutside {B : Type 0} (l : LoginServer B) : Type 0 where
  pub error_heap : (x : Error) (c : Context B) → (l.http_error x c).1.heap ≡ c.heap
  pub id_heap :
      (id : String) (client : OidcClient (Context B)) (c : Context B)
      → find_client l.provider_store id ≡ ok client
      → (client.client.generate_id c).1.heap ≡ c.heap
  pub exchange :
      (callback : Tokens → Action B (Unit {0})) (client : OidcClient (Context B)) (p : ℕ)
      (c : Context B)
      → ((t : Tokens) (d : Context B) → SameLogin p d (callback t d).1)
      → ((l.code_exchange_handler callback client c).0 ≡ ok tt)
        × SameLogin p c (l.code_exchange_handler callback client c).1
  pub auth :
      (state : String) (client : OidcClient (Context B)) (c : Context B)
      → (l.auth_url_handler state client c).0 ≡ ok tt

logged_in_login :
    (provider_id : String) (tokens : AuthTokenSet) (s : Session)
    → ((logged_in provider_id tokens s).login_sequence ≡ s.login_sequence)
      × ((logged_in provider_id tokens s).login_redirect_url ≡ s.login_redirect_url)
unfolding logged_in
logged_in_login provider_id tokens s = ground arith

module _ {B : Type 0} (l : LoginServer B) where
  open l use {config, sessions, provider_store}

  token_callback-SameLogin :
      (p : ℕ) (provider_id : String) (tokens : AuthTokenSet) (c : Context B)
      → SameLogin p c (token_callback l p provider_id tokens c).1
  unfolding token_callback
  token_callback-SameLogin p provider_id tokens c =
      let session = logged_in provider_id tokens (c.heap p) in
      let (ids, same) =
        save_tokens_session sessions p (named_tokens provider_id tokens session)
          (record c { heap = update c.heap p session }) in
      let (sequence, url) = logged_in_login provider_id tokens (c.heap p) in
      record {
        sequence = ap (λ s. s.login_sequence) same ∙ rw (==_refl p) sequence;
        url = ap (λ s. s.login_redirect_url) same ∙ rw (==_refl p) url;
      }

  -- The callback of a code exchange, with the errors that it writes to the response.
  reported-SameLogin :
      (p : ℕ) (client : OidcClient (Context B)) (r : Result (Unit {0})) (c : Context B)
      → IsOutside l
      → SameLogin p c (reported client l.http_error r c).1
  reported-SameLogin p client (err x) c out =
      same_heap-SameLogin p c (l.http_error x c).1 (ap (λ h. h p) (out.error_heap x c))
  reported-SameLogin p client (ok u) c out = same_heap-SameLogin p c c refl

  exchanged-SameLogin :
      (p : ℕ) (provider_id : String) (client : OidcClient (Context B)) (tokens : Tokens)
      (r : Result String) (c : Context B)
      → IsOutside l
      → SameLogin p c (exchanged client l.http_error (token_callback l p provider_id) tokens r c).1
  exchanged-SameLogin p provider_id client tokens (err x) c out =
      same_heap-SameLogin p c (l.http_error x c).1 (ap (λ h. h p) (out.error_heap x c))
  exchanged-SameLogin p provider_id client tokens (ok id) c out =
      let (r, d) = token_callback l p provider_id (token_set client id tokens) c in
      SameLogin-trans p c d (reported client l.http_error r d).1
        (token_callback-SameLogin p provider_id (token_set client id tokens) c)
        (reported-SameLogin p client r d out)

  pub code_exchange_callback-SameLogin :
      (p : ℕ) (provider_id : String) (client : OidcClient (Context B)) (tokens : Tokens)
      (c : Context B)
      → IsOutside l
      → find_client provider_store provider_id ≡ ok client
      → SameLogin p c
          (code_exchange_callback client l.http_error (token_callback l p provider_id) tokens c).1
  unfolding code_exchange_callback
  code_exchange_callback-SameLogin p provider_id client tokens c out known =
      let (r, d) = client.client.generate_id c in
      SameLogin-trans p c d
        (exchanged client l.http_error (token_callback l p provider_id) tokens r d).1
        (same_heap-SameLogin p c d (ap (λ h. h p) (out.id_heap provider_id client c known)))
        (exchanged-SameLogin p provider_id client tokens r d out)
