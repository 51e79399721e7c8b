-- ===== src/Login/Progress.antt =====
-- How a login goes on (login/login_server_routes.go).
use renku_gateway.Prelude.{
  ℕ, String, str_eq, str_eq-false, eq_refl, ==_refl, true, Option, none, some, List, [], ◌∷◌, ◌≡◌,
  ◌≢◌, inl, inr, refl, sym, ap, ◌∙◌, gets, continue, Result, Result-cases, ok, err, is_ok, Exec,
  pure, attempt, ◌>>=◌, if◌then◌else◌,
}
use mathlib.Core.Path.{subst}
use renku_gateway.Models.Session.{Session}
use renku_gateway.Sessions.Context.{Context, update}
use renku_gateway.Sessions.Store.{get, save}
use renku_gateway.Oidc.{OidcClient, code_exchange_callback}
use renku_gateway.Oidc.Store.{find_client}
use renku_gateway.Login.{
  LoginServer, LoginAnswer, redirected, handled, get_callback, next_auth_step, next_step,
  finish_login, start_login, send_metrics, report_user, token_callback,
}
use renku_gateway.Login.Callback.{IsOutside, code_exchange_callback-SameLogin}

pair_path : {A C : Type 0} {a a' : A} {b b' : C} → a ≡ a' → b ≡ b' → ◌≡◌ {A = A × C} (a, b) (a', b')
pair_path p q = cc (p, q)

module _ {B : Type 0} (l : LoginServer B) where
  open l use {config, sessions, provider_store}

  -- Where the login leads.
  abbrev pub target : Session → String
  target s = if str_eq s.login_redirect_url "" then config.renku_base_url else s.login_redirect_url

  send_metrics_done :
      (m : Option (String → Exec B (Unit {0}))) (c : Context B) → (send_metrics l m c).0 ≡ ok tt
  send_metrics_done none c = refl
  send_metrics_done (some m) c = by_session (get sessions c).0
    where
      by_session : (r : Result ℕ) → (report_user l (some m) r (get sessions c).1).0 ≡ ok tt
      by_session (ok p) = refl
      by_session (err e) = refl

  -- The answer at the end of a login, where a response that has been written is not replaced.
  abbrev pub answer_to : Session → Context B → LoginAnswer
  answer_to s c = if l.is_committed c then handled else redirected (target s)

  finish_login_done :
      (p : ℕ) (c : Context B)
      → (finish_login l p c).0 ≡ ok (answer_to (c.heap p) (finish_login l p c).1)
  finish_login_done p c =
      let s = record (c.heap p) { login_redirect_url = "" } in
      let c₁ = (attempt (save sessions) (record c { heap = update c.heap p s })).1 in
      let finished : finish_login l p c ≡ (
        ok (answer_to (c.heap p) (send_metrics l l.user_logged_in c₁).1),
        (send_metrics l l.user_logged_in c₁).1,
      ) =
        by_metrics (send_metrics l l.user_logged_in c₁) (send_metrics_done l.user_logged_in c₁) in
      ap (λ x. x.0) finished ∙ ap (λ x. ok (answer_to (c.heap p) x)) (sym (ap (λ x. x.1) finished))
    where
      by_metrics :
          (m : Result (Unit {0}) × Context B)
          → m.0 ≡ ok tt
          → (continue m.0
              (λ _. gets l.is_committed >>= λ committed.
                pure (if committed then handled else redirected (target (c.heap p))))
              m.1)
            ≡ (ok (answer_to (c.heap p) m.1), m.1)
      by_metrics m e = rw e refl

  -- The next login starts: the browser is sent to the provider with the state that the session keeps.
  pub record IsStarted (p : ℕ) (client : OidcClient (Context B)) (rest : List String) (url : String)
      (r : Result LoginAnswer × Context B) : Type 0 where
    pub state : String
    pub drawn_from : B
    pub before : Context B
    pub drawn : (l.generate_state drawn_from).0 ≡ ok state
    pub kept_state : (before.heap p).login_state ≡ state
    pub kept_sequence : (before.heap p).login_sequence ≡ rest
    pub kept_url : (before.heap p).login_redirect_url ≡ url
    pub sent : r ≡ (ok handled, (l.auth_url_handler state client (save sessions before).1).1)

  start_login_done :
      (p : ℕ) (provider_id : String) (client : OidcClient (Context B)) (c : Context B)
      → IsOutside l
      → find_client provider_store provider_id ≡ ok client
      → is_ok (l.generate_state c.backend).0 ≡ true
      → IsStarted p client
          (c.heap p).login_sequence
          (c.heap p).login_redirect_url
          (start_login l p provider_id c)
  start_login_done p provider_id client c out found drawn =
      elim (Result-cases (l.generate_state c.backend).0) [
        | inr (e, bad) ↦ absurd (cc (bad, drawn))
        | inl (state, good) ↦
            let c₁ = record c {
              backend = (l.generate_state c.backend).1;
              heap = update c.heap p (record (c.heap p) { login_state = state });
            } in
            record {
              state = state;
              drawn_from = c.backend;
              before = c₁;
              drawn = good;
              kept_state = rw (==_refl p) refl;
              kept_sequence = rw (==_refl p) refl;
              kept_url = rw (==_refl p) refl;
              sent =
                  rw (good, found) (rw (out.auth state client (attempt (save sessions) c₁).1) refl);
            }
      ]

  -- The state in which the next step starts, after a callback of the session at `p`.
  abbrev pub exchanged_context :
      ℕ → String → List String → OidcClient (Context B) → Context B → Context B
  exchanged_context p provider_id rest client c =
      (l.code_exchange_handler
        (code_exchange_callback client l.http_error (token_callback l p provider_id)) client
        (record c { heap = update c.heap p (record (c.heap p) { login_sequence = rest }) })).1

  exchanged_context-sequence :
      (p : ℕ) (provider_id : String) (rest : List String) (client : OidcClient (Context B))
      (c : Context B)
      → IsOutside l
      → find_client provider_store provider_id ≡ ok client
      → (((exchanged_context p provider_id rest client c).heap p).login_sequence ≡ rest)
        × (((exchanged_context p provider_id rest client c).heap p).login_redirect_url
            ≡ (c.heap p).login_redirect_url)
  exchanged_context-sequence p provider_id rest client c out known =
      let (_, same) =
        out.exchange (code_exchange_callback client l.http_error (token_callback l p provider_id))
          client p
          (record c { heap = update c.heap p (record (c.heap p) { login_sequence = rest }) })
          (λ t d. code_exchange_callback-SameLogin l p provider_id client t d out known) in
      (same.sequence ∙ rw (==_refl p) refl, same.url ∙ rw (==_refl p) refl)

  -- Every accepted callback brings the login on: with the state of the session and a known provider at
  -- the head of its sequence, and whatever the token exchange does, the last callback redirects to the
  -- URL that the login was started for, or to Renku's, unless a response has been written already, as
  -- by an exchange that has failed. One before it starts the login with the next provider, if that
  -- one is known and a state can be drawn: with the session saved, the handler of the OIDC
  -- library is called for that provider with a new state, which is the state of the session, as the rest
  -- is its sequence; and the session keeps the URL that the login was started for.
  pub get_callback-progress :
      (p : ℕ) (state provider_id : String) (rest : List String) (client : OidcClient (Context B))
      (c d : Context B)
      → IsOutside l
      → get sessions c ≡ (ok p, d)
      → state ≢ ""
      → state ≡ (d.heap p).login_state
      → (d.heap p).login_sequence ≡ provider_id ∷ rest
      → find_client provider_store provider_id ≡ ok client
      → (rest ≡ []
          → (get_callback l state c).0 ≡ ok (answer_to (d.heap p) (get_callback l state c).1))
        × ((next : String) (more : List String) (next_client : OidcClient (Context B))
            → rest ≡ next ∷ more
            → find_client provider_store next ≡ ok next_client
            → ((b : B) → is_ok (l.generate_state b).0 ≡ true)
            → IsStarted p next_client rest (d.heap p).login_redirect_url (get_callback l state c))
  unfolding get_callback next_auth_step
  get_callback-progress p state provider_id rest client c d out found sent same pending known =
      let e = exchanged_context p provider_id rest client d in
      let (sequence, url) = exchanged_context-sequence p provider_id rest client d out known in
      let (done, _) =
        out.exchange (code_exchange_callback client l.http_error (token_callback l p provider_id))
          client p
          (record d { heap = update d.heap p (record (d.heap p) { login_sequence = rest }) })
          (λ t x. code_exchange_callback-SameLogin l p provider_id client t x out known) in
      let reached : get_callback l state c ≡ next_step l p rest e =
        rw
          (str_eq-false state "" sent, found, ← same, eq_refl state, pending, known, done, sequence)
          refl in
      (
        λ none_left.
            let finishes : get_callback l state c ≡ finish_login l p e =
              reached ∙ ap (λ z. next_step l p z e) none_left in
            ap (λ x. x.0) finishes
            ∙ finish_login_done p e
            ∙ ap
                (λ x. ok (
                  if l.is_committed x.0
                  then handled
                  else redirected (if str_eq x.1 "" then config.renku_base_url else x.1)))
                (pair_path (sym (ap (λ x. x.1) finishes)) url),
        λ q more next_client e' found' drawn.
            let starts : get_callback l state c ≡ start_login l p q e =
              reached ∙ ap (λ z. next_step l p z e) e' in
            let r = start_login l p q e in
            subst (IsStarted p next_client rest (d.heap p).login_redirect_url) (sym starts) (
              subst (λ z. IsStarted p next_client z (d.heap p).login_redirect_url r) sequence
                (subst (λ z. IsStarted p next_client (e.heap p).login_sequence z r) url
                  (start_login_done p q next_client e out found' (drawn e.backend)))),
      )
