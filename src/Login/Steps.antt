-- ===== src/Login/Steps.antt =====
-- The steps of a login (login/login_server_routes.go).
use renku_gateway.Prelude.{
  ℕ, String, str_eq, str_eq-false, ◌+++◌, ==_refl, Bool-cases, Dict, lookup, some, ◌≡◌, ◌≢◌, inl,
  inr, refl, Result, ok, err, Error, other, if◌then◌else◌, Exec, continue, ◌>>◌, ◌∙◌, ap, sym,
  Result-cases, arith,
}
use renku_gateway.Models.Token.{AuthToken}
use renku_gateway.Models.TokenSet.{AuthTokenSet, validate_tokens_type}
use renku_gateway.Models.Session.{Session}
use renku_gateway.Sessions.Context.{Context, Action, update, backend_op}
use renku_gateway.Sessions.Store.{SessionStore, get}
use renku_gateway.Sessions.Tokens.{save_tokens}
use renku_gateway.Sessions.Tokens.Saved.{changed_at, save_tokens-IsSaved}
use renku_gateway.Login.{
  LoginServer, token_json, get_callback, get_gitlab_token, token_callback, logged_in, named_tokens,
  with_id,
}

module _ {B : Type 0} where
  abbrev KeepsHeap : Action B (Unit {0}) → Type 0
  KeepsHeap m = (c : Context B) → (m c).1.heap ≡ c.heap

  backend_op-KeepsHeap : (m : Exec B (Unit {0})) → KeepsHeap (backend_op m)
  backend_op-KeepsHeap m c = refl

  continue-heap :
      (r : Result (Unit {0})) (n : Action B (Unit {0})) (c : Context B)
      → KeepsHeap n
      → (continue r (λ _. n) c).1.heap ≡ c.heap
  continue-heap (ok u) n c keeps = keeps c
  continue-heap (err e) n c keeps = refl

  >>-KeepsHeap : (m n : Action B (Unit {0})) → KeepsHeap m → KeepsHeap n → KeepsHeap (m >> n)
  >>-KeepsHeap m n keeps_m keeps_n c = continue-heap (m c).0 n (m c).1 keeps_n ∙ keeps_m c

  -- Whatever the outcome of `SaveTokens`, it changes nothing of the session but its token IDs.
  pub save_tokens_session :
      (sessions : SessionStore B) (p : ℕ) (tokens : AuthTokenSet) (c : Context B)
      → (ids : Dict String) × ((save_tokens sessions p tokens c).1.heap p
          ≡ record (c.heap p) { token_ids = ids })
  unfolding save_tokens
  save_tokens_session sessions p tokens c = elim (Result-cases (validate_tokens_type tokens)) [
    | inr (e, invalid) ↦ ((c.heap p).token_ids, rw invalid refl)
    | inl (_, valid) ↦
        let store = sessions.token_store in
        let written =
          >>-KeepsHeap (backend_op (store.set_access_token tokens.access_token))
            (backend_op (store.set_refresh_token tokens.refresh_token)
              >> backend_op (store.set_id_token tokens.id_token))
            (backend_op-KeepsHeap (store.set_access_token tokens.access_token))
            (>>-KeepsHeap (backend_op (store.set_refresh_token tokens.refresh_token))
              (backend_op (store.set_id_token tokens.id_token))
              (backend_op-KeepsHeap (store.set_refresh_token tokens.refresh_token))
              (backend_op-KeepsHeap (store.set_id_token tokens.id_token)))
            (changed_at sessions p tokens c) in
        (
          ((changed_at sessions p tokens c).heap p).token_ids,
          rw (valid, ap (λ h. h p) written) (simp ==_refl),
        )
  ]

logged_in_state :
    (provider_id : String) (tokens : AuthTokenSet) (session : Session)
    → (logged_in provider_id tokens session).login_state ≡ ""
unfolding logged_in
logged_in_state provider_id tokens session = ground arith

module _ {B : Type 0} (l : LoginServer B) where
  open l use {config, sessions, provider_store, token_store}

  -- A callback with a state that is not the session's ends in an error before anything is
  -- changed: no code is exchanged, and the session keeps its state and its sequence.
  pub get_callback_other_state :
      (p : ℕ) (state : String) (c c' : Context B)
      → get sessions c ≡ (ok p, c')
      → state ≢ ""
      → state ≢ (c'.heap p).login_state
      → get_callback l state c ≡ (err (other "state cannot be found in the existing session"), c')
  unfolding get_callback
  get_callback_other_state p state c c' found sent other_state =
      rw (str_eq-false state "" sent, found, str_eq-false state (c'.heap p).login_state other_state)
        refl

  -- The code exchange's callback clears the state of the session, whether the tokens can be saved
  -- or not.
  pub token_callback_clears :
      (p : ℕ) (provider_id : String) (tokens : AuthTokenSet) (c : Context B)
      → ((token_callback l p provider_id tokens c).1.heap p).login_state ≡ ""
  unfolding token_callback
  token_callback_clears p provider_id tokens c =
      let session = logged_in provider_id tokens (c.heap p) in
      let (ids, same) =
        save_tokens_session sessions p (named_tokens provider_id tokens session)
          (record c { heap = update c.heap p session }) in
      ap (λ s. s.login_state) same ∙ rw (==_refl p) (logged_in_state provider_id tokens (c.heap p))

  -- A state is good for one login: once the callback of a code exchange has run, whatever its
  -- outcome, a session with the state that it has left refuses every callback. The route returns an
  -- error and does nothing but look up the session, or not even that where no state is sent: no
  -- handler of the OIDC library is called, so that no code is exchanged, and nothing is saved.
  pub get_callback-token_callback :
      (p : ℕ) (provider_id state : String) (tokens : AuthTokenSet) (c d d' : Context B)
      → (d'.heap p).login_state ≡ ((token_callback l p provider_id tokens c).1.heap p).login_state
      → get sessions d ≡ (ok p, d')
      → (e : Error) × (get_callback l state d ≡ (err e, if str_eq state "" then d else d'))
  unfolding get_callback
  get_callback-token_callback p provider_id state tokens c d d' same found =
      refused (same ∙ token_callback_clears p provider_id tokens c)
    where
      refused :
          (d'.heap p).login_state ≡ ""
          → (e : Error) × (get_callback l state d ≡ (err e, if str_eq state "" then d else d'))
      refused none_left = elim (Bool-cases (str_eq state "")) [
        | inl e ↦ (other "a state parameter is required", rw e refl)
        | inr e ↦ (
          other "state cannot be found in the existing session",
          rw (e, found, none_left, e) refl,
        )
      ]

  -- The ID under which GitLab's tokens are saved is the one that `GetGitLabToken` looks for: after
  -- the callback for the provider "gitlab" has succeeded in the session of a user, that session has
  -- the ID "gitlab:" with the user's for the provider of the access token; and any later request in that
  -- session, while it has the same user and the same token IDs, is answered with the token that the
  -- token store gives for this ID.
  pub get_gitlab_token-token_callback :
      (p : ℕ) (tokens : AuthTokenSet) (token : AuthToken) (c c' d d' : Context B) (b : B)
      → token_callback l p "gitlab" tokens c ≡ (ok tt, c')
      → (c.heap p).user_id ≢ ""
      → get sessions d ≡ (ok p, d')
      → (d'.heap p).user_id ≡ (c'.heap p).user_id
      → (d'.heap p).token_ids ≡ (c'.heap p).token_ids
      → token_store.get_fresh_access_token ("gitlab:" +++ (c.heap p).user_id) d'.backend
        ≡ (ok token, b)
      → (lookup tokens.access_token.provider_id (d'.heap p).token_ids
          ≡ some ("gitlab:" +++ (c.heap p).user_id))
        × ((get_gitlab_token l d).0 ≡ ok (token_json token.value token.expires_at))
  unfolding token_callback get_gitlab_token named_tokens logged_in
  get_gitlab_token-token_callback p tokens token c c' d d' b done user found same_user same_ids
        fresh =
      let session = record (c.heap p) { login_state = "" } in
      let c₁ = record c { heap = update c.heap p session } in
      let id = "gitlab:" +++ (c.heap p).user_id in
      let some_user = str_eq-false (c.heap p).user_id "" user in
      let saved : save_tokens sessions p (with_id id tokens) c₁ ≡ (ok tt, c') =
        rw some_user at done in
      let (ids, kept) = save_tokens_session sessions p (with_id id tokens) c₁ in
      let is_user : (d'.heap p).user_id ≡ (c.heap p).user_id =
        same_user
        ∙ ap (λ r. (r.1.heap p).user_id) (sym saved)
        ∙ ap (λ s. s.user_id) kept
        ∙ rw (==_refl p) refl in
      (
        rw same_ids (save_tokens-IsSaved sessions p (with_id id tokens) c₁ c' saved).token_id,
        rw (found, is_user, some_user, fresh) refl,
      )
