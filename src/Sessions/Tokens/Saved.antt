-- ===== src/Sessions/Tokens/Saved.antt =====
-- `SaveTokens` and the token getters of sessions/token_handling.go.
use renku_gateway.Prelude.{
  ℕ, String, eq_refl, ==_refl, str_eq-false, lookup, lookup-insert, ◌≡◌, ◌≢◌, refl, ap, ◌∙◌, inl,
  inr, false, none, some, Result-cases, ◌==◌, ok, err, Error, token_not_found, >>=-eq-ok, ◌>>◌,
  arith,
}
use renku_gateway.Models.Token.{AuthToken, access_token_type}
use renku_gateway.Models.TokenSet.{
  AuthTokenSet, IsCoherent, validate_tokens_type, validate_tokens_type_iff,
}
use renku_gateway.Models.Session.{Session}
use renku_gateway.Sessions.Context.{Context, update, Action, backend_op, backend_op-eq-ok}
use renku_gateway.Sessions.Store.{SessionStore}
use renku_gateway.Sessions.Tokens.{
  with_token, get_auth_token_from_context, get_access_token, get_refresh_token, get_id_token,
  save_tokens,
}

module _ {B : Type 0} (sessions : SessionStore B) where
  open sessions use {token_store}

  -- A set of tokens that does not belong together is refused, and nothing is changed.
  pub save_tokens_refused :
      (p : ℕ) (tokens : AuthTokenSet) (c : Context B)
      → ¬ IsCoherent tokens
      → (e : Error) × (save_tokens sessions p tokens c ≡ (err e, c))
  unfolding save_tokens
  save_tokens_refused p tokens c bad = elim (Result-cases (validate_tokens_type tokens)) [
    | inl (_, valid) ↦ absurd (bad ((validate_tokens_type_iff tokens).0 valid))
    | inr (e, invalid) ↦ (e, rw invalid refl)
  ]

  -- The three tokens are written, in order, and the heap stays as it is.
  pub record IsWritten (tokens : AuthTokenSet) (c c' : Context B) : Type 0 where
    pub after_access : B
    pub after_refresh : B
    pub access_written :
        token_store.set_access_token tokens.access_token c.backend ≡ (ok tt, after_access)
    pub refresh_written :
        token_store.set_refresh_token tokens.refresh_token after_access ≡ (ok tt, after_refresh)
    pub id_written : token_store.set_id_token tokens.id_token after_refresh ≡ (ok tt, c'.backend)
    pub heap_kept : c'.heap ≡ c.heap

  abbrev write_all : AuthTokenSet → Action B (Unit {0})
  write_all tokens =
      backend_op (token_store.set_access_token tokens.access_token)
      >> (backend_op (token_store.set_refresh_token tokens.refresh_token)
          >> backend_op (token_store.set_id_token tokens.id_token))

  write_all-IsWritten :
      (tokens : AuthTokenSet) (c c' : Context B)
      → write_all tokens c ≡ (ok tt, c')
      → IsWritten tokens c c'
  write_all-IsWritten tokens c c' e =
      let (_, c₁, p₁, e₁) =
        >>=-eq-ok (backend_op (token_store.set_access_token tokens.access_token))
          (λ _.
            backend_op (token_store.set_refresh_token tokens.refresh_token)
            >> backend_op (token_store.set_id_token tokens.id_token))
          c e in
      let (_, c₂, p₂, e₂) =
        >>=-eq-ok (backend_op (token_store.set_refresh_token tokens.refresh_token))
          (λ _. backend_op (token_store.set_id_token tokens.id_token)) c₁ e₁ in
      let (w₁, s₁) =
        backend_op-eq-ok (token_store.set_access_token tokens.access_token) c {c' = c₁} p₁ in
      let (w₂, s₂) =
        backend_op-eq-ok (token_store.set_refresh_token tokens.refresh_token) c₁ {c' = c₂} p₂ in
      let (w₃, s₃) = backend_op-eq-ok (token_store.set_id_token tokens.id_token) c₂ {c' = c'} e₂ in
      record {
        after_access = c₁.backend;
        after_refresh = c₂.backend;
        access_written = w₁;
        refresh_written = w₂;
        id_written = w₃;
        heap_kept = ap (λ x. x.heap) s₃ ∙ ap (λ x. x.heap) s₂ ∙ ap (λ x. x.heap) s₁;
      }

  -- The state after the tokens of a login have been saved for the session at `p`.
  pub record IsSaved (p : ℕ) (tokens : AuthTokenSet) (c c' : Context B) : Type 0 where
    pub coherent : IsCoherent tokens
    pub token_id :
        lookup tokens.access_token.provider_id (c'.heap p).token_ids ≡ some tokens.access_token.id
    pub other_ids :
        (provider_id : String)
        → tokens.access_token.provider_id ≢ provider_id
        → lookup provider_id (c'.heap p).token_ids ≡ lookup provider_id (c.heap p).token_ids
    pub other_sessions : (q : ℕ) → (q == p) ≡ false → c'.heap q ≡ c.heap q
    pub changed : Context B
    pub same_backend : changed.backend ≡ c.backend
    pub written : IsWritten tokens changed c'

  abbrev pub changed_at : ℕ → AuthTokenSet → Context B → Context B
  changed_at p tokens c = record c {
    heap = update c.heap p (with_token sessions tokens (c.heap p));
  }

  changed-IsSaved :
      (p : ℕ) (tokens : AuthTokenSet) (c c' : Context B)
      → IsCoherent tokens
      → IsWritten tokens (changed_at p tokens c) c'
      → IsSaved p tokens c c'
  changed-IsSaved p tokens c c' valid w = record {
    coherent = valid;
    token_id = rw w.heap_kept (simp (==_refl, lookup-insert, eq_refl));
    other_ids = λ j other.
        rw w.heap_kept
          (simp (==_refl, lookup-insert, str_eq-false tokens.access_token.provider_id j other));
    other_sessions = λ q other. rw (w.heap_kept, other) refl;
    changed = changed_at p tokens c;
    same_backend = refl;
    written = w;
  }

  -- When `SaveTokens` succeeds the tokens belong together, the session at `p` refers to them under
  -- their provider and to all others as before, no other session has changed, and the three tokens
  -- have been written to the token store, in order.
  pub save_tokens-IsSaved :
      (p : ℕ) (tokens : AuthTokenSet) (c c' : Context B)
      → save_tokens sessions p tokens c ≡ (ok tt, c')
      → IsSaved p tokens c c'
  unfolding save_tokens
  save_tokens-IsSaved p tokens c c' e = elim (Result-cases (validate_tokens_type tokens)) [
    | inr (x, invalid) ↦ absurd (ground arith)
    | inl (_, valid) ↦
        changed-IsSaved p tokens c c' ((validate_tokens_type_iff tokens).0 valid)
          (write_all-IsWritten tokens (changed_at p tokens c) c' (rw valid at e))
  ]

  -- A session without a token of the provider has none, whatever the token store holds.
  pub get_token_absent :
      (session : Session) (provider_id : String) (c : Context B)
      → lookup provider_id session.token_ids ≡ none
      → (get_access_token sessions session provider_id c ≡ (err token_not_found, c))
        × (get_refresh_token sessions session provider_id c ≡ (err token_not_found, c))
        × (get_id_token sessions session provider_id c ≡ (err token_not_found, c))
  unfolding get_access_token get_refresh_token get_id_token
  get_token_absent session provider_id c h = (rw h refl, rw h refl, rw h refl)

  -- A token of any other type in the request context, such as a refresh token or an ID token, is
  -- never used: the context accepts only tokens of the access type, under each of the three keys.
  pub context_only_access :
      (key : String) (o : AuthToken) (c c' : Context B)
      → get_auth_token_from_context sessions key c ≡ (ok o, c')
      → o.type ≡ access_token_type
  unfolding get_auth_token_from_context
  context_only_access key o c c' e = ground arith
