-- ===== src/Oidc/Renewal.antt =====
-- The tokens that a client makes (oidc/client.go).
use renku_gateway.Prelude.{String, none, some, ◌≡◌, ◌⊎◌, refl, ok}
use renku_gateway.Models.Token.{
  AuthToken, zero_token, access_token_type, refresh_token_type, id_token_type,
}
use renku_gateway.Models.TokenSet.{AuthTokenSet, validate_tokens_type, validate_tokens_type_iff}
use renku_gateway.Oidc.{
  OauthToken, IdTokenClaims, Tokens, OidcClient, token_set, renewed_access_token,
  renewed_refresh_token,
}

module _ {S : Type 0} (c : OidcClient S) where
  open c use {client}

  -- The tokens of a code exchange pass the validation of `SaveTokens`, whatever the provider sent:
  -- they share the generated ID and the client's provider ID, and each has its own type.
  pub validate_tokens_type-token_set :
      (id : String) (tokens : Tokens) → validate_tokens_type (token_set c id tokens) ≡ ok tt
  unfolding token_set
  validate_tokens_type-token_set id tokens =
      (validate_tokens_type_iff (token_set c id tokens)).1 (record {
        refresh_same_id = refl;
        id_same_id = refl;
        refresh_same_provider = refl;
        id_same_provider = refl;
        access_type = refl;
        refresh_type = refl;
        id_type = refl;
      })

  -- What a refresh answers with when the provider has sent `t`, under the new ID `id`, with the subject of
  -- the ID token, or "": the access token, and either the new refresh token or the old one.
  abbrev pub access_of : String → OauthToken → String → AuthToken
  access_of id t subject = record {
    id = id;
    type = access_token_type;
    value = t.access_token;
    expires_at = t.expiry;
    token_url = client.token_url;
    provider_id = c.id;
    subject = subject;
  }

  abbrev pub rotated_of : String → OauthToken → String → AuthToken
  rotated_of id t subject = record {
    id = id;
    type = refresh_token_type;
    value = t.refresh_token;
    expires_at = (client.parse_token t.refresh_token).0;
    token_url = client.token_url;
    provider_id = c.id;
    subject = subject;
  }

  abbrev pub id_token_of : String → String → IdTokenClaims → AuthToken
  id_token_of id raw claims = record {
    id = id;
    type = id_token_type;
    value = raw;
    expires_at = claims.expiration;
    token_url = "";
    provider_id = c.id;
    subject = claims.subject;
  }

  -- The refresh token of the answer: the old one if the provider sent none, else the new one, which is a JWT.
  abbrev pub IsRotated :
      AuthToken → String → OauthToken → AuthToken → (AuthToken → AuthToken) → Type 0
  IsRotated old id t answered with_subject =
      ((t.refresh_token ≡ "") × (answered ≡ with_subject old))
      ⊎ (((client.parse_token t.refresh_token).1 ≡ none)
          × (answered ≡ with_subject (rotated_of id t "")))

  -- The provider sent no ID token.
  abbrev pub IsUnsigned : AuthToken → String → OauthToken → S → S → AuthTokenSet → Type 0
  IsUnsigned old id t s₂ s' tokens =
      ((t.id_token ≡ none) ⊎ (t.id_token ≡ some ""))
      × (s' ≡ s₂)
      × (tokens.access_token ≡ access_of id t "")
      × IsRotated old id t tokens.refresh_token (λ o. o)
      × (tokens.id_token ≡ zero_token)

  -- The provider sent one, which has been verified.
  abbrev pub IsSigned : AuthToken → String → OauthToken → S → S → AuthTokenSet → Type 0
  IsSigned old id t s₂ s' tokens =
      (raw : String) × (claims : IdTokenClaims) × (t.id_token ≡ some raw)
      × (client.verify_tokens t.access_token raw s₂ ≡ (ok claims, s'))
      × (tokens.access_token ≡ access_of id t claims.subject)
      × IsRotated old id t tokens.refresh_token (λ o. record o { subject = claims.subject })
      × (tokens.id_token ≡ id_token_of id raw claims)

  -- With the refresh token of `old` the refresh has gone from `s` to `s'` and given `tokens`.
  pub record IsRenewed (old : AuthToken) (s s' : S) (tokens : AuthTokenSet) : Type 0 where
    pub t : OauthToken
    pub id : String
    pub s₁ : S
    pub s₂ : S
    pub refreshed : client.refresh_tokens old.value s ≡ (ok t, s₁)
    pub generated : client.generate_id s₁ ≡ (ok id, s₂)
    pub signed : IsUnsigned old id t s₂ s' tokens ⊎ IsSigned old id t s₂ s' tokens

  abbrev bare : AuthToken → String → OauthToken → AuthTokenSet
  bare old id t = record {
    access_token = renewed_access_token c id t;
    refresh_token = renewed_refresh_token c id t old;
    id_token = zero_token;
  }
