-- ===== src/Oidc.antt =====
-- oidc/client.go
pub mod Store
pub mod Renewal
pub mod Setup
use renku_gateway.Prelude.{
  String, str_eq, ℤ, Option, none, some, Result, ok, err, Error, Exec, pure, lift, attempt, ◌>>=◌,
  ◌>>◌, if◌then◌else◌,
}
use renku_gateway.Models.Token.{
  AuthToken, zero_token, access_token_type, refresh_token_type, id_token_type,
}
use renku_gateway.Models.TokenSet.{AuthTokenSet}

-- oauth2.Token, with `Extra("id_token")` where it is a string.
pub record OauthToken : Type 0 where
  pub access_token : String
  pub refresh_token : String
  pub expiry : ℤ
  pub id_token : Option String

pub record IdTokenClaims : Type 0 where
  pub subject : String
  pub expiration : ℤ

-- oidc.Tokens[*oidc.IDTokenClaims], after a code exchange.
pub record Tokens : Type 0 where
  pub access_token : String
  pub refresh_token : String
  pub expiry : ℤ
  pub id_token : String
  pub id_token_claims : IdTokenClaims

-- The functions of the OIDC library and the generator of IDs that a client calls. `parse_token` is
-- the expiry date that `ParseToken` leaves in the claims, and its error.
pub record RelyingParty (S : Type 0) : Type 0 where
  pub token_url : String
  pub refresh_tokens : String → Exec S OauthToken
  pub parse_token : String → ℤ × Option Error
  pub verify_tokens : String → String → Exec S IdTokenClaims
  pub generate_id : Exec S String

pub record OidcClient (S : Type 0) : Type 0 where
  pub client : RelyingParty S
  pub id : String

abbrev pub TokenSetCallback : Type 0 → Type 0
TokenSetCallback S = AuthTokenSet → Exec S (Unit {0})

module _ {S : Type 0} (c : OidcClient S) where
  -- The set of tokens that a code exchange makes.
  unfoldable pub token_set : String → Tokens → AuthTokenSet
  token_set id tokens =
      let access_token = record zero_token {
        id = id;
        type = access_token_type;
        value = tokens.access_token;
        token_url = c.client.token_url;
        subject = tokens.id_token_claims.subject;
        expires_at = tokens.expiry;
        provider_id = c.id;
      } in
      let refresh_token = record zero_token {
        id = id;
        type = refresh_token_type;
        value = tokens.refresh_token;
        token_url = c.client.token_url;
        subject = tokens.id_token_claims.subject;
        expires_at = (c.client.parse_token tokens.refresh_token).0;
        provider_id = c.id;
      } in
      let id_token = record zero_token {
        id = id;
        type = id_token_type;
        value = tokens.id_token;
        expires_at = tokens.id_token_claims.expiration;
        subject = tokens.id_token_claims.subject;
        provider_id = c.id;
      } in
      record { access_token = access_token; refresh_token = refresh_token; id_token = id_token }

  abbrev pub reported : (Error → Exec S (Unit {0})) → Result (Unit {0}) → Exec S (Unit {0})
  reported http_error (err e) = http_error e
  reported http_error (ok u) = pure tt

  abbrev pub exchanged :
      (Error → Exec S (Unit {0})) → TokenSetCallback S → Tokens → Result String → Exec S (Unit {0})
  exchanged http_error callback tokens (err e) = http_error e
  exchanged http_error callback tokens (ok id) = do
    done ← attempt (callback (token_set id tokens))
    reported http_error done

  -- An error is written to the response by `http_error`, which is http.Error with status 500. An
  -- error of `ParseToken` is only logged here.
  unfoldable pub code_exchange_callback :
      (Error → Exec S (Unit {0})) → TokenSetCallback S → Tokens → Exec S (Unit {0})
  unfolding token_set
  code_exchange_callback http_error callback tokens = do
    id ← attempt c.client.generate_id
    exchanged http_error callback tokens id

  abbrev renewed_access_token : String → OauthToken → AuthToken
  renewed_access_token id t = record zero_token {
    id = id;
    type = access_token_type;
    value = t.access_token;
    token_url = c.client.token_url;
    expires_at = t.expiry;
    provider_id = c.id;
  }

  abbrev renewed_refresh_token : String → OauthToken → AuthToken → AuthToken
  renewed_refresh_token id t old = if str_eq t.refresh_token "" then old else record zero_token {
    id = id;
    type = refresh_token_type;
    value = t.refresh_token;
    token_url = c.client.token_url;
    expires_at = (c.client.parse_token t.refresh_token).0;
    provider_id = c.id;
  }

  -- The error of `ParseToken` is kept in the variable `err` of the function.
  abbrev parse_error : OauthToken → Option Error
  parse_error t =
      if str_eq t.refresh_token "" then none else (c.client.parse_token t.refresh_token).1

  abbrev with_id_token :
      String → OauthToken → AuthToken → AuthToken → Option String → Exec S AuthTokenSet
  with_id_token id t access_token refresh_token none =
      pure (record {
        access_token = access_token;
        refresh_token = refresh_token;
        id_token = zero_token;
      })
  with_id_token id t access_token refresh_token (some raw) =
      if str_eq raw ""
      then pure (record {
        access_token = access_token;
        refresh_token = refresh_token;
        id_token = zero_token;
      })
      else (do
        claims ← c.client.verify_tokens t.access_token raw
        pure (record {
          access_token = record access_token { subject = claims.subject };
          refresh_token = record refresh_token { subject = claims.subject };
          id_token = record zero_token {
            id = id;
            type = id_token_type;
            value = raw;
            expires_at = claims.expiration;
            subject = claims.subject;
            provider_id = c.id;
          };
        }))

  abbrev unless : Option Error → AuthTokenSet → Result AuthTokenSet
  unless none tokens = ok tokens
  unless (some e) tokens = err e

  -- The last line returns the variable `err` beside the tokens.
  unfoldable pub refresh_access_token : AuthToken → Exec S AuthTokenSet
  refresh_access_token refresh_token = do
    t ← c.client.refresh_tokens refresh_token.value
    id ← c.client.generate_id
    tokens ←
        with_id_token id t (renewed_access_token id t) (renewed_refresh_token id t refresh_token)
          t.id_token
    lift (unless (parse_error t) tokens)
