-- ===== src/Tests/Tokens.antt =====
-- Tokens that are refreshed, and sets of tokens (tokenstore, models, oidc).
use renku_gateway.Prelude.{String, ℤ, pos, ◌+ℤ◌, some, Option, refl, inl, ok, Error}
use renku_gateway.Models.Token.{
  AuthToken, access_token_type, refresh_token_type, id_token_type, expired, expires_soon,
}
use renku_gateway.Models.TokenSet.{AuthTokenSet}
use renku_gateway.TokenStore.{
  TokenStore, TokenRepository, get_fresh_access_token, refresh_access_token,
}
use renku_gateway.TokenStore.Fresh.{IsFresh, get_fresh_access_token-IsFresh}
use renku_gateway.Oidc.{OauthToken, IdTokenClaims, Tokens, RelyingParty, OidcClient, token_set}
use renku_gateway.Oidc
use renku_gateway.Tests.Memory.{access, refresh, id_token}

abbrev tokens : AuthTokenSet
tokens = record { access_token = access; refresh_token = refresh; id_token = id_token }

-- The world is the clock; the repository holds one token of each type.
abbrev repository : TokenRepository ℤ
repository = record {
  get_access_token = λ id w. (ok access, w);
  set_access_token = λ o w. (ok tt, w);
  get_refresh_token = λ id w. (ok refresh, w);
  set_refresh_token = λ o w. (ok tt, w);
  get_id_token = λ id w. (ok id_token, w);
  set_id_token = λ o w. (ok tt, w);
}

abbrev renewed : AuthTokenSet
renewed = record {
  access_token = record access { expires_at = pos 900 };
  refresh_token = refresh;
  id_token = id_token;
}

abbrev store : TokenStore ℤ
store = record {
  expiry_margin = pos 60;
  refresh = λ o w. (ok renewed, w);
  token_repo = repository;
  now = λ w. (w, w);
}

abbrev new_access : AuthToken
new_access = record access { expires_at = pos 900 }

get_fresh_access_token-IsFresh_example : IsFresh store new_access (pos 150)
unfolding get_fresh_access_token expires_soon ◌+ℤ◌ refresh_access_token expired
get_fresh_access_token-IsFresh_example =
    get_fresh_access_token-IsFresh store "renku:u1" new_access (pos 150) (pos 150) (inl refl)

-- A provider whose refresh tokens are JWTs only if they begin so.
abbrev answer : String → OauthToken
answer refresh_token = record {
  access_token = "A2";
  refresh_token = refresh_token;
  expiry = pos 900;
  id_token = some "I2";
}

abbrev claims : IdTokenClaims
claims = record { subject = "u1"; expiration = pos 900 }

abbrev provider : String → Option Error → OidcClient ℤ
provider refresh_token e = record {
  id = "gitlab";
  client = record {
    token_url = "https://gitlab/token";
    refresh_tokens = λ value w. (ok (answer refresh_token), w);
    parse_token = λ value. (pos 0, e);
    verify_tokens = λ access_token raw w. (ok claims, w);
    generate_id = λ w. (ok "n1", w);
  };
}

abbrev exchanged : Tokens
exchanged = record {
  access_token = "A2";
  refresh_token = "R2";
  expiry = pos 900;
  id_token = "I2";
  id_token_claims = claims;
}

abbrev new_set : AuthTokenSet
new_set = record {
  access_token = record {
    id = "n1";
    type = access_token_type;
    value = "A2";
    expires_at = pos 900;
    token_url = "https://gitlab/token";
    provider_id = "gitlab";
    subject = "u1";
  };
  refresh_token = record {
    id = "n1";
    type = refresh_token_type;
    value = "R2";
    expires_at = pos 0;
    token_url = "https://gitlab/token";
    provider_id = "gitlab";
    subject = "u1";
  };
  id_token = record {
    id = "n1";
    type = id_token_type;
    value = "I2";
    expires_at = pos 900;
    token_url = "";
    provider_id = "gitlab";
    subject = "u1";
  };
}
