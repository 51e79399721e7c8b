-- ===== src/Models/TokenSet.antt =====
-- internal/models/token_set.go
use renku_gateway.Prelude.{
  str_eq, eq_iff, ◌≡◌, ◌↔◌, Bool, true, false, not, ◌||◌, Result, ok, err, other, if◌then◌else◌,
  arith,
}
use renku_gateway.Models.Token.{
  AuthToken, OauthTokenType, access_token_type, refresh_token_type, id_token_type,
}

pub record AuthTokenSet : Type 0 where
  pub access_token : AuthToken
  pub refresh_token : AuthToken
  pub id_token : AuthToken

abbrev pub is_access : OauthTokenType → Bool
is_access access_token_type = true
is_access _ = false

abbrev pub is_refresh : OauthTokenType → Bool
is_refresh refresh_token_type = true
is_refresh _ = false

abbrev pub is_id : OauthTokenType → Bool
is_id id_token_type = true
is_id _ = false

unfoldable pub validate_tokens_type : AuthTokenSet → Result (Unit {0})
validate_tokens_type s =
    if not (str_eq s.access_token.id s.refresh_token.id)
      || not (str_eq s.access_token.id s.id_token.id)
    then err (other "tokens in a set should have the same ID")
    else if not (str_eq s.access_token.provider_id s.refresh_token.provider_id)
        || not (str_eq s.access_token.provider_id s.id_token.provider_id)
    then err (other "tokens in a set should have the same provider ID")
    else if not (is_access s.access_token.type)
    then err (other "invalid type for access token")
    else if not (is_refresh s.refresh_token.type)
    then err (other "invalid type for refresh token")
    else if not (is_id s.id_token.type)
    then err (other "invalid type for ID token")
    else ok tt

-- One login's tokens: the same ID and provider, and each of its own type.
pub record IsCoherent (s : AuthTokenSet) : Type 0 where
  pub refresh_same_id : s.access_token.id ≡ s.refresh_token.id
  pub id_same_id : s.access_token.id ≡ s.id_token.id
  pub refresh_same_provider : s.access_token.provider_id ≡ s.refresh_token.provider_id
  pub id_same_provider : s.access_token.provider_id ≡ s.id_token.provider_id
  pub access_type : s.access_token.type ≡ access_token_type
  pub refresh_type : s.refresh_token.type ≡ refresh_token_type
  pub id_type : s.id_token.type ≡ id_token_type

-- The validation accepts exactly the coherent sets.
pub validate_tokens_type_iff : (s : AuthTokenSet) → (validate_tokens_type s ≡ ok tt) ↔ IsCoherent s
unfolding validate_tokens_type
validate_tokens_type_iff s = ground (
  arith,
  eq_iff s.access_token.id s.refresh_token.id,
  eq_iff s.access_token.id s.id_token.id,
  eq_iff s.access_token.provider_id s.refresh_token.provider_id,
  eq_iff s.access_token.provider_id s.id_token.provider_id,
)
