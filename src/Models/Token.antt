-- ===== src/Models/Token.antt =====
-- internal/models/token.go and serializable_token_type.go
pub mod Expiry
pub mod Encryption
use renku_gateway.Prelude.{
  ℕ, String, ℤ, pos, ◌+ℤ◌, ltb_ℤ, is_zero, Bool, false, Option, none, some, Result, ok, err,
  if◌then◌else◌,
}

-- `OauthTokenType` is a Go string: its three constants, and any other text.
pub data OauthTokenType : Type 0 where
  access_token_type refresh_token_type id_token_type : OauthTokenType
  unknown_type : String → OauthTokenType

-- `expires_at` is in nanoseconds since the zero value of `time.Time`.
pub record AuthToken : Type 0 where
  pub id : String
  pub value : String
  pub expires_at : ℤ
  pub subject : String
  pub token_url : String
  pub provider_id : String
  pub type : OauthTokenType

-- The zero value `AuthToken{}`.
abbrev pub zero_token : AuthToken
zero_token = record {
  id = "";
  value = "";
  expires_at = pos 0;
  subject = "";
  token_url = "";
  provider_id = "";
  type = unknown_type "";
}

-- models/encryptor.go; the implementation is `crypto/cipher` behind db/encryption.go.
pub record Encryptor : Type 0 where
  pub encrypt : String → Result String
  pub decrypt : String → Result String

abbrev with_value : AuthToken → Result String → Result AuthToken
with_value o (ok v) = ok (record o { value = v })
with_value o (err e) = err e

unfoldable pub encrypt : AuthToken → Option Encryptor → Result AuthToken
encrypt o none = ok o
encrypt o (some e) = with_value o (e.encrypt o.value)

unfoldable pub decrypt : AuthToken → Option Encryptor → Result AuthToken
decrypt o none = ok o
decrypt o (some e) = with_value o (e.decrypt o.value)

-- `now` is the reading of `time.Now().UTC()`.
unfoldable pub expired : ℤ → AuthToken → Bool
expired now o = if is_zero o.expires_at then false else ltb_ℤ o.expires_at now

-- now.After(expires_at.Add(-margin)): on unbounded instants, expires_at < now + margin.
unfoldable pub expires_soon : ℤ → ℤ → AuthToken → Bool
expires_soon now margin o =
    if is_zero o.expires_at then false else ltb_ℤ o.expires_at (now +ℤ margin)
