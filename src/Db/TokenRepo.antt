-- ===== src/Db/TokenRepo.antt =====
-- db/token_repo_redis.go
pub mod Keys
pub mod RoundTrip
use renku_gateway.Prelude.{
  String, ◌+++◌, Dict, ℤ, pos, ◌+ℤ◌, is_zero, Bool, not, Option, Result, ok, err, other, Error,
  token_not_found, is_missing_db_resource, Exec, pure, raise, lift, attempt, ◌>>=◌, ◌>>◌,
  if◌then◌else◌,
}
use renku_gateway.Models.Token.{
  AuthToken, Encryptor, OauthTokenType, access_token_type, refresh_token_type, id_token_type,
  unknown_type, encrypt, decrypt,
}
use renku_gateway.Models.TokenSet.{is_access, is_refresh, is_id}
use renku_gateway.Db.Client.{RedisClient}
use renku_gateway.Db.Serialize.{Codec, serialize_token, deserialize_to_struct}

pub record RedisAdapter (R : Type 0) : Type 0 where
  pub rdb : RedisClient R
  pub encryptor : Option Encryptor
  pub codec : Codec

-- tokenExpiresAtLeeway, in nanoseconds
abbrev pub token_expires_at_leeway : ℤ
token_expires_at_leeway = pos 10000000000

unfoldable pub access_token_key : String → String
access_token_key token_id = "accessToken" +++ (":" +++ token_id)

unfoldable pub refresh_token_key : String → String
refresh_token_key token_id = "refreshToken" +++ (":" +++ token_id)

unfoldable pub id_token_key : String → String
id_token_key token_id = "idToken" +++ (":" +++ token_id)

abbrev key_of : OauthTokenType → String → String
key_of access_token_type token_id = access_token_key token_id
key_of refresh_token_type token_id = refresh_token_key token_id
key_of id_token_type token_id = id_token_key token_id
key_of (unknown_type s) token_id = "unknown:" +++ token_id

unfoldable pub get_token_key : AuthToken → String
get_token_key token = key_of token.type token.id

unfoldable pub validate_token_type : OauthTokenType → Result (Unit {0})
validate_token_type access_token_type = ok tt
validate_token_type refresh_token_type = ok tt
validate_token_type id_token_type = ok tt
validate_token_type (unknown_type s) = err (other "unknown token type")

abbrev missing_is_token_not_found : Result AuthToken → Result AuthToken
missing_is_token_not_found (ok o) = ok o
missing_is_token_not_found (err e) = err (if is_missing_db_resource e then token_not_found else e)

module _ {R : Type 0} (r : RedisAdapter R) where
  unfoldable pub get_auth_token : String → Exec R AuthToken
  unfolding deserialize_to_struct
  get_auth_token key = do
    raw ← r.rdb.hget_all key
    output ← lift (missing_is_token_not_found (deserialize_to_struct r.codec.decode_token raw))
    lift (decrypt output r.encryptor)

  unfoldable pub set_auth_token : AuthToken → Exec R (Unit {0})
  unfolding validate_token_type
  set_auth_token token = do
    lift (validate_token_type token.type)
    enc_token ← lift (encrypt token r.encryptor)
    r.rdb.hset (get_token_key token) (serialize_token r.codec enc_token)
    (if is_zero token.expires_at
        then r.rdb.persist (get_token_key token)
        else r.rdb.expire_at (get_token_key token) (token.expires_at +ℤ token_expires_at_leeway))

  unfoldable pub get_access_token : String → Exec R AuthToken
  get_access_token token_id = get_auth_token (access_token_key token_id)

  unfoldable pub get_refresh_token : String → Exec R AuthToken
  get_refresh_token token_id = get_auth_token (refresh_token_key token_id)

  unfoldable pub get_id_token : String → Exec R AuthToken
  get_id_token token_id = get_auth_token (id_token_key token_id)

  unfoldable pub set_access_token : AuthToken → Exec R (Unit {0})
  set_access_token token =
      if not (is_access token.type)
      then raise (other "token is not of the right type")
      else set_auth_token token

  unfoldable pub set_refresh_token : AuthToken → Exec R (Unit {0})
  set_refresh_token token =
      if not (is_refresh token.type)
      then raise (other "token is not of the right type")
      else set_auth_token token

  unfoldable pub set_id_token : AuthToken → Exec R (Unit {0})
  set_id_token token =
      if not (is_id token.type)
      then raise (other "token is not of the right type")
      else set_auth_token token
