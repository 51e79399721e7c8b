-- ===== src/Config/Keys.antt =====
-- The lengths of the cookie keys: `WithConfig` of sessions/session_store.go and `validateConfig` of
-- oidc/client.go.
use renku_gateway.Prelude.{
  ltb, ◌==◌, true, not, ◌&&◌, ◌||◌, ◌≡◌, ◌⊎◌, ◌↔◌, Result, ok, err, other, if◌then◌else◌, arith,
}
use Prim.Native.String.{len}
use renku_gateway.Config.{SessionConfig, OidcClient}

-- The checks of `WithConfig`, before the cookie handler is made from the two keys.
unfoldable pub check_session_keys : SessionConfig → Result (Unit {0})
check_session_keys c =
    if ltb 0 (len c.cookie_encoding_key)
      && not (len c.cookie_encoding_key == 16 || len c.cookie_encoding_key == 32)
    then err (other "invalid length for cookie encryption key, allowed sizes are 16 or 32")
    else if ltb 0 (len c.cookie_hash_key) && not (len c.cookie_hash_key == 32)
    then err (other "invalid length for cookie hash key, allowed size is 32")
    else if not c.unsafe_no_cookie_handler && len c.cookie_hash_key == 0
    then err (other "the cookie hash key is not set")
    else ok tt

unfoldable pub validate_oidc_config : OidcClient → Result (Unit {0})
validate_oidc_config c =
    if ltb 0 (len c.cookie_encoding_key)
      && not (len c.cookie_encoding_key == 16 || len c.cookie_encoding_key == 32)
    then err (other "invalid length for oauth2 state cookie encryption key")
    else if ltb 0 (len c.cookie_hash_key) && not (len c.cookie_hash_key == 32)
    then err (other "invalid length for oauth2 state cookie hash key")
    else ok tt

-- The encryption key is absent or has 16 or 32 bytes, and the hash key has 32, or none where the cookie
-- handler is switched off.
abbrev pub KeysValid : SessionConfig → Type 0
KeysValid c =
    ((len c.cookie_encoding_key ≡ 0)
      ⊎ ((len c.cookie_encoding_key ≡ 16) ⊎ (len c.cookie_encoding_key ≡ 32)))
    × ((len c.cookie_hash_key ≡ 32)
        ⊎ ((len c.cookie_hash_key ≡ 0) × (c.unsafe_no_cookie_handler ≡ true)))

pub check_session_keys_iff : (c : SessionConfig) → (check_session_keys c ≡ ok tt) ↔ KeysValid c
unfolding check_session_keys
check_session_keys_iff c = ground arith
