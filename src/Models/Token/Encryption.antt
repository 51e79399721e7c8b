-- ===== src/Models/Token/Encryption.antt =====
-- `Encrypt` and `Decrypt` of models/token.go.
use renku_gateway.Prelude.{String, ◌≡◌, refl, Option, none, some, Result, ok, err, arith}
use renku_gateway.Models.Token.{AuthToken, Encryptor, with_value, encrypt, decrypt}

-- What an encryptor promises: a value that it has encrypted decrypts to that value.
abbrev pub IsFaithful : Option Encryptor → Type 0
IsFaithful none = Unit
IsFaithful (some e) = (v w : String) → e.encrypt v ≡ ok w → e.decrypt w ≡ ok v

-- With a faithful encryptor, or none, decrypting an encrypted token gives back the token, all of its
-- fields included.
pub decrypt-encrypt :
    (e : Option Encryptor) (o o' : AuthToken)
    → IsFaithful e
    → encrypt o e ≡ ok o'
    → decrypt o' e ≡ ok o
unfolding encrypt decrypt
decrypt-encrypt none o o' h p = ground arith
decrypt-encrypt (some e) o o' h p = by_value (e.encrypt o.value) refl p
  where
    by_value :
        (r : Result String)
        → e.encrypt o.value ≡ r
        → with_value o r ≡ ok o'
        → decrypt o' (some e) ≡ ok o
    by_value (ok w) q p = ground (arith, h o.value w q)
    by_value (err x) q p = ground arith
