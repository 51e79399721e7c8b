-- ===== src/Tests/Database.antt =====
-- The mock of Redis and the encryption (db).
use renku_gateway.Prelude.{
  ℕ, ◌==◌, String, ◌≡◌, refl, [], none, some, ok, err, other, Result, arith, Bool-cases, inl, inr,
  if◌then◌else◌,
}
use renku_gateway.Db.Encryption.{
  Aead, GcmEncryptor, Fills, size, decrypt, as_encryptor, as_encryptor-IsFaithful, decrypt_short,
}
use renku_gateway.Db.Mock.{MockRedisClient}
use renku_gateway.Models.Token.Encryption.{IsFaithful}

abbrev empty_mock : MockRedisClient
empty_mock = record { store = [] }

-- A cipher with two bytes of nonce, which leaves the text as it is.
abbrev open_cipher : Aead
open_cipher = record { nonce_size = 2; seal = λ n v. v; open_sealed = λ n c. ok c }

abbrev gcm : GcmEncryptor
gcm = record { cipher = open_cipher }

abbrev read_full : ℕ → Result String
read_full n = if n == 2 then ok "no" else err (other "no more random bytes")

read_full-Fills : Fills read_full
unfolding size
read_full-Fills n bytes e = elim (Bool-cases (n == 2)) [
  | inl two ↦
      let drawn : ok "no" ≡ ok bytes = rw two at e in
      let same : "no" ≡ bytes = ground arith in rw (← same) (ground arith)
  | inr more ↦ absurd (failed (err (other "no more random bytes")) refl (rw more at e))
]
  where
    failed : (r : Result String) → r ≡ err (other "no more random bytes") → r ≡ ok bytes → ⊥
    failed r same h = cc

as_encryptor-IsFaithful_example : IsFaithful (some (as_encryptor gcm (λ v. read_full)))
as_encryptor-IsFaithful_example =
    as_encryptor-IsFaithful gcm (λ v. read_full) (λ drawn v full. refl) (λ v. read_full-Fills)

decrypt_short_example : decrypt gcm "x" ≡ none
unfolding size
decrypt_short_example = decrypt_short gcm "x" (omega arith)
