-- ===== src/Db/Encryption.antt =====
-- db/encryption.go: values encrypted with AES in GCM mode, the nonce first.
use renku_gateway.Prelude.{
  ℕ, zero, suc, ◌<◌, String, ◌+++◌, Option, none, some, ◌≡◌, refl, ap, arith, Result, ok, err,
  Error, other, and_then, Result-cases, inl, inr,
}
use text.Mathlib.TextLemmas.{nil-append, cons-append}
use renku_gateway.Models.Token.{Encryptor}
use renku_gateway.Models.Token.Encryption.{IsFaithful}

-- cipher.AEAD of crypto/cipher, without additional data: `seal nonce plaintext` is what Seal
-- appends to its first argument, `open_sealed nonce ciphertext` what Open returns.
pub record Aead : Type 0 where
  pub nonce_size : ℕ
  pub seal : String → String → String
  pub open_sealed : String → String → Result String

pub record GcmEncryptor : Type 0 where
  pub cipher : Aead

-- `rand.Reader` as one call of it goes: what io.ReadFull reads into a slice of the given length.
unfoldable pub nonce : GcmEncryptor → (ℕ → Result String) → Result String
nonce g read_full = read_full g.cipher.nonce_size

unfoldable pub encrypt : GcmEncryptor → (ℕ → Result String) → String → Result String
unfolding nonce
encrypt g read_full val =
    and_then (nonce g read_full) (λ drawn. ok (drawn +++ g.cipher.seal drawn val))

-- len(s), where each character stands for a byte, since a ciphertext is any bytes.
unfoldable pub size : String → ℕ
size String.[] = 0
size (String.◌∷◌ c s) = suc (size s)

-- val[:n] and val[n:]; `none` is the panic where the text is too short.
unfoldable pub split_at : ℕ → String → Option (String × String)
split_at zero s = some (String.[], s)
split_at (suc n) String.[] = none
split_at (suc n) (String.◌∷◌ c s) = elim (split_at n s) [
  | none ↦ none
  | some (a, b) ↦ some (String.◌∷◌ c a, b)
]

abbrev opened : Aead → Option (String × String) → Option (Result String)
opened c none = none
opened c (some (drawn, ciphertext)) = some (c.open_sealed drawn ciphertext)

-- `none` is the panic of the slices.
unfoldable pub decrypt : GcmEncryptor → String → Option (Result String)
unfolding split_at
decrypt g val = opened g.cipher (split_at g.cipher.nonce_size val)

abbrev with_cipher : Result Aead → Result GcmEncryptor
with_cipher (err e) = err e
with_cipher (ok c) = ok (record { cipher = c })

-- aes.NewCipher and cipher.NewGCM are of the standard library.
unfoldable pub new_gcm_encryptor :
    {Block : Type 0}
    → (String → Result Block)
    → (Block → Result Aead)
    → String
    → Result GcmEncryptor
new_gcm_encryptor new_cipher new_gcm secret = with_cipher (and_then (new_cipher secret) new_gcm)

split_at-append : (a b : String) → split_at (size a) (a +++ b) ≡ some (a, b)
unfolding split_at size
split_at-append String.[] b = rw nil-append
split_at-append (String.◌∷◌ c a) b = rw cons-append (rw (split_at-append a b) refl)

split_at_short : (n : ℕ) (s : String) → size s < n → split_at n s ≡ none
unfolding split_at size
split_at_short zero s h = absurd (ground (arith, h))
split_at_short (suc n) String.[] h = refl
split_at_short (suc n) (String.◌∷◌ c s) h = rw (split_at_short n s (omega arith)) refl

-- The documented behaviour of the packages: a sealed value opens under its nonce, and io.ReadFull
-- fills the whole slice or fails.
abbrev pub Opens : Aead → Type 0
Opens c =
    (drawn v : String) → size drawn ≡ c.nonce_size → c.open_sealed drawn (c.seal drawn v) ≡ ok v

abbrev pub Fills : (ℕ → Result String) → Type 0
Fills read_full = (n : ℕ) (bytes : String) → read_full n ≡ ok bytes → size bytes ≡ n

-- Whatever the random bytes are, a value that has been encrypted decrypts to that value, without a panic.
pub decrypt-encrypt_gcm :
    (g : GcmEncryptor) (read_full : ℕ → Result String) (v w : String)
    → Opens g.cipher
    → Fills read_full
    → encrypt g read_full v ≡ ok w
    → decrypt g w ≡ some (ok v)
unfolding encrypt decrypt
decrypt-encrypt_gcm g read_full v w opens fills e =
    elim (Result-cases (read_full g.cipher.nonce_size)) [
      | inr (x, bad) ↦ absurd (by_error x (err x) refl (rw bad at e))
      | inl (drawn, good) ↦ by_nonce drawn (fills g.cipher.nonce_size drawn good) (rw good at e)
    ]
  where
    by_error : (x : Error) (r : Result String) → r ≡ err x → r ≡ ok w → ⊥
    by_error x r p q = cc

    by_nonce :
        (drawn : String)
        → size drawn ≡ g.cipher.nonce_size
        → ok (drawn +++ g.cipher.seal drawn v) ≡ ok w
        → opened g.cipher (split_at g.cipher.nonce_size w) ≡ some (ok v)
    by_nonce drawn full p =
        let same : drawn +++ g.cipher.seal drawn v ≡ w = ground arith in
        rw (← same, ← full, split_at-append drawn (g.cipher.seal drawn v))
          (ap (λ r. some r) (opens drawn v full))

-- A stored value that is shorter than a nonce makes `Decrypt` panic, where the other bad values make it
-- return an error.
pub decrypt_short :
    (g : GcmEncryptor) (w : String) → size w < g.cipher.nonce_size → decrypt g w ≡ none
unfolding decrypt
decrypt_short g w h = rw (split_at_short g.cipher.nonce_size w h) refl

-- The encryptor as the adapter sees it, where the random bytes may be others for each value, and a panic
-- ends the request as an error does.
abbrev panic_is_error : Option (Result String) → Result String
panic_is_error none = err (other "panic: slice bounds out of range")
panic_is_error (some r) = r

unfoldable pub as_encryptor : GcmEncryptor → (String → ℕ → Result String) → Encryptor
as_encryptor g draws = record {
  encrypt = λ v. encrypt g (draws v) v;
  decrypt = λ w. panic_is_error (decrypt g w);
}

-- An encryptor over a cipher that opens what it has sealed is faithful, whatever random bytes it draws
-- for each value: what it has encrypted it decrypts to the same value, without a panic.
pub as_encryptor-IsFaithful :
    (g : GcmEncryptor) (draws : String → ℕ → Result String)
    → Opens g.cipher
    → ((v : String) → Fills (draws v))
    → IsFaithful (some (as_encryptor g draws))
unfolding as_encryptor
as_encryptor-IsFaithful g draws opens fills v w e =
    ap panic_is_error (decrypt-encrypt_gcm g (draws v) v w opens (fills v) e)
