-- ===== src/Db/TokenRepo/RoundTrip.antt =====
-- Writing and reading tokens in Redis (db/token_repo_redis.go).
use renku_gateway.Prelude.{
  String, Dict, is_unique, true, ℤ, pos, ◌+ℤ◌, ◌<ℤ◌, is_zero, Bool-cases, ◌≡◌, ◌≢◌, ◌⊎◌, inl, inr,
  refl, sym, ap, ◌∙◌, [], ◌∷◌, ◌++◌, err, Result-cases, Option, Option-cases, none, some, Result,
  ok, >>=-eq-ok, lift, and_then, arith, if◌then◌else◌,
}
use renku_gateway.Models.Token.{AuthToken, Encryptor, encrypt, decrypt}
use renku_gateway.Models.Token.Encryption.{IsFaithful, decrypt-encrypt}
use renku_gateway.Db.Client.{KeepsHashes, hash_of}
use renku_gateway.Db.Serialize.{
  Codec, TokenBack, serialize_token, marshal_type, deserialize_to_struct,
}
use renku_gateway.Db.TokenRepo.{
  missing_is_token_not_found, RedisAdapter, validate_token_type, get_token_key, get_auth_token,
  set_auth_token, token_expires_at_leeway,
}

-- A token that Redis will keep: its expiry date has a text form, and it is still to come, counting
-- the leeway, or there is none; and the decoder reads back what it was written as.
abbrev pub IsStorable : Codec → ℤ → AuthToken → Type 0
IsStorable codec now o =
    (codec.time_text o.expires_at ≢ none)
    × ((o.expires_at ≡ pos 0) ⊎ (now <ℤ o.expires_at +ℤ token_expires_at_leeway))
    × TokenBack codec o

encrypt-expires_at :
    (o o' : AuthToken) (e : Option Encryptor) → encrypt o e ≡ ok o' → o'.expires_at ≡ o.expires_at
unfolding encrypt
encrypt-expires_at o o' none h = ground arith
encrypt-expires_at o o' (some e) h = ground arith

encrypt-value :
    (o o' : AuthToken) (e : Option Encryptor)
    → encrypt o e ≡ ok o'
    → record o { value = o'.value } ≡ o'
unfolding encrypt
encrypt-value o o' none h = ground arith
encrypt-value o o' (some e) h = ground arith

abbrev token_hash : AuthToken → String → Dict String
token_hash o date =
    ("ID", o.id)
    ∷ ("Value", o.value)
    ∷ ("ExpiresAt", date)
    ∷ ("Subject", o.subject)
    ∷ ("TokenURL", o.token_url)
    ∷ ("ProviderID", o.provider_id)
    ∷ ("Type", marshal_type o.type)
    ∷ []

hash_of-serialize_token :
    (codec : Codec) (o : AuthToken) (date : String)
    → codec.time_text o.expires_at ≡ some date
    → hash_of (serialize_token codec o) ≡ some (token_hash o date)
unfolding hash_of serialize_token
hash_of-serialize_token codec o date h = rw h refl

unique_fields : (o : AuthToken) (date : String) → is_unique (token_hash o date) ≡ true
unfolding is_unique
unique_fields o date = refl

-- What `get_auth_token` makes of a hash.
abbrev answer : {R : Type 0} → RedisAdapter R → Result (Dict String) → Result AuthToken
answer r (err e) = err e
answer r (ok h) =
    and_then (missing_is_token_not_found (deserialize_to_struct r.codec.decode_token h))
      (λ o. decrypt o r.encryptor)

module _ {R : Type 0} (r : RedisAdapter R) (laws : KeepsHashes r.rdb) where
  open laws use {stored, time}

  -- The last step of `set_auth_token`: PERSIST or EXPIREAT.
  stored-expiry :
      (o : AuthToken) (w w' : R) (j : String)
      → (o.expires_at ≡ pos 0) ⊎ (time w <ℤ o.expires_at +ℤ token_expires_at_leeway)
      → (if is_zero o.expires_at
            then r.rdb.persist (get_token_key o)
            else r.rdb.expire_at (get_token_key o) (o.expires_at +ℤ token_expires_at_leeway))
          w
        ≡ (ok tt, w')
      → stored w' j ≡ stored w j
  stored-expiry o w w' j h e = elim (Bool-cases (is_zero o.expires_at)) [
    | inl z ↦ laws.stored-persist (get_token_key o) w w' j (rw z at e)
    | inr z ↦
        laws.stored-expire_at (get_token_key o) (o.expires_at +ℤ token_expires_at_leeway) w w' j
          (ground arith) (rw z at e)
  ]

  time-expiry :
      (o : AuthToken) (w w' : R)
      → (if is_zero o.expires_at
            then r.rdb.persist (get_token_key o)
            else r.rdb.expire_at (get_token_key o) (o.expires_at +ℤ token_expires_at_leeway))
          w
        ≡ (ok tt, w')
      → time w' ≡ time w
  time-expiry o w w' e = elim (Bool-cases (is_zero o.expires_at)) [
    | inl z ↦ laws.time-persist (get_token_key o) w w' (rw z at e)
    | inr z ↦ laws.time-expire_at (get_token_key o) _ w w' (rw z at e)
  ]

  -- What the hash of a written token is.
  record IsWritten (o : AuthToken) (w w' : R) : Type 0 where
    enc : AuthToken
    hash : Dict String
    encrypted : encrypt o r.encryptor ≡ ok enc
    hashed : hash_of (serialize_token r.codec enc) ≡ some hash
    not_empty : hash ≢ []
    more : Dict String
    here : stored w' (get_token_key o) ≡ ok (hash ++ more)
    elsewhere : (j : String) → get_token_key o ≢ j → stored w' j ≡ stored w j

  set_auth_token-IsWritten :
      (o : AuthToken) (w w' : R)
      → IsStorable r.codec (time w) o
      → set_auth_token r o w ≡ (ok tt, w')
      → IsWritten o w w'
  unfolding set_auth_token
  set_auth_token-IsWritten o w w' (texted, lives, _) e =
      let (_, t₁, p₁, e₁) = >>=-eq-ok (lift (validate_token_type o.type)) _ w e in
      let (enc, t₂, p₂, e₂) = >>=-eq-ok (lift (encrypt o r.encryptor)) _ t₁ e₁ in
      let (_, t₃, p₃, e₃) =
        >>=-eq-ok (r.rdb.hset (get_token_key o) (serialize_token r.codec enc)) _ t₂ e₂ in
      by_date t₁ t₂ t₃ enc p₁ p₂ p₃ e₃ (Option-cases (r.codec.time_text o.expires_at))
    where
      by_date :
          (t₁ t₂ t₃ : R) (enc : AuthToken)
          → lift (validate_token_type o.type) w ≡ (ok tt, t₁)
          → lift (encrypt o r.encryptor) t₁ ≡ (ok enc, t₂)
          → r.rdb.hset (get_token_key o) (serialize_token r.codec enc) t₂ ≡ (ok tt, t₃)
          → (if is_zero o.expires_at
                then r.rdb.persist (get_token_key o)
                else r.rdb.expire_at (get_token_key o) (o.expires_at +ℤ token_expires_at_leeway))
              t₃
            ≡ (ok tt, w')
          → (r.codec.time_text o.expires_at ≡ none)
            ⊎ ((s : String) × (r.codec.time_text o.expires_at ≡ some s))
          → IsWritten o w w'
      by_date t₁ t₂ t₃ enc p₁ p₂ p₃ p₄ (inl e) = absurd (texted e)
      by_date t₁ t₂ t₃ enc p₁ p₂ p₃ p₄ (inr (date, e)) =
          let start : t₂ ≡ w = ground arith in
          let encrypted : encrypt o r.encryptor ≡ ok enc = ground arith in
          let hashed : hash_of (serialize_token r.codec enc) ≡ some (token_hash enc date) =
            hash_of-serialize_token r.codec enc date
              (ap r.codec.time_text (encrypt-expires_at o enc r.encryptor encrypted) ∙ e) in
          let p₃' : r.rdb.hset (get_token_key o) (serialize_token r.codec enc) w ≡ (ok tt, t₃) =
            rw start at p₃ in
          let lives' : (o.expires_at ≡ pos 0)
              ⊎ (time t₃ <ℤ o.expires_at +ℤ token_expires_at_leeway) =
            rw (laws.time-hset _ _ w t₃ p₃') lives in
          let (more, there) =
            laws.stored-hset (get_token_key o) (serialize_token r.codec enc) (token_hash enc date) w
              t₃ hashed (unique_fields enc date) p₃' in
          record {
            enc = enc;
            hash = token_hash enc date;
            encrypted = encrypted;
            hashed = hashed;
            not_empty = cc;
            more = more;
            here = stored-expiry o t₃ w' (get_token_key o) lives' p₄ ∙ there;
            elsewhere = λ j other.
                stored-expiry o t₃ w' j lives' p₄
                ∙ laws.stored-hset_other (get_token_key o) (serialize_token r.codec enc) w t₃ j
                    other p₃';
          }

  get_auth_token_of_stored :
      (key : String) (w : R) → get_auth_token r key w ≡ (answer r (stored w key), w)
  unfolding get_auth_token
  get_auth_token_of_stored key w = elim (Result-cases (stored w key)) [
    | inl (h, e) ↦ rw (laws.hget_all_stored key w, e) (ground arith)
    | inr (x, e) ↦ rw (laws.hget_all_stored key w, e) refl
  ]

  answer-written :
      (o enc : AuthToken) (h more : Dict String)
      → IsFaithful r.encryptor
      → TokenBack r.codec o
      → encrypt o r.encryptor ≡ ok enc
      → hash_of (serialize_token r.codec enc) ≡ some h
      → h ≢ []
      → answer r (ok (h ++ more)) ≡ ok o
  unfolding deserialize_to_struct
  answer-written o enc [] more f d p q n = absurd (n refl)
  answer-written o enc (x ∷ h) more f d p q n =
      let same : record o { value = enc.value } ≡ enc = encrypt-value o enc r.encryptor p in
      let back : r.codec.decode_token ((x ∷ h) ++ more) ≡ ok enc =
        d enc.value (x ∷ h) more (ap (λ t. hash_of (serialize_token r.codec t)) same ∙ q)
        ∙ ap ok same in
      rw back (decrypt-encrypt r.encryptor o enc f p)

  -- Once a token that Redis will keep has been written, reading its key gives the token itself, with
  -- its value decrypted, and reading any other key gives what it gave before.
  pub get_auth_token-set_auth_token :
      (o : AuthToken) (w w' : R)
      → IsFaithful r.encryptor
      → IsStorable r.codec (time w) o
      → set_auth_token r o w ≡ (ok tt, w')
      → (get_auth_token r (get_token_key o) w' ≡ (ok o, w'))
        × ((key : String)
            → get_token_key o ≢ key
            → (get_auth_token r key w').0 ≡ (get_auth_token r key w).0)
  get_auth_token-set_auth_token o w w' f h e =
      let written = set_auth_token-IsWritten o w w' h e in
      (
        get_auth_token_of_stored (get_token_key o) w'
            ∙ ap (λ x. (x, w'))
                (ap (answer r) written.here
                  ∙ answer-written o written.enc written.hash written.more f h.2 written.encrypted
                      written.hashed written.not_empty),
        λ key other.
            ap (λ x. x.0) (get_auth_token_of_stored key w')
            ∙ ap (answer r) (written.elsewhere key other)
            ∙ sym (ap (λ x. x.0) (get_auth_token_of_stored key w)),
      )

  -- Writing a token takes no time.
  pub time-set_auth_token :
      (o : AuthToken) (w w' : R) → set_auth_token r o w ≡ (ok tt, w') → time w' ≡ time w
  unfolding set_auth_token
  time-set_auth_token o w w' e =
      let (_, t₁, p₁, e₁) = >>=-eq-ok (lift (validate_token_type o.type)) _ w e in
      let (enc, t₂, p₂, e₂) = >>=-eq-ok (lift (encrypt o r.encryptor)) _ t₁ e₁ in
      let (_, t₃, p₃, e₃) =
        >>=-eq-ok (r.rdb.hset (get_token_key o) (serialize_token r.codec enc)) _ t₂ e₂ in
      let start : t₂ ≡ w = ground arith in
      time-expiry o t₃ w' e₃ ∙ laws.time-hset _ _ t₂ t₃ p₃ ∙ ap time start
