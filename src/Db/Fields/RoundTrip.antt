-- ===== src/Db/Fields/RoundTrip.antt =====
-- Writing and reading with the text forms of the fields (db/token_repo_redis.go,
-- db/session_repo_redis.go).
use renku_gateway.Prelude.{
  String, pos, ◌+ℤ◌, ◌<ℤ◌, Option, none, ◌≡◌, ◌≢◌, ◌⊎◌, ap, ok, >>=-eq-ok, lift,
}
use renku_gateway.Models.Session.{Session}
use renku_gateway.Models.Token.{AuthToken, Encryptor, OauthTokenType, unknown_type}
use renku_gateway.Models.Token.Encryption.{IsFaithful}
use renku_gateway.Db.Client.{KeepsHashes}
use renku_gateway.Db.Fields.{Parsers, DecodesFields, TextsBack, TimeBack}
use renku_gateway.Db.Fields.Back.{serialize_session-back, serialize_token-back}
use renku_gateway.Db.Mock.{MockRedisClient, mock_adapter}
use renku_gateway.Db.Mock.Sessions.{mock_session_round_trip}
use renku_gateway.Db.Serialize.{Codec}
use renku_gateway.Db.SessionRepo.{session_key, get_session, set_session}
use renku_gateway.Db.SessionRepo.RoundTrip.{IsStorable, get_session-set_session}
use renku_gateway.Db.TokenRepo.{
  RedisAdapter, get_token_key, get_auth_token, set_auth_token, validate_token_type,
  token_expires_at_leeway,
}
use renku_gateway.Db.TokenRepo.RoundTrip.{get_auth_token-set_auth_token}

module _ {R : Type 0} (r : RedisAdapter R) (laws : KeepsHashes r.rdb) (q : Parsers)
    (decodes : DecodesFields r.codec q) where
  open laws use {time}

  -- The repository takes no token of an unknown type.
  set_auth_token_known :
      (o : AuthToken) (w w' : R)
      → set_auth_token r o w ≡ (ok tt, w')
      → (s : String) → o.type ≢ unknown_type s
  unfolding set_auth_token validate_token_type
  set_auth_token_known o w w' e s unknown =
      let (_, t, p, _) = >>=-eq-ok (lift (validate_token_type o.type)) _ w e in
      refused o.type unknown (ap (λ x. x.0) p)
    where
      refused : (t : OauthTokenType) → t ≡ unknown_type s → validate_token_type t ≡ ok tt → ⊥
      refused t u h = cc (rw u at h)

  -- A token that has been written is read back with all its fields, its value decrypted, under its own key;
  -- the tokens under other keys stay as they were. Redis keeps hashes, the encryptor, if there is
  -- one, decrypts what it has encrypted, the decoder sets each field from its text, and the expiry date has a text
  -- form that is read back, and is zero or lies ahead.
  pub token_round_trip :
      (o : AuthToken) (w w' : R)
      → IsFaithful r.encryptor
      → TimeBack r.codec q o.expires_at
      → r.codec.time_text o.expires_at ≢ none
      → (o.expires_at ≡ pos 0) ⊎ (time w <ℤ o.expires_at +ℤ token_expires_at_leeway)
      → set_auth_token r o w ≡ (ok tt, w')
      → (get_auth_token r (get_token_key o) w' ≡ (ok o, w'))
        × ((key : String)
            → get_token_key o ≢ key
            → (get_auth_token r key w').0 ≡ (get_auth_token r key w).0)
  token_round_trip o w w' faithful texts texted lives e =
      get_auth_token-set_auth_token r laws o w w' faithful
        (
          texted,
          lives,
          serialize_token-back r.codec q decodes o texts (set_auth_token_known o w w' e),
        )
        e

  -- A session that has been written, and that expires in the future, is read back with all its fields under
  -- its own ID; the sessions under other keys stay as they were. Redis keeps hashes, the decoder
  -- sets each field from its text, the two dates have a text form, and time.Time, strconv and
  -- encoding/json read back the texts of the session's values.
  pub session_round_trip :
      (s : Session) (w w' : R)
      → TextsBack r.codec q s
      → IsStorable r.codec s
      → time w <ℤ s.expires_at +ℤ token_expires_at_leeway
      → set_session r s w ≡ (ok tt, w')
      → (get_session r s.id w' ≡ (ok s, w'))
        × ((id : String)
            → session_key s.id ≢ session_key id
            → (get_session r id w').0 ≡ (get_session r id w).0)
  session_round_trip s w w' texts storable future e =
      get_session-set_session r laws s w w' (serialize_session-back r.codec q decodes s texts)
        storable future e

-- Over the mock, with or without an encryptor, saving a session never fails, and the session is read
-- back as it was written, also one that expires in the past or never; the sessions under other keys stay as
-- they were. The decoder sets each field from its text, the two dates have a text form, and
-- time.Time, strconv and encoding/json read back the texts of the session's values.
pub set_session-mock :
    (codec : Codec) (q : Parsers) (e : Option Encryptor) (s : Session) (m : MockRedisClient)
    → DecodesFields codec q
    → TextsBack codec q s
    → IsStorable codec s
    → let r = mock_adapter codec e in
      let m' = (set_session r s m).1 in
      ((set_session r s m).0 ≡ ok tt)
      × (get_session r s.id m' ≡ (ok s, m'))
      × ((id : String)
          → session_key s.id ≢ session_key id
          → (get_session r id m').0 ≡ (get_session r id m).0)
set_session-mock codec q e s m decodes texts storable =
    mock_session_round_trip codec e s m (serialize_session-back codec q decodes s texts) storable
