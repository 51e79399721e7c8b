-- ===== src/Db/Mock/Sessions.antt =====
-- Sessions in the mock (db/session_repo_redis.go over db/redisadapters_mock.go).
use renku_gateway.Prelude.{String, ℤ, negsuc, ◌+ℤ◌, ◌<ℤ◌, arith, ◌≡◌, ◌≢◌, refl, ap, ok, Option}
use renku_gateway.Models.Token.{Encryptor}
use renku_gateway.Models.Session.{Session}
use renku_gateway.Db.Serialize.{Codec, SessionBack, serialize_session}
use renku_gateway.Db.TokenRepo.{token_expires_at_leeway}
use renku_gateway.Db.SessionRepo.{session_key, get_session, set_session}
use renku_gateway.Db.SessionRepo.RoundTrip.{IsStorable, get_session-set_session}
use renku_gateway.Db.Mock.{MockRedisClient, mock_adapter, hset, convert_values_to_map, expire_at}
use renku_gateway.Db.Mock.Hashes.{mock_keeps_hashes}

pred_lt : (t : ℤ) → t +ℤ negsuc 0 <ℤ t
unfolding ◌+ℤ◌
pred_lt t = ground arith

-- HSET of the fields of a session never fails.
set_session_done :
    (codec : Codec) (e : Option Encryptor) (s : Session) (m : MockRedisClient)
    → (set_session (mock_adapter codec e) s m).0 ≡ ok tt
unfolding set_session hset convert_values_to_map expire_at serialize_session
set_session_done codec e s m = refl

-- Over the mock, with or without an encryptor, saving a session never fails, and the session is read
-- back as it was written whatever its expiry date is; the sessions under other keys stay as they
-- were.
pub mock_session_round_trip :
    (codec : Codec) (e : Option Encryptor) (s : Session) (m : MockRedisClient)
    → SessionBack codec s
    → IsStorable codec s
    → let r = mock_adapter codec e in
      let m' = (set_session r s m).1 in
      ((set_session r s m).0 ≡ ok tt)
      × (get_session r s.id m' ≡ (ok s, m'))
      × ((id : String)
          → session_key s.id ≢ session_key id
          → (get_session r id m').0 ≡ (get_session r id m).0)
unfolding mock_keeps_hashes
mock_session_round_trip codec e s m back storable =
    let r = mock_adapter codec e in
    let limit = s.expires_at +ℤ token_expires_at_leeway in
    let done = set_session_done codec e s m in
    let (same, others) =
      get_session-set_session r (mock_keeps_hashes (limit +ℤ negsuc 0)) s m (set_session r s m).1
        back storable (pred_lt limit) (ap (λ x. (x, (set_session r s m).1)) done) in
    (done, same, others)
