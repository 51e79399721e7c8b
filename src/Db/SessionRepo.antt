-- ===== src/Db/SessionRepo.antt =====
-- db/session_repo_redis.go
pub mod RoundTrip
use renku_gateway.Prelude.{
  String, ◌+++◌, Dict, ◌+ℤ◌, [], ◌∷◌, Result, ok, err, Error, session_not_found,
  is_missing_db_resource, Exec, lift, ◌>>=◌, ◌>>◌, if◌then◌else◌,
}
use renku_gateway.Models.Session.{Session}
use renku_gateway.Db.Serialize.{serialize_session, deserialize_to_struct}
use renku_gateway.Db.TokenRepo.{RedisAdapter, token_expires_at_leeway}

unfoldable pub session_key : String → String
session_key session_id = "session" +++ (":" +++ session_id)

abbrev missing_is_session_not_found : Result Session → Result Session
missing_is_session_not_found (ok s) = ok s
missing_is_session_not_found (err e) =
    err (if is_missing_db_resource e then session_not_found else e)

module _ {R : Type 0} (r : RedisAdapter R) where
  unfoldable pub get_session : String → Exec R Session
  unfolding deserialize_to_struct
  get_session session_id = do
    raw ← r.rdb.hget_all (session_key session_id)
    lift (missing_is_session_not_found (deserialize_to_struct r.codec.decode_session raw))

  unfoldable pub set_session : Session → Exec R (Unit {0})
  set_session session = do
    r.rdb.hset (session_key session.id) (serialize_session r.codec session)
    r.rdb.expire_at (session_key session.id) (session.expires_at +ℤ token_expires_at_leeway)

  unfoldable pub remove_session : String → Exec R (Unit {0})
  remove_session session_id = r.rdb.del (session_key session_id ∷ [])
