-- ===== src/Tests/Redis.antt =====
-- The adapter over Redis (db) and the token store (tokenstore) with a Redis in memory.
use renku_gateway.Prelude.{
  String, ◌+++◌, ℤ, ◌+ℤ◌, pos, trim_prefix-append, some, none, ◌≡◌, refl, inl, inr, ok, err,
  session_not_found, lookup, arith, Exec, pure, false, Option, Dict, Result, sym, ap, ◌++◌,
}
use renku_gateway.Models.Token.{AuthToken, encrypt, decrypt}
use renku_gateway.Models.Token.Encryption.{IsFaithful}
use renku_gateway.Models.Session.{Session}
use renku_gateway.Db.Client.{hash_of}
use renku_gateway.Db.Serialize.{serialize_token, serialize_session, SessionBack}
use renku_gateway.Db.TokenRepo.{validate_token_type, get_auth_token, set_auth_token, get_token_key}
use renku_gateway.Db.TokenRepo.RoundTrip.{IsStorable}
use renku_gateway.Db.SessionRepo.{get_session, set_session}
use renku_gateway.Db.SessionRepo.RoundTrip.{forever_session_is_lost}
use renku_gateway.Models.TokenSet.{AuthTokenSet}
use renku_gateway.Db.TokenRepo
use renku_gateway.TokenStore.{refresh_access_token}
use renku_gateway.TokenStore.Redis.{redis_repository}
use renku_gateway.TokenStore.Refresh.{over_redis, refresh_access_token-stored}
use renku_gateway.Tests.Memory.{
  Memory, keeps_hashes, expires, access, refresh, id_token, session, codec, encryptor, adapter,
  empty_memory,
}

pub encryptor-IsFaithful : IsFaithful (some encryptor)
encryptor-IsFaithful v w e =
    let same : "e" +++ v ≡ w = ground arith in rw (← same, trim_prefix-append "e" v) refl

-- What the decoder makes of a hash with other fields after it, if there is one.
abbrev decoded : Dict String → Option (Dict String) → Result AuthToken
decoded more none = err session_not_found
decoded more (some h) = codec.decode_token (h ++ more)

access-IsStorable : IsStorable codec (pos 150) access
unfolding hash_of serialize_token ◌+ℤ◌ lookup
access-IsStorable = (λ e. cc e, inr (ground arith), λ value h more e. sym (ap (decoded more) e))

session-SessionBack : SessionBack codec session
session-SessionBack h more e = refl

abbrev forever : Session
forever = record session { expires_at = pos 0 }

abbrev later : Memory
later = record empty_memory { clock = pos 60000000000 }

forever_session_is_lost_example :
    get_session adapter "s1" (set_session adapter forever later).1
    ≡ (err session_not_found, (set_session adapter forever later).1)
unfolding set_session ◌+ℤ◌ hash_of serialize_session
forever_session_is_lost_example =
    forever_session_is_lost adapter keeps_hashes expires forever later
      (set_session adapter forever later).1 refl (ground arith) refl

-- The provider answers every refresh with the three tokens under an ID of its own.
abbrev renewed : AuthTokenSet
renewed = record {
  access_token = record access { id = "n1" };
  refresh_token = record refresh { id = "n1" };
  id_token = record id_token { id = "n1" };
}

abbrev provider : AuthToken → Exec Memory AuthTokenSet
provider o = pure renewed

abbrev clock : Memory → ℤ × Memory
clock m = (m.clock, m)

abbrev stale_memory : Memory
stale_memory = (set_auth_token adapter refresh empty_memory).1

abbrev current_memory : Memory
current_memory =
    (refresh_access_token
      (over_redis adapter keeps_hashes encryptor-IsFaithful (pos 60) provider clock) "renku:u1"
      stale_memory).1

refresh-IsStorable : IsStorable codec (pos 150) refresh
unfolding hash_of serialize_token ◌+ℤ◌ lookup
refresh-IsStorable = (λ e. cc e, inl refl, λ value h more e. sym (ap (decoded more) e))

id_token-IsStorable : IsStorable codec (pos 150) id_token
unfolding hash_of serialize_token ◌+ℤ◌ lookup
id_token-IsStorable = (λ e. cc e, inr (ground arith), λ value h more e. sym (ap (decoded more) e))

refresh_access_token-stored_example :
    ((TokenRepo.get_access_token adapter "renku:u1" current_memory).0 ≡ ok access)
    × ((TokenRepo.get_refresh_token adapter "renku:u1" current_memory).0 ≡ ok refresh)
    × (false ≡ false → (TokenRepo.get_id_token adapter "renku:u1" current_memory).0 ≡ ok id_token)
unfolding refresh_access_token set_auth_token redis_repository hash_of get_token_key ◌+ℤ◌ lookup
    TokenRepo.get_refresh_token get_auth_token encrypt serialize_token TokenRepo.refresh_token_key
    decrypt TokenRepo.set_access_token TokenRepo.set_refresh_token TokenRepo.set_id_token
refresh_access_token-stored_example =
    refresh_access_token-stored adapter keeps_hashes encryptor-IsFaithful (pos 60) provider clock
      "renku:u1" (record { access_token = access; refresh_token = refresh; id_token = id_token })
      stale_memory current_memory refl access-IsStorable refresh-IsStorable
      (λ e. id_token-IsStorable)
