-- ===== src/Tests/Fields.antt =====
-- A decoder that sets each field from its text (db/redis_adapter.go), and what is written and read
-- with it.
use renku_gateway.Prelude.{
  String, str_eq, ℤ, pos, Dict, lookup, [], Option, none, some, ◌≡◌, ◌≢◌, refl, inr, Result, ok,
  err, other, and_then, arith, if◌then◌else◌, ◌==◌, ◌+ℤ◌,
}
use renku_gateway.Models.Session.{Session}
use renku_gateway.Models.Token.{AuthToken, encrypt}
use renku_gateway.Db.Fields.{
  Parsers, DecodesFields, HasField, TextsBack, TimeBack, whole, parse_type, unmarshal_int,
  unmarshal_map, unmarshal_slice,
}
use renku_gateway.Db.Fields.RoundTrip.{token_round_trip, session_round_trip, set_session-mock}
use renku_gateway.Db.Mock.{MockRedisClient, mock_adapter}
use renku_gateway.Db.Client.{hash_of}
use renku_gateway.Db.Serialize.{Codec, serialize_token, serialize_session}
use renku_gateway.Db.SessionRepo.{get_session, set_session, session_key}
use renku_gateway.Db.TokenRepo.{RedisAdapter, get_auth_token, set_auth_token, get_token_key}
use renku_gateway.Tests.Memory.{Memory, keeps_hashes, access, session, codec, adapter, empty_memory}
use renku_gateway.Tests.Redis.{encryptor-IsFaithful}

abbrev parsers : Parsers
parsers = record {
  parse_time =
      λ s. ok (if str_eq s "t100" then pos 100 else if str_eq s "t300" then pos 300 else pos 200);
  atoi = λ s. ok (pos 0);
  json_map = λ s. ok [];
  json_strings = λ s. ok [];
}

abbrev field_of : {A : Type 0} → (String → Result A) → Option String → Result A
field_of parse none = err (other "no field")
field_of parse (some t) = parse t

abbrev decode_session : Dict String → Result Session
decode_session h = and_then (field_of whole (lookup "ID" h)) λ id.
    and_then (field_of parsers.parse_time (lookup "CreatedAt" h)) λ created_at.
      and_then (field_of parsers.parse_time (lookup "ExpiresAt" h)) λ expires_at.
        and_then (field_of (unmarshal_int parsers) (lookup "IdleTTLSeconds" h)) λ idle.
          and_then (field_of (unmarshal_int parsers) (lookup "MaxTTLSeconds" h)) λ max.
            and_then (field_of whole (lookup "UserID" h)) λ user_id.
              and_then (field_of (unmarshal_map parsers) (lookup "TokenIDs" h)) λ token_ids.
                and_then (field_of whole (lookup "LoginRedirectURL" h)) λ url.
                  and_then (field_of (unmarshal_slice parsers) (lookup "LoginSequence" h))
                    λ sequence. and_then (field_of whole (lookup "LoginState" h)) λ state.
                      ok (record {
                        id = id;
                        created_at = created_at;
                        expires_at = expires_at;
                        idle_ttl_seconds = idle;
                        max_ttl_seconds = max;
                        user_id = user_id;
                        token_ids = token_ids;
                        login_redirect_url = url;
                        login_sequence = sequence;
                        login_state = state;
                      })

abbrev decode_token : Dict String → Result AuthToken
decode_token h = and_then (field_of whole (lookup "ID" h)) λ id.
    and_then (field_of whole (lookup "Value" h)) λ value.
      and_then (field_of parsers.parse_time (lookup "ExpiresAt" h)) λ expires_at.
        and_then (field_of whole (lookup "Subject" h)) λ subject.
          and_then (field_of whole (lookup "TokenURL" h)) λ url.
            and_then (field_of whole (lookup "ProviderID" h)) λ provider_id.
              and_then (field_of parse_type (lookup "Type" h)) λ type. ok (record {
                id = id;
                value = value;
                expires_at = expires_at;
                subject = subject;
                token_url = url;
                provider_id = provider_id;
                type = type;
              })

-- Three instants have a text.
abbrev time_text : ℤ → Option String
time_text t = some (text_of t)
  where
    text_of : ℤ → String
    text_of (pos n) = if n == 100 then "t100" else if n == 300 then "t300" else "t200"
    text_of _ = "t200"

abbrev fields_codec : Codec
fields_codec = record codec {
  time_text = time_text;
  decode_session = decode_session;
  decode_token = decode_token;
}

field_of-HasField :
    {A : Type 0} (parse : String → Result A) (h : Dict String) (name : String) (v : A)
    → HasField parse h name v
    → field_of parse (lookup name h) ≡ ok v
field_of-HasField parse h name v (t, there, parsed) = rw there parsed

fields_codec-DecodesFields : DecodesFields fields_codec parsers
fields_codec-DecodesFields = record {
  session_fields = λ h s a b c d e f g i j k.
      rw
        (
          field_of-HasField whole h "ID" s.id a,
          field_of-HasField parsers.parse_time h "CreatedAt" s.created_at b,
          field_of-HasField parsers.parse_time h "ExpiresAt" s.expires_at c,
          field_of-HasField (unmarshal_int parsers) h "IdleTTLSeconds" s.idle_ttl_seconds d,
          field_of-HasField (unmarshal_int parsers) h "MaxTTLSeconds" s.max_ttl_seconds e,
          field_of-HasField whole h "UserID" s.user_id f,
          field_of-HasField (unmarshal_map parsers) h "TokenIDs" s.token_ids g,
          field_of-HasField whole h "LoginRedirectURL" s.login_redirect_url i,
          field_of-HasField (unmarshal_slice parsers) h "LoginSequence" s.login_sequence j,
          field_of-HasField whole h "LoginState" s.login_state k,
        )
        refl;
  token_fields = λ h o a b c d e f g.
      rw
        (
          field_of-HasField whole h "ID" o.id a,
          field_of-HasField whole h "Value" o.value b,
          field_of-HasField parsers.parse_time h "ExpiresAt" o.expires_at c,
          field_of-HasField whole h "Subject" o.subject d,
          field_of-HasField whole h "TokenURL" o.token_url e,
          field_of-HasField whole h "ProviderID" o.provider_id f,
          field_of-HasField parse_type h "Type" o.type g,
        )
        refl;
}

abbrev fields_adapter : RedisAdapter Memory
fields_adapter = record adapter { codec = fields_codec }

-- The text of an instant, if it has one, is this text.
same_text : (s t : String) → some s ≡ some t → s ≡ t
same_text s t e = ground arith

access_back : TimeBack fields_codec parsers access.expires_at
access_back s e = rw (← same_text "t200" s e) refl

session-TextsBack : TextsBack fields_codec parsers session
unfolding unmarshal_int unmarshal_map unmarshal_slice
session-TextsBack = record {
  created_back = λ s e. rw (← same_text "t100" s e) refl;
  expires_back = λ s e. rw (← same_text "t300" s e) refl;
  idle_back = refl;
  max_back = refl;
  ids_back = refl;
  sequence_back = refl;
}

token_round_trip_example :
    let m = (set_auth_token fields_adapter access empty_memory).1 in
    (get_auth_token fields_adapter (get_token_key access) m ≡ (ok access, m))
    × ((key : String)
        → get_token_key access ≢ key
        → (get_auth_token fields_adapter key m).0
          ≡ (get_auth_token fields_adapter key empty_memory).0)
unfolding set_auth_token get_token_key ◌+ℤ◌ encrypt hash_of serialize_token
token_round_trip_example =
    token_round_trip fields_adapter keeps_hashes parsers fields_codec-DecodesFields access
      empty_memory (set_auth_token fields_adapter access empty_memory).1 encryptor-IsFaithful
      access_back (λ e. cc e) (inr (ground arith)) refl

session_round_trip_example :
    let m = (set_session fields_adapter session empty_memory).1 in
    (get_session fields_adapter "s1" m ≡ (ok session, m))
    × ((id : String)
        → session_key "s1" ≢ session_key id
        → (get_session fields_adapter id m).0 ≡ (get_session fields_adapter id empty_memory).0)
unfolding set_session hash_of ◌+ℤ◌ serialize_session
session_round_trip_example =
    session_round_trip fields_adapter keeps_hashes parsers fields_codec-DecodesFields session
      empty_memory (set_session fields_adapter session empty_memory).1 session-TextsBack
      (λ e. cc e, λ e. cc e) (ground arith) refl

abbrev empty_mock : MockRedisClient
empty_mock = record { store = [] }

set_session-mock_example :
    let r = mock_adapter fields_codec none in
    let m = (set_session r session empty_mock).1 in
    ((set_session r session empty_mock).0 ≡ ok tt)
    × (get_session r "s1" m ≡ (ok session, m))
    × ((id : String)
        → session_key "s1" ≢ session_key id
        → (get_session r id m).0 ≡ (get_session r id empty_mock).0)
set_session-mock_example =
    set_session-mock fields_codec parsers none session empty_mock fields_codec-DecodesFields
      session-TextsBack (λ e. cc e, λ e. cc e)
