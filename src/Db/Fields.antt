-- ===== src/Db/Fields.antt =====
-- The fields of a hash as texts (models/serializable_int.go, serializable_map.go,
-- serializable_string_slice.go, serializable_token_type.go), and what the decoder of
-- db/redis_adapter.go makes of them.
pub mod Back
pub mod RoundTrip
use renku_gateway.Prelude.{
  String, str_eq, ℤ, Dict, lookup, List, Option, none, some, ◌≡◌, Result, ok, err, if◌then◌else◌,
  and_then,
}
use renku_gateway.Models.Token.{
  AuthToken, OauthTokenType, access_token_type, refresh_token_type, id_token_type, unknown_type,
}
use renku_gateway.Models.Session.{Session}
use renku_gateway.Db.Serialize.{Codec}

-- `UnmarshalText` of time.Time, strconv.Atoi, and json.Unmarshal into a map and into a slice.
pub record Parsers : Type 0 where
  pub parse_time : String → Result ℤ
  pub atoi : String → Result ℤ
  pub json_map : String → Result (Dict String)
  pub json_strings : String → Result (List String)

module _ (q : Parsers) where
  -- `UnmarshalText` of the three types; the receiver is set where there is no error. That of a slice calls
  -- json.Unmarshal, which calls `UnmarshalJSON`.
  unfoldable pub unmarshal_int : String → Result ℤ
  unmarshal_int binary = and_then (q.atoi binary) λ val. ok val

  unfoldable pub unmarshal_map : String → Result (Dict String)
  unmarshal_map binary = and_then (q.json_map binary) λ res. ok res

  unfoldable pub unmarshal_slice : String → Result (List String)
  unmarshal_slice binary = and_then (q.json_strings binary) λ res. ok res

-- `UnmarshalText` of a token type takes any text.
unfoldable pub unmarshal_type : String → OauthTokenType
unmarshal_type s =
    if str_eq s "AccessToken"
    then access_token_type
    else if str_eq s "RefreshToken"
    then refresh_token_type
    else if str_eq s "IDToken"
    then id_token_type
    else unknown_type s

-- The field of the hash with a name is a text of the value.
abbrev pub HasField : {A : Type 0} → (String → Result A) → Dict String → String → A → Type 0
HasField parse h name v = (t : String) × (lookup name h ≡ some t) × (parse t ≡ ok v)

abbrev pub whole : String → Result String
whole s = ok s

abbrev pub parse_type : String → Result OauthTokenType
parse_type s = ok (unmarshal_type s)

-- The documented behaviour of mapstructure with the hook for texts: each field of the struct is set from the
-- text under its name, by its `UnmarshalText` where it has one.
pub record DecodesFields (codec : Codec) (q : Parsers) : Type 0 where
  pub session_fields :
      (h : Dict String) (s : Session)
      → HasField whole h "ID" s.id
      → HasField q.parse_time h "CreatedAt" s.created_at
      → HasField q.parse_time h "ExpiresAt" s.expires_at
      → HasField (unmarshal_int q) h "IdleTTLSeconds" s.idle_ttl_seconds
      → HasField (unmarshal_int q) h "MaxTTLSeconds" s.max_ttl_seconds
      → HasField whole h "UserID" s.user_id
      → HasField (unmarshal_map q) h "TokenIDs" s.token_ids
      → HasField whole h "LoginRedirectURL" s.login_redirect_url
      → HasField (unmarshal_slice q) h "LoginSequence" s.login_sequence
      → HasField whole h "LoginState" s.login_state
      → codec.decode_session h ≡ ok s
  pub token_fields :
      (h : Dict String) (o : AuthToken)
      → HasField whole h "ID" o.id
      → HasField whole h "Value" o.value
      → HasField q.parse_time h "ExpiresAt" o.expires_at
      → HasField whole h "Subject" o.subject
      → HasField whole h "TokenURL" o.token_url
      → HasField whole h "ProviderID" o.provider_id
      → HasField parse_type h "Type" o.type
      → codec.decode_token h ≡ ok o

-- The text forms of the values in a session or a token are read back by the functions that read them: those
-- of time.Time, strconv and encoding/json.
abbrev pub TimeBack : Codec → Parsers → ℤ → Type 0
TimeBack codec q t = (s : String) → codec.time_text t ≡ some s → q.parse_time s ≡ ok t

pub record TextsBack (codec : Codec) (q : Parsers) (s : Session) : Type 0 where
  pub created_back : TimeBack codec q s.created_at
  pub expires_back : TimeBack codec q s.expires_at
  pub idle_back : q.atoi (codec.int_text s.idle_ttl_seconds) ≡ ok s.idle_ttl_seconds
  pub max_back : q.atoi (codec.int_text s.max_ttl_seconds) ≡ ok s.max_ttl_seconds
  pub ids_back : q.json_map (codec.map_text s.token_ids) ≡ ok s.token_ids
  pub sequence_back : q.json_strings (codec.slice_text s.login_sequence) ≡ ok s.login_sequence
