-- ===== src/Db/Serialize.antt =====
-- `serializeStruct` and `deserializeToStruct` of db/redis_adapter.go, at the two structs that the
-- gateway stores. The text forms of instants, numbers, maps and slices are those of `time`,
-- `strconv` and `encoding/json`, and the decoder is mapstructure's: they are parameters.
use renku_gateway.Prelude.{
  String, Dict, ℤ, ◌≡◌, Option, none, some, List, [], ◌∷◌, ◌++◌, Result, ok, err,
  missing_db_resource,
}
use renku_gateway.Models.Token.{
  AuthToken, OauthTokenType, access_token_type, refresh_token_type, id_token_type, unknown_type,
}
use renku_gateway.Models.Session.{Session}
use renku_gateway.Db.Client.{Value, text, instant, hash_of}

pub record Codec : Type 0 where
  pub time_text : ℤ → Option String
  pub int_text : ℤ → String
  pub map_text : Dict String → String
  pub slice_text : List String → String
  pub decode_token : Dict String → Result AuthToken
  pub decode_session : Dict String → Result Session

-- `MarshalText` of serializable_token_type.go.
unfoldable pub marshal_type : OauthTokenType → String
marshal_type access_token_type = "AccessToken"
marshal_type refresh_token_type = "RefreshToken"
marshal_type id_token_type = "IDToken"
marshal_type (unknown_type s) = s

-- Where MarshalText fails, the field's value is passed on as it is.
abbrev pub marshalled : ℤ → Option String → Value
marshalled t none = instant t
marshalled t (some s) = text s

module _ (codec : Codec) where
  unfoldable pub serialize_token : AuthToken → List Value
  unfolding marshal_type
  serialize_token o =
      text "ID"
      ∷ text o.id
      ∷ text "Value"
      ∷ text o.value
      ∷ text "ExpiresAt"
      ∷ marshalled o.expires_at (codec.time_text o.expires_at)
      ∷ text "Subject"
      ∷ text o.subject
      ∷ text "TokenURL"
      ∷ text o.token_url
      ∷ text "ProviderID"
      ∷ text o.provider_id
      ∷ text "Type"
      ∷ text (marshal_type o.type)
      ∷ []

  unfoldable pub serialize_session : Session → List Value
  serialize_session s =
      text "ID"
      ∷ text s.id
      ∷ text "CreatedAt"
      ∷ marshalled s.created_at (codec.time_text s.created_at)
      ∷ text "ExpiresAt"
      ∷ marshalled s.expires_at (codec.time_text s.expires_at)
      ∷ text "IdleTTLSeconds"
      ∷ text (codec.int_text s.idle_ttl_seconds)
      ∷ text "MaxTTLSeconds"
      ∷ text (codec.int_text s.max_ttl_seconds)
      ∷ text "UserID"
      ∷ text s.user_id
      ∷ text "TokenIDs"
      ∷ text (codec.map_text s.token_ids)
      ∷ text "LoginRedirectURL"
      ∷ text s.login_redirect_url
      ∷ text "LoginSequence"
      ∷ text (codec.slice_text s.login_sequence)
      ∷ text "LoginState"
      ∷ text s.login_state
      ∷ []

-- An empty hash is how Redis answers for a key that is not there.
unfoldable pub deserialize_to_struct {ℓ} :
    {A : Type ℓ} → (Dict String → Result A) → Dict String → Result A
deserialize_to_struct decode [] = err missing_db_resource
deserialize_to_struct decode (f ∷ h) = decode (f ∷ h)

-- The decoder reads back what the struct was written as, the token with any value. mapstructure
-- takes no notice of other fields of the hash.
abbrev pub TokenBack : Codec → AuthToken → Type 0
TokenBack codec o =
    (value : String) (h more : Dict String)
    → hash_of (serialize_token codec (record o { value = value })) ≡ some h
    → codec.decode_token (h ++ more) ≡ ok (record o { value = value })

abbrev pub SessionBack : Codec → Session → Type 0
SessionBack codec s =
    (h more : Dict String)
    → hash_of (serialize_session codec s) ≡ some h
    → codec.decode_session (h ++ more) ≡ ok s
