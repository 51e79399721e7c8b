-- ===== src/Db/Fields/Back.antt =====
-- The decoder reads back what the adapter writes (db/redis_adapter.go).
use renku_gateway.Prelude.{
  String, Dict, lookup, ◌++◌, Option, none, some, Option-cases, ◌≡◌, ◌≢◌, ◌⊎◌, inl, inr, refl, sym,
  ap, ◌∙◌, ok,
}
use renku_gateway.Models.Token.{
  AuthToken, OauthTokenType, access_token_type, refresh_token_type, id_token_type, unknown_type,
}
use renku_gateway.Models.Session.{Session}
use renku_gateway.Db.Client.{hash_of}
use renku_gateway.Db.Serialize.{
  Codec, SessionBack, TokenBack, serialize_session, serialize_token, marshal_type,
}
use renku_gateway.Db.Fields.{
  Parsers, DecodesFields, TextsBack, TimeBack, unmarshal_type, unmarshal_int, unmarshal_map,
  unmarshal_slice,
}

unmarshal_type-marshal_type :
    (t : OauthTokenType) → ((s : String) → t ≢ unknown_type s) → unmarshal_type (marshal_type t) ≡ t
unfolding unmarshal_type marshal_type
unmarshal_type-marshal_type access_token_type known = refl
unmarshal_type-marshal_type refresh_token_type known = refl
unmarshal_type-marshal_type id_token_type known = refl
unmarshal_type-marshal_type (unknown_type s) known = absurd (known s refl)

abbrev hash_or : Dict String → Option (Dict String) → Dict String
hash_or h none = h
hash_or h (some x) = x

nothing : (h : Dict String) → none ≡ some h → ⊥
nothing h e = cc

module _ (codec : Codec) (q : Parsers) (decodes : DecodesFields codec q) where
  pub serialize_session-back : (s : Session) → TextsBack codec q s → SessionBack codec s
  unfolding hash_of serialize_session lookup unmarshal_int unmarshal_map unmarshal_slice
  serialize_session-back s texts h more e =
      by_dates (Option-cases (codec.time_text s.created_at))
        (Option-cases (codec.time_text s.expires_at))
    where
      by_dates :
          (codec.time_text s.created_at ≡ none)
            ⊎ ((t : String) × (codec.time_text s.created_at ≡ some t))
          → (codec.time_text s.expires_at ≡ none)
            ⊎ ((t : String) × (codec.time_text s.expires_at ≡ some t))
          → codec.decode_session (h ++ more) ≡ ok s
      by_dates (inl a) other = absurd (nothing h (rw a at e))
      by_dates (inr (t, a)) (inl b) = absurd (nothing h (rw (a, b) at e))
      by_dates (inr (t, a)) (inr (u, b)) =
          let same = ap (hash_or h) (rw (a, b) at e) in
          sym (ap (λ x. codec.decode_session (x ++ more)) same)
          ∙ decodes.session_fields _ s (s.id, refl, refl) (t, refl, texts.created_back t a)
              (u, refl, texts.expires_back u b)
              (codec.int_text s.idle_ttl_seconds, refl, rw texts.idle_back refl)
              (codec.int_text s.max_ttl_seconds, refl, rw texts.max_back refl)
              (s.user_id, refl, refl) (codec.map_text s.token_ids, refl, rw texts.ids_back refl)
              (s.login_redirect_url, refl, refl)
              (codec.slice_text s.login_sequence, refl, rw texts.sequence_back refl)
              (s.login_state, refl, refl)

  pub serialize_token-back :
      (o : AuthToken)
      → TimeBack codec q o.expires_at
      → ((s : String) → o.type ≢ unknown_type s)
      → TokenBack codec o
  unfolding hash_of serialize_token lookup
  serialize_token-back o texts known value h more e =
      by_date (Option-cases (codec.time_text o.expires_at))
    where
      by_date :
          (codec.time_text o.expires_at ≡ none)
            ⊎ ((t : String) × (codec.time_text o.expires_at ≡ some t))
          → codec.decode_token (h ++ more) ≡ ok (record o { value = value })
      by_date (inl a) = absurd (nothing h (rw a at e))
      by_date (inr (t, a)) =
          let same = ap (hash_or h) (rw a at e) in
          sym (ap (λ x. codec.decode_token (x ++ more)) same)
          ∙ decodes.token_fields _ (record o { value = value }) (o.id, refl, refl)
              (value, refl, refl) (t, refl, texts t a) (o.subject, refl, refl)
              (o.token_url, refl, refl) (o.provider_id, refl, refl)
              (marshal_type o.type, refl, ap (λ x. ok x) (unmarshal_type-marshal_type o.type known))
