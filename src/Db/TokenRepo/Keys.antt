-- ===== src/Db/TokenRepo/Keys.antt =====
-- The Redis keys of tokens (db/token_repo_redis.go).
use Prim.Native.Char.{Char, code}
use text.Mathlib.TextLemmas.{cons-append, append_cancel_left}
use renku_gateway.Prelude.{
  String, ◌+++◌, has_prefix, ◌==◌, ◌≡◌, ◌≢◌, refl, ap, true, false, ◌&&◌, ok, arith,
}
use renku_gateway.Models.Token.{
  AuthToken, OauthTokenType, access_token_type, refresh_token_type, id_token_type, unknown_type,
}
use renku_gateway.Db.TokenRepo.{
  access_token_key, refresh_token_key, id_token_key, get_token_key, validate_token_type, key_of,
}

begins_with :
    (c d : Char) (p s : String)
    → has_prefix (String.◌∷◌ c p +++ s) (String.◌∷◌ d String.[]) ≡ (code c == code d && true)
unfolding has_prefix
begins_with c d p s = rw (cons-append c p s) refl

differ_at_head :
    (c d : Char) (p q s t : String)
    → (code c == code d) ≡ false
    → String.◌∷◌ c p +++ s ≢ String.◌∷◌ d q +++ t
differ_at_head c d p q s t h e = ground (
  arith,
  begins_with c d p s,
  begins_with d d q t,
  ap (λ x. has_prefix x (String.◌∷◌ d String.[])) e,
)

-- Tokens of the three types under one Redis: equal keys are of the same type and the same ID.
pub get_token_key_injective :
    (o p : AuthToken)
    → validate_token_type o.type ≡ ok tt
    → validate_token_type p.type ≡ ok tt
    → get_token_key o ≡ get_token_key p
    → (o.type ≡ p.type) × (o.id ≡ p.id)
unfolding get_token_key access_token_key refresh_token_key id_token_key validate_token_type
get_token_key_injective o p = by_type o.type p.type
  where
    by_type :
        (s t : OauthTokenType)
        → validate_token_type s ≡ ok tt
        → validate_token_type t ≡ ok tt
        → key_of s o.id ≡ key_of t p.id
        → (s ≡ t) × (o.id ≡ p.id)
    by_type access_token_type access_token_type h k e = (
      refl,
      append_cancel_left ":" o.id p.id
          (append_cancel_left "accessToken" (":" +++ o.id) (":" +++ p.id) e),
    )
    by_type access_token_type refresh_token_type h k e =
        absurd
          (differ_at_head "a" "r" "ccessToken" "efreshToken" (":" +++ o.id) (":" +++ p.id) refl e)
    by_type access_token_type id_token_type h k e =
        absurd (differ_at_head "a" "i" "ccessToken" "dToken" (":" +++ o.id) (":" +++ p.id) refl e)
    by_type access_token_type (unknown_type _) h k e = cc
    by_type refresh_token_type access_token_type h k e =
        absurd
          (differ_at_head "r" "a" "efreshToken" "ccessToken" (":" +++ o.id) (":" +++ p.id) refl e)
    by_type refresh_token_type refresh_token_type h k e = (
      refl,
      append_cancel_left ":" o.id p.id
          (append_cancel_left "refreshToken" (":" +++ o.id) (":" +++ p.id) e),
    )
    by_type refresh_token_type id_token_type h k e =
        absurd (differ_at_head "r" "i" "efreshToken" "dToken" (":" +++ o.id) (":" +++ p.id) refl e)
    by_type refresh_token_type (unknown_type _) h k e = cc
    by_type id_token_type access_token_type h k e =
        absurd (differ_at_head "i" "a" "dToken" "ccessToken" (":" +++ o.id) (":" +++ p.id) refl e)
    by_type id_token_type refresh_token_type h k e =
        absurd (differ_at_head "i" "r" "dToken" "efreshToken" (":" +++ o.id) (":" +++ p.id) refl e)
    by_type id_token_type id_token_type h k e = (
      refl,
      append_cancel_left ":" o.id p.id
          (append_cancel_left "idToken" (":" +++ o.id) (":" +++ p.id) e),
    )
    by_type id_token_type (unknown_type _) h k e = cc
    by_type (unknown_type _) _ h k e = cc
