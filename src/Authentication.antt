-- ===== src/Authentication.antt =====
-- authentication/authenticator.go and authentication/token_verifier.go
pub mod Accepted
use renku_gateway.Prelude.{
  String, str_eq, if◌then◌else◌, Dict, lookup, insert, List, [], ◌∷◌, Option, none, some, Result,
  ok, err, other, Exec, pure, raise, lift, ◌>>=◌, ◌>>◌, ℤ, pos,
}
use renku_gateway.Config.{AuthorizationVerifier}

-- oidc.TokenClaims, as far as the checks read them.
pub record TokenClaims : Type 0 where
  pub subject : String
  pub issuer : String
  pub audience : List String
  pub authorized_party : String
  pub expiration : ℤ

-- The checks of the OIDC library. `parse_token` gives the payload and the claims, which are not
-- verified; `check_signature` may fetch the keys of the issuer, and `check_expiration` reads the
-- clock.
pub record Checks (W K : Type 0) : Type 0 where
  pub parse_token : String → Result (String × TokenClaims)
  pub check_subject : TokenClaims → Result (Unit {0})
  pub check_issuer : TokenClaims → String → Result (Unit {0})
  pub check_audience : TokenClaims → String → Result (Unit {0})
  pub check_authorized_party : TokenClaims → String → Result (Unit {0})
  pub check_signature : String → String → TokenClaims → K → Exec W (Unit {0})
  pub check_expiration : TokenClaims → ℤ → Exec W (Unit {0})

pub record TokenVerifier (K : Type 0) : Type 0 where
  pub id : String
  pub issuer : String
  pub audience : String
  pub authorized_party : String
  pub keyset : K

-- verifierOffset, in nanoseconds
abbrev pub verifier_offset : ℤ
verifier_offset = pos 1000000000

abbrev pub Authenticator : Type 0 → Type 0
Authenticator K = Dict (TokenVerifier K)

module _ {W K : Type 0} (checks : Checks W K) where
  open checks use {
    check_subject, check_issuer, check_audience, check_authorized_party, check_signature,
    check_expiration, parse_token,
  }

  unfoldable pub verify_by : TokenVerifier K → String → String → TokenClaims → Exec W TokenClaims
  verify_by tv access_token payload claims = do
    lift (check_subject claims)
    lift (check_issuer claims tv.issuer)
    lift (check_audience claims tv.audience)
    lift (check_authorized_party claims tv.authorized_party)
    check_signature access_token payload claims tv.keyset
    check_expiration claims verifier_offset
    pure claims

  abbrev registered : Option (TokenVerifier K) → Result (TokenVerifier K)
  registered none = err (other "token has an unrecognized authorized party")
  registered (some tv) = ok tv

  unfoldable pub verify_access_token : Authenticator K → String → Exec W TokenClaims
  unfolding verify_by
  verify_access_token a access_token = do
    parsed ← lift (parse_token access_token)
    tv ← lift (registered (lookup parsed.1.authorized_party a))
    verify_by tv access_token parsed.0 parsed.1

-- The packages behind a verifier: the discovery document of an issuer, which has the URL of the keys,
-- and the remote key set at a URL.
pub record Discovery (W K : Type 0) : Type 0 where
  pub discover : String → Exec W String
  pub new_remote_key_set : String → K

abbrev complete : {K : Type 0} → TokenVerifier K → Result (TokenVerifier K)
complete tv =
    if str_eq tv.id ""
    then err (other "token verifier id is not set")
    else if str_eq tv.issuer ""
    then err (other "token verifier issuer is not set")
    else if str_eq tv.audience ""
    then err (other "token verifier audience is not set")
    else if str_eq tv.authorized_party ""
    then err (other "token verifier authorized party is not set")
    else ok tv

-- `newTokenVerifier` with the option `withConfig`, which sets the key set.
unfoldable pub new_token_verifier :
    {W K : Type 0} → Discovery W K → AuthorizationVerifier → Exec W (TokenVerifier K)
new_token_verifier d c = do
  jwks_uri ← d.discover c.issuer
  lift (
      complete (record {
        id = c.authorized_party;
        issuer = c.issuer;
        audience = c.audience;
        authorized_party = c.authorized_party;
        keyset = d.new_remote_key_set jwks_uri;
      }))

module _ {W K : Type 0}
    (new_token_verifier : AuthorizationVerifier → Exec W (TokenVerifier K)) where
  -- `WithConfig`: each verifier stands under its ID; `new_token_verifier` fetches the issuer's keys.
  unfoldable pub with_config :
      List AuthorizationVerifier → Authenticator K → Exec W (Authenticator K)
  with_config [] a = pure a
  with_config (c ∷ more) a = do tv ← new_token_verifier c; with_config more (insert tv.id tv a)
