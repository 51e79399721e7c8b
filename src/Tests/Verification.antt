-- ===== src/Tests/Verification.antt =====
-- An access token that is verified (authentication).
use renku_gateway.Prelude.{
  String, str_eq, ℤ, pos, ltb_ℤ, [], ◌∷◌, some, lookup, ◌≡◌, refl, Result, ok, err, other,
  if◌then◌else◌,
}
use renku_gateway.Authentication.{
  TokenClaims, Checks, TokenVerifier, Authenticator, verify_access_token,
}
use renku_gateway.Authentication.Accepted.{IsVerified, verify_access_token-IsVerified}

abbrev claims : TokenClaims
claims = record {
  subject = "u1";
  issuer = "https://renku/auth";
  audience = "renku" ∷ [];
  authorized_party = "renku-cli";
  expiration = pos 900;
}

abbrev verifier : TokenVerifier String
verifier = record {
  id = "renku-cli";
  issuer = "https://renku/auth";
  audience = "renku";
  authorized_party = "renku-cli";
  keyset = "key";
}

abbrev same : String → String → Result (Unit {0})
same s t = if str_eq s t then ok tt else err (other "not the same")

-- The world is the clock; a token is signed by the name of the key.
abbrev checks : Checks ℤ String
checks = record {
  parse_token = λ token. ok ("payload", claims);
  check_subject = λ c. if str_eq c.subject "" then err (other "no subject") else ok tt;
  check_issuer = λ c issuer. same c.issuer issuer;
  check_audience = λ c audience. ok tt;
  check_authorized_party = λ c party. same c.authorized_party party;
  check_signature = λ token payload c key w. (same token key, w);
  check_expiration =
      λ c offset w. (if ltb_ℤ w c.expiration then ok tt else err (other "token has expired"), w);
}

abbrev authenticator : Authenticator String
authenticator = ("renku-cli", verifier) ∷ []

verify_access_token-IsVerified_example :
    (tv : TokenVerifier String) × (payload : String) × (checks.parse_token "key"
      ≡ ok (payload, claims))
    × (lookup "renku-cli" authenticator ≡ some tv)
    × IsVerified checks tv "key" payload claims (pos 150) (pos 150)
unfolding verify_access_token lookup
verify_access_token-IsVerified_example =
    verify_access_token-IsVerified checks authenticator "key" claims (pos 150) (pos 150) refl
