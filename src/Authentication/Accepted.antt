-- ===== src/Authentication/Accepted.antt =====
-- The access tokens that `VerifyAccessToken` accepts (authentication).
use renku_gateway.Prelude.{
  String, lookup, Option-cases, some, ◌≡◌, inl, inr, ok, err, Error, Result-cases, ap, sym, ◌∙◌,
  lift, pure, >>=-eq-ok, arith,
}
use renku_gateway.Authentication.{
  TokenClaims, Checks, TokenVerifier, Authenticator, verifier_offset, verify_by,
  verify_access_token,
}

module _ {W K : Type 0} (checks : Checks W K) where
  open checks use {
    parse_token, check_subject, check_issuer, check_audience, check_authorized_party,
    check_signature, check_expiration,
  }

  -- Every check has passed for the verifier `tv`, the signature before the expiry date.
  pub record IsVerified (tv : TokenVerifier K) (token payload : String) (claims : TokenClaims)
      (w w' : W) : Type 0 where
    pub subject_ok : check_subject claims ≡ ok tt
    pub issuer_ok : check_issuer claims tv.issuer ≡ ok tt
    pub audience_ok : check_audience claims tv.audience ≡ ok tt
    pub authorized_party_ok : check_authorized_party claims tv.authorized_party ≡ ok tt
    pub between : W
    pub signature_ok : check_signature token payload claims tv.keyset w ≡ (ok tt, between)
    pub expiration_ok : check_expiration claims verifier_offset between ≡ (ok tt, w')

  all_checks :
      (tv : TokenVerifier K) (token payload : String) (claims result : TokenClaims)
      (w w₁ w₂ w₃ w₄ w₅ w₆ w' : W)
      → lift (check_subject claims) w ≡ (ok tt, w₁)
      → lift (check_issuer claims tv.issuer) w₁ ≡ (ok tt, w₂)
      → lift (check_audience claims tv.audience) w₂ ≡ (ok tt, w₃)
      → lift (check_authorized_party claims tv.authorized_party) w₃ ≡ (ok tt, w₄)
      → check_signature token payload claims tv.keyset w₄ ≡ (ok tt, w₅)
      → check_expiration claims verifier_offset w₅ ≡ (ok tt, w₆)
      → pure claims w₆ ≡ (ok result, w')
      → (claims ≡ result) × IsVerified tv token payload claims w w'
  all_checks tv token payload claims result w w₁ w₂ w₃ w₄ w₅ w₆ w' p₁ p₂ p₃ p₄ p₅ p₆ e =
      let start : w₄ ≡ w = ground arith in
      (
        ground arith,
        record {
          subject_ok = ground arith;
          issuer_ok = ground arith;
          audience_ok = ground arith;
          authorized_party_ok = ground arith;
          between = w₅;
          signature_ok = rw (← start) p₅;
          expiration_ok = p₆ ∙ ap (λ t. (ok tt, t)) (ap (λ x. x.1) e);
        },
      )

  verify_by-IsVerified :
      (tv : TokenVerifier K) (token payload : String) (claims result : TokenClaims) (w w' : W)
      → verify_by checks tv token payload claims w ≡ (ok result, w')
      → (claims ≡ result) × IsVerified tv token payload claims w w'
  unfolding verify_by
  verify_by-IsVerified tv token payload claims result w w' e =
      let (_, w₁, p₁, e₁) = >>=-eq-ok (lift (check_subject claims)) _ w e in
      let (_, w₂, p₂, e₂) = >>=-eq-ok (lift (check_issuer claims tv.issuer)) _ w₁ e₁ in
      let (_, w₃, p₃, e₃) = >>=-eq-ok (lift (check_audience claims tv.audience)) _ w₂ e₂ in
      let (_, w₄, p₄, e₄) =
        >>=-eq-ok (lift (check_authorized_party claims tv.authorized_party)) _ w₃ e₃ in
      let (_, w₅, p₅, e₅) = >>=-eq-ok (check_signature token payload claims tv.keyset) _ w₄ e₄ in
      let (_, w₆, p₆, e₆) = >>=-eq-ok (check_expiration claims verifier_offset) _ w₅ e₅ in
      all_checks tv token payload claims result w w₁ w₂ w₃ w₄ w₅ w₆ w' p₁ p₂ p₃ p₄ p₅ p₆ e₆

  -- A token is accepted only by the verifier that is registered for the authorized party which the
  -- token names, only after all six checks of that verifier have passed, and the claims that are
  -- returned are the token's.
  pub verify_access_token-IsVerified :
      (a : Authenticator K) (token : String) (claims : TokenClaims) (w w' : W)
      → verify_access_token checks a token w ≡ (ok claims, w')
      → (tv : TokenVerifier K) × (payload : String) × (parse_token token ≡ ok (payload, claims))
        × (lookup claims.authorized_party a ≡ some tv)
        × IsVerified tv token payload claims w w'
  unfolding verify_access_token
  verify_access_token-IsVerified a token claims w w' e = elim (Result-cases (parse_token token)) [
    | inr (x, bad) ↦ absurd (refused (rw bad at e))
    | inl ((payload, c), good) ↦ elim (Option-cases (lookup c.authorized_party a)) [
      | inl missing ↦ absurd (refused (rw (good, missing) at e))
      | inr (tv, present) ↦
          let (same, verified) =
            verify_by-IsVerified tv token payload c claims w w' (rw (good, present) at e) in
          (
            tv,
            payload,
            good ∙ ap (λ x. ok (payload, x)) same,
            ap (λ x. lookup x.authorized_party a) (sym same) ∙ present,
            rw (← same) verified,
          )
    ]
  ]
    where
      refused : {x : Error} → lift {A = TokenClaims} (err x) w ≡ (ok claims, w') → ⊥
      refused h = cc
