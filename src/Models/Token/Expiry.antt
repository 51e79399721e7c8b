-- ===== src/Models/Token/Expiry.antt =====
-- When a token counts as expired (models/token.go).
use renku_gateway.Prelude.{ℤ, pos, ◌+ℤ◌, ◌≤ℤ◌, ◌<ℤ◌, +ℤ_parts, ◌≡◌, true, false, ◌↔◌, ◌≢◌, arith}
use renku_gateway.Models.Token.{AuthToken, expired, expires_soon}

-- A token is expired exactly when it has an expiry date and that date is past.
pub expired_iff :
    (now : ℤ) (o : AuthToken)
    → (expired now o ≡ true) ↔ ((o.expires_at ≢ pos 0) × (o.expires_at <ℤ now))
unfolding expired
expired_iff now o = ground arith

-- An expired token also expires soon, for every margin of at least 0.
pub expires_soon_of_expired :
    (now margin : ℤ) (o : AuthToken)
    → pos 0 ≤ℤ margin
    → expired now o ≡ true
    → expires_soon now margin o ≡ true
unfolding expired expires_soon
expires_soon_of_expired now margin o h e = ground (arith, +ℤ_parts now margin)

-- A token that does not expire soon at `now` is not expired within the margin after `now`.
pub expired_within_margin :
    (now later margin : ℤ) (o : AuthToken)
    → expires_soon now margin o ≡ false
    → later ≤ℤ now +ℤ margin
    → expired later o ≡ false
unfolding expired expires_soon
expired_within_margin now later margin o e h = ground (arith, +ℤ_parts now margin)
