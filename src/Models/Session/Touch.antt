-- ===== src/Models/Session/Touch.antt =====
-- The expiry of sessions: `Touch` and `Expired` of models/session.go.
use renku_gateway.Prelude.{
  ◌*◌, ◌<◌, ◌≤◌, ℤ, pos, negsuc, pos_part, wrap64_in_range, ◌+ℤ◌, ◌≤ℤ◌, ◌<ℤ◌, +ℤ_parts, ◌≡◌, true,
  ◌↔◌, ◌⊎◌, arith,
}
use renku_gateway.Models.Session.{Session, expired, touch, seconds, max_ttl, idle_ttl}

-- A number of seconds whose nanoseconds fit in an int64 (292 years).
abbrev pub InRange : ℤ → Type 0
InRange n = (0 < pos_part n) × (pos_part n ≤ 9223372036)

-- A TTL in range is that number of seconds, in nanoseconds.
pub seconds-InRange : (n : ℤ) → InRange n → seconds n ≡ pos (pos_part n * 1000000000)
unfolding seconds
seconds-InRange (pos n) h = wrap64_in_range (pos (n * 1000000000)) (omega arith) (omega arith)
seconds-InRange (negsuc n) h = absurd (omega arith)

-- With positive TTLs, whatever the time of the last request, a touched session expires at the
-- latest the maximum TTL after its creation.
pub touch-le-max :
    (now : ℤ) (s : Session)
    → pos 0 <ℤ s.idle_ttl_seconds
    → pos 0 <ℤ s.max_ttl_seconds
    → (touch now s).expires_at ≤ℤ s.created_at +ℤ max_ttl s
unfolding touch
touch-le-max now s h k = ground arith

-- A session that was touched at `now` is expired at `later` exactly when the idle TTL has passed since it
-- was touched, or the maximum TTL since its creation, for TTLs in range and instants after the zero
-- time.
pub expired-touch_iff :
    (now later : ℤ) (s : Session)
    → InRange s.idle_ttl_seconds
    → InRange s.max_ttl_seconds
    → pos 0 ≤ℤ s.created_at
    → pos 0 ≤ℤ now
    → (expired later (touch now s) ≡ true) ↔ (
        (now +ℤ pos (pos_part s.idle_ttl_seconds * 1000000000) <ℤ later)
        ⊎ (s.created_at +ℤ pos (pos_part s.max_ttl_seconds * 1000000000) <ℤ later))
unfolding expired touch idle_ttl max_ttl
expired-touch_iff now later s h k c n = ground (
  arith,
  seconds-InRange s.idle_ttl_seconds h,
  seconds-InRange s.max_ttl_seconds k,
  +ℤ_parts now (seconds s.idle_ttl_seconds),
  +ℤ_parts s.created_at (seconds s.max_ttl_seconds),
)

-- With no maximum, a touched session lives on for exactly its idle TTL.
pub touch_idle :
    (now : ℤ) (s : Session)
    → InRange s.idle_ttl_seconds
    → s.max_ttl_seconds ≡ pos 0
    → (touch now s).expires_at ≡ now +ℤ pos (pos_part s.idle_ttl_seconds * 1000000000)
unfolding touch idle_ttl
touch_idle now s h m = ground (arith, seconds-InRange s.idle_ttl_seconds h)
