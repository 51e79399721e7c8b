-- ===== src/Tests/Expiry.antt =====
-- The expiry of sessions (models/session.go, sessions/session_maker.go).
use renku_gateway.Prelude.{◌*◌, pos, ◌+ℤ◌, ◌≤ℤ◌, ◌<ℤ◌, true, ◌≡◌, ◌↔◌, ◌⊎◌, refl, arith}
use renku_gateway.Models.Session.{Session, expired, touch, max_ttl}
use renku_gateway.Models.Session.Touch.{touch-le-max, expired-touch_iff}
use renku_gateway.Sessions.Maker.{SessionMaker, made_session}
use renku_gateway.Sessions.Maker.Expiry.{made_session-expired}
use renku_gateway.Tests.Memory.{session}

-- An hour, at most a day.
abbrev hourly : Session
hourly = record session { idle_ttl_seconds = pos 3600; max_ttl_seconds = pos 86400 }

touch-le-max_example : (touch (pos 5) hourly).expires_at ≤ℤ pos 100 +ℤ max_ttl hourly
touch-le-max_example = touch-le-max (pos 5) hourly (ground arith) (ground arith)

expired-touch_iff_example : (expired (pos 4000000000000) (touch (pos 5) hourly) ≡ true) ↔ (
    (pos 5 +ℤ pos (3600 * 1000000000) <ℤ pos 4000000000000)
    ⊎ (pos 100 +ℤ pos (86400 * 1000000000) <ℤ pos 4000000000000))
expired-touch_iff_example =
    expired-touch_iff (pos 5) (pos 4000000000000) hourly (ground arith) (ground arith)
      (ground arith) (ground arith)

abbrev maker : SessionMaker
maker = record { idle_session_ttl_seconds = pos 3600; max_session_ttl_seconds = pos 86400 }

abbrev unlimited : SessionMaker
unlimited = record maker { max_session_ttl_seconds = pos 0 }

made_session-expired_example :
    (expired (pos 101) (made_session unlimited "s" (pos 100)) ≡ true)
    × ((touch (pos 100) (made_session unlimited "s" (pos 100))).expires_at
        ≡ pos 100 +ℤ pos (3600 * 1000000000))
made_session-expired_example =
    made_session-expired unlimited "s" (pos 100) (pos 101) (ground arith) refl (ground arith)
      (ground arith)
