-- ===== src/Sessions/Maker/Expiry.antt =====
-- How long a new session lives, against what `Touch` would give it.
use renku_gateway.Prelude.{
  String, wrap64, ◌*◌, ℤ, pos, pos_part, ◌+ℤ◌, ◌<ℤ◌, ◌≤ℤ◌, +ℤ_parts, ◌≡◌, true, refl, arith,
}
use renku_gateway.Models.Session.{expired, touch, seconds, idle_ttl, max_ttl}
use renku_gateway.Models.Session.Touch.{InRange, seconds-InRange}
use renku_gateway.Sessions.Maker.{SessionMaker, made_session}

seconds-zero : seconds (pos 0) ≡ pos 0
unfolding seconds wrap64
seconds-zero = refl

-- With both TTLs in range and the idle one at most the maximum, a new session has the expiry date
-- that `Touch` gives it at the time of its creation.
pub made_session-touch :
    (sm : SessionMaker) (id : String) (now : ℤ)
    → InRange sm.idle_session_ttl_seconds
    → InRange sm.max_session_ttl_seconds
    → sm.idle_session_ttl_seconds ≤ℤ sm.max_session_ttl_seconds
    → (made_session sm id now).expires_at ≡ (touch now (made_session sm id now)).expires_at
unfolding made_session touch idle_ttl max_ttl
made_session-touch sm id now h k le = ground (
  arith,
  seconds-InRange sm.idle_session_ttl_seconds h,
  seconds-InRange sm.max_session_ttl_seconds k,
  +ℤ_parts now (seconds sm.idle_session_ttl_seconds),
  +ℤ_parts now (seconds sm.max_session_ttl_seconds),
)

-- With no maximum TTL and an idle TTL in range, which the configuration accepts, a new session
-- counts as expired from the first later instant on, though `Touch` would let it live for the idle
-- TTL: the test of `NewSession` on the maximum TTL has its branches the wrong way round.
pub made_session-expired :
    (sm : SessionMaker) (id : String) (created later : ℤ)
    → InRange sm.idle_session_ttl_seconds
    → sm.max_session_ttl_seconds ≡ pos 0
    → pos 0 <ℤ created
    → created <ℤ later
    → (expired later (made_session sm id created) ≡ true)
      × ((touch created (made_session sm id created)).expires_at
          ≡ created +ℤ pos (pos_part sm.idle_session_ttl_seconds * 1000000000))
unfolding made_session touch expired idle_ttl
made_session-expired sm id created later h zero c l =
    ground
      (arith, seconds-InRange sm.idle_session_ttl_seconds h, seconds-zero, +ℤ_parts created (pos 0))
