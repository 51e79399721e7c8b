-- ===== src/Models/Session.antt =====
-- internal/models/session.go
pub mod Touch
use renku_gateway.Prelude.{
  String, ℤ, pos, scale, wrap64, ◌+ℤ◌, ltb_ℤ, is_zero, Bool, true, false, ◌&&◌, List, Dict,
  if◌then◌else◌,
}

-- Instants are in nanoseconds since the zero value of `time.Time`; the TTLs are Go ints.
pub record Session : Type 0 where
  pub id : String
  pub created_at : ℤ
  pub expires_at : ℤ
  pub idle_ttl_seconds : ℤ
  pub max_ttl_seconds : ℤ
  pub user_id : String
  pub token_ids : Dict String
  pub login_redirect_url : String
  pub login_sequence : List String
  pub login_state : String

unfoldable pub expired : ℤ → Session → Bool
expired now s = if is_zero s.expires_at then false else ltb_ℤ s.expires_at now

-- `time.Duration(seconds) * time.Second`, in int64.
unfoldable pub seconds : ℤ → ℤ
unfolding scale
seconds n = wrap64 (scale 1000000000 n)

unfoldable pub idle_ttl : Session → ℤ
idle_ttl s = seconds s.idle_ttl_seconds

unfoldable pub max_ttl : Session → ℤ
max_ttl s = seconds s.max_ttl_seconds

-- The expiry date that `Touch` computes at `now`.
unfoldable pub touched_expires_at : ℤ → Session → ℤ
touched_expires_at now s =
    if is_zero s.idle_ttl_seconds && is_zero s.max_ttl_seconds
    then pos 0
    else if is_zero s.idle_ttl_seconds
    then s.created_at +ℤ max_ttl s
    else let max_expires_at = s.created_at +ℤ max_ttl s in
      let expires_at = now +ℤ idle_ttl s in
      if ltb_ℤ (pos 0) s.max_ttl_seconds && ltb_ℤ max_expires_at expires_at
      then max_expires_at
      else expires_at

unfoldable pub touch : ℤ → Session → Session
unfolding touched_expires_at
touch now s = record s { expires_at = touched_expires_at now s }
