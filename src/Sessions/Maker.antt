-- ===== src/Sessions/Maker.antt =====
-- sessions/session_maker.go
pub mod Expiry
pub mod Kept
use renku_gateway.Prelude.{
  String, ℤ, pos, ◌+ℤ◌, is_zero, [], Result, Exec, pure, ◌>>=◌, if◌then◌else◌,
}
use renku_gateway.Models.Session.{Session, seconds}

pub record SessionMaker : Type 0 where
  pub idle_session_ttl_seconds : ℤ
  pub max_session_ttl_seconds : ℤ

-- The expiry date of a new session. Both tests are on durations, so an overflow shows here too.
unfoldable pub new_expires_at : SessionMaker → ℤ → ℤ
new_expires_at sm created_at =
    let idle_ttl = seconds sm.idle_session_ttl_seconds in
    let max_ttl = seconds sm.max_session_ttl_seconds in
    if is_zero idle_ttl
    then pos 0
    else if is_zero max_ttl
    then created_at +ℤ max_ttl
    else created_at +ℤ idle_ttl

-- `NewSession`, from the random ID and the reading of the clock.
unfoldable pub made_session : SessionMaker → String → ℤ → Session
unfolding new_expires_at
made_session sm id created_at = record {
  id = id;
  created_at = created_at;
  expires_at = new_expires_at sm created_at;
  idle_ttl_seconds = sm.idle_session_ttl_seconds;
  max_ttl_seconds = sm.max_session_ttl_seconds;
  user_id = "";
  token_ids = [];
  login_redirect_url = "";
  login_sequence = [];
  login_state = "";
}

-- `random_id` is `randomIDGenerator.ID`, over `crypto/rand`.
unfoldable pub new_session : {W : Type 0} → Exec W String → Exec W ℤ → SessionMaker → Exec W Session
unfolding made_session
new_session random_id read_clock sm = do
  id ← random_id
  created_at ← read_clock
  pure (made_session sm id created_at)
