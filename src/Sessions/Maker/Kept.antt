-- ===== src/Sessions/Maker/Kept.antt =====
-- What `NewSession` makes is bounded (sessions/session_maker.go).
use renku_gateway.Prelude.{
  String, ℤ, ◌≤ℤ◌, +ℤ_parts, ◌≡◌, inr, arith, Exec, >>=-eq-ok, >>=-state, ap,
}
use mathlib.Core.Path.{subst}
use renku_gateway.Models.Session.{seconds, max_ttl}
use renku_gateway.Models.Session.Touch.{InRange, seconds-InRange}
use renku_gateway.Prelude.Keeps.{Keeps, Any}
use renku_gateway.Sessions.Keeps.{IsBounded, InTime}
use renku_gateway.Sessions.Maker.{SessionMaker, made_session, new_session}

module _ (sm : SessionMaker) (idle : InRange sm.idle_session_ttl_seconds)
    (max : InRange sm.max_session_ttl_seconds)
    (le : sm.idle_session_ttl_seconds ≤ℤ sm.max_session_ttl_seconds) where
  made_session-IsBounded : (id : String) (now : ℤ) → InTime now → IsBounded (made_session sm id now)
  unfolding made_session max_ttl
  made_session-IsBounded id now h = inr (
    idle,
    max,
    h.0,
    h.1,
    ground (
      arith,
      seconds-InRange sm.idle_session_ttl_seconds idle,
      seconds-InRange sm.max_session_ttl_seconds max,
      +ℤ_parts now (seconds sm.idle_session_ttl_seconds),
    ),
    ground (
      arith,
      seconds-InRange sm.idle_session_ttl_seconds idle,
      seconds-InRange sm.max_session_ttl_seconds max,
      +ℤ_parts now (seconds sm.idle_session_ttl_seconds),
      +ℤ_parts now (seconds sm.max_session_ttl_seconds),
    ),
  )

  pub new_session-kept :
      {B : Type 0} (Stored : B → Type 0) (random_id : Exec B String) (read_clock : Exec B ℤ)
      → Keeps Stored random_id Any
      → Keeps Stored read_clock InTime
      → Keeps Stored (new_session random_id read_clock sm) IsBounded
  unfolding new_session
  new_session-kept {B} Stored random_id read_clock ids clock = record {
    after = λ b k. >>=-state Stored random_id _ b (ids.after b k) λ id.
        >>=-state Stored read_clock _ (random_id b).1 (clock.after (random_id b).1 (ids.after b k))
          λ now. clock.after (random_id b).1 (ids.after b k);
    returns = λ b s k e.
        let (id, b₁, p₁, e₁) =
          >>=-eq-ok random_id _ b (ap (λ r. (r, (new_session random_id read_clock sm b).1)) e) in
        let (now, b₂, p₂, e₂) = >>=-eq-ok read_clock _ b₁ e₁ in
        let kept : Stored b₁ = subst Stored (ap (λ x. x.1) p₁) (ids.after b k) in
        let made : made_session sm id now ≡ s = cc in
        subst IsBounded made
          (made_session-IsBounded id now (clock.returns b₁ now kept (ap (λ x. x.0) p₂)));
  }
