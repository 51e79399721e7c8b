-- ===== src/Requests/Lifetime.antt =====
-- How long a session lives, over all requests that the gateway serves.
use renku_gateway.Prelude.{
  String, str_eq-false, ℤ, ◌+ℤ◌, ◌<ℤ◌, Dict, ok, err, session_expired, true, lookup, ◌≡◌, ◌≢◌, inl,
  inr, refl, arith,
}
use renku_gateway.Models.Session.{Session, expired, max_ttl}
use renku_gateway.Sessions.Keeps.{IsBounded, IsKept}
use renku_gateway.Sessions.Store.{decoded, get}
use renku_gateway.Requests.{Gateway, new_request, Served, none_yet, then_request, then_change}
use renku_gateway.Requests.Kept.{IsGateway, serve-kept}

outlived-expired :
    (now : ℤ) (s : Session)
    → IsBounded s
    → s.id ≢ ""
    → s.created_at +ℤ max_ttl s <ℤ now
    → expired now s ≡ true
unfolding expired
outlived-expired now s (inl no_id) named later = absurd (named no_id)
outlived-expired now s (inr (idle, max, created, early, positive, bound)) named later = ground arith

module _ {B U : Type 0} (Stored : B → Type 0) (g : Gateway B U) (keeps : IsGateway g Stored)
    (between : B → B → Type 0)
    (between-Stored : (b b' : B) → between b b' → Stored b → Stored b') where
  open g.login use {sessions}

  Served-Stored : {start b : B} → Stored start → Served g between start b → Stored b
  Served-Stored s none_yet = s
  Served-Stored s (then_request {b = b} served target q headers cookie) =
      let kept : IsKept Stored (new_request b headers cookie) = record {
        held = λ p. inl refl;
        stored = Served-Stored s served;
      } in
      ((serve-kept Stored g keeps target q).after (new_request b headers cookie) kept).stored
  Served-Stored s (then_change {b = b} {b' = b'} served e) =
      between-Stored b b' e (Served-Stored s served)

  -- No request, and no sequence of requests, keeps a session alive: whatever has been served before,
  -- logins, logouts and proxied requests in any order, a request whose cookie names a stored
  -- session that is older than its maximum TTL is refused as expired.
  pub get-Served :
      (start b b₁ b₂ : B) (headers : Dict String) (value id : String) (s : Session) (now : ℤ)
      → Stored start
      → Served g between start b
      → decoded sessions sessions.cookie_handler value ≡ id
      → id ≢ ""
      → sessions.session_repo.get_session id b ≡ (ok s, b₁)
      → s.id ≢ ""
      → sessions.now b₁ ≡ (now, b₂)
      → s.created_at +ℤ max_ttl s <ℤ now
      → get sessions (new_request b headers (ok value))
        ≡ (err session_expired, new_request b₂ headers (ok value))
  unfolding get lookup
  get-Served start b b₁ b₂ headers value id s now stored served cookie has_id found named clock
        later =
      let bounded =
        (keeps.login.sessions.gets id).returns b s (Served-Stored stored served) (rw found refl) in
      rw
        (
          cookie,
          str_eq-false id "" has_id,
          found,
          clock,
          outlived-expired now s bounded named later,
        )
        refl
