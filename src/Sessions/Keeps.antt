-- ===== src/Sessions/Keeps.antt =====
-- What the operations on a request's context keep of the sessions.
use renku_gateway.Prelude.{
  ℕ, String, ℤ, pos, ◌+ℤ◌, ◌<ℤ◌, ◌≤ℤ◌, ◌==◌, Bool-cases, ◌≡◌, ◌≢◌, ◌⊎◌, inl, inr, Exec,
}
use mathlib.Core.Path.{subst}
use renku_gateway.Models.Token.{AuthToken}
use renku_gateway.Models.Session.{Session, max_ttl}
use renku_gateway.Models.Session.Touch.{InRange}
use renku_gateway.Sessions.Context.{Context, Action, backend_op, update, alloc, read, write}
use renku_gateway.Sessions.Store.{SessionStore}
use renku_gateway.Prelude.Keeps.{Keeps, Any}

-- The year 9000, before which the clock is: the text forms of instants reach to the year 9999.
abbrev pub latest : ℤ
latest = pos 283824000000000000000

abbrev pub InTime : ℤ → Type 0
InTime now = (pos 0 <ℤ now) × (now <ℤ latest)

-- A session without an ID, which is never saved, or one with TTLs in range that expires, at the
-- latest its maximum TTL after its creation.
abbrev pub IsBounded : Session → Type 0
IsBounded s =
    (s.id ≡ "")
    ⊎ (InRange s.idle_ttl_seconds
        × InRange s.max_ttl_seconds
        × (pos 0 <ℤ s.created_at)
        × (s.created_at <ℤ latest)
        × (pos 0 <ℤ s.expires_at)
        × (s.expires_at ≤ℤ s.created_at +ℤ max_ttl s))

-- What the session store promises of its backend: only bounded sessions are read, as long as only
-- bounded sessions are made and written. `Stored` is the condition on what the backend holds. The
-- clock is between the years 1 and 9000.
pub record IsBackend {B : Type 0} (sessions : SessionStore B) (Stored : B → Type 0) : Type 0 where
  pub clock : (b : B) → Stored b → Stored (sessions.now b).1
  pub in_time : (b : B) → InTime (sessions.now b).0
  pub verifies : (token : String) → Keeps Stored (sessions.verify_access_token token) Any
  pub makes : Keeps Stored sessions.new_session IsBounded
  pub gets : (id : String) → Keeps Stored (sessions.session_repo.get_session id) IsBounded
  pub sets :
      (s : Session)
      → IsBounded s
      → s.id ≢ ""
      → Keeps Stored (sessions.session_repo.set_session s) Any
  pub removes : (id : String) → Keeps Stored (sessions.session_repo.remove_session id) Any
  pub gets_access :
      (id : String) → Keeps Stored (sessions.token_store.get_fresh_access_token id) Any
  pub gets_refresh : (id : String) → Keeps Stored (sessions.token_store.get_refresh_token id) Any
  pub gets_id : (id : String) → Keeps Stored (sessions.token_store.get_fresh_id_token id) Any
  pub sets_access : (t : AuthToken) → Keeps Stored (sessions.token_store.set_access_token t) Any
  pub sets_refresh : (t : AuthToken) → Keeps Stored (sessions.token_store.set_refresh_token t) Any
  pub sets_id : (t : AuthToken) → Keeps Stored (sessions.token_store.set_id_token t) Any

module _ {B : Type 0} (Stored : B → Type 0) where
  -- Every session that the request holds is bounded, and so are those of the backend.
  pub record IsKept (c : Context B) : Type 0 where
    pub held : (p : ℕ) → IsBounded (c.heap p)
    pub stored : Stored c.backend

  -- From kept sessions the operation goes to kept sessions, and what it returns meets `Q`.
  abbrev pub Ensures : {A : Type 0} → Action B A → (A → Type 0) → Type 0
  Ensures m Q = Keeps IsKept m Q

  pub backend :
      {A : Type 0} {Q : A → Type 0} (m : Exec B A) → Keeps Stored m Q → Ensures (backend_op m) Q
  backend m keeps = record {
    after = λ c k. record { held = k.held; stored = keeps.after c.backend k.stored };
    returns = λ c a k e. keeps.returns c.backend a k.stored e;
  }

  -- An operation that touches neither the heap nor the backend.
  pub aside :
      {A : Type 0} (m : Action B A)
      → ((c : Context B) → ((m c).1.heap ≡ c.heap) × ((m c).1.backend ≡ c.backend))
      → Ensures m Any
  aside m same = record {
    after = λ c k. record {
      held = let (heap, _) = same c in rw heap k.held;
      stored = let (_, backend) = same c in rw backend k.stored;
    };
    returns = λ c a k e. tt;
  }

  pub reads : (p : ℕ) → Ensures (read p) IsBounded
  reads p = record {
    after = λ c k. k;
    returns = λ c s k e. let same : c.heap p ≡ s = cc e in subst IsBounded same (k.held p);
  }

  update-IsBounded :
      (heap : ℕ → Session) (p : ℕ) (s : Session)
      → ((q : ℕ) → IsBounded (heap q))
      → IsBounded s
      → (q : ℕ) → IsBounded (update heap p s q)
  update-IsBounded heap p s held bounded q = elim (Bool-cases (q == p)) [
    | inl e ↦ rw e bounded
    | inr e ↦ rw e (held q)
  ]

  pub writes : (p : ℕ) (s : Session) → IsBounded s → Ensures (write p s) Any
  writes p s bounded = record {
    after = λ c k. record { held = update-IsBounded c.heap p s k.held bounded; stored = k.stored };
    returns = λ c a k e. tt;
  }

  pub allocates : (s : Session) → IsBounded s → Ensures (alloc s) Any
  allocates s bounded = record {
    after = λ c k. record {
      held = update-IsBounded c.heap c.next_ref s k.held bounded;
      stored = k.stored;
    };
    returns = λ c a k e. tt;
  }
