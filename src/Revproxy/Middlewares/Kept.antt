-- ===== src/Revproxy/Middlewares/Kept.antt =====
-- The middlewares that use the session store keep sessions bounded (revproxy/middlewares.go).
use renku_gateway.Prelude.{ℕ, str_eq, Result, ok, err, refl, pure, attempt, ◌+++◌}
use renku_gateway.Sessions.Context.{Action, read, header_set}
use renku_gateway.Prelude.Keeps.{Any, chain, return, either, tried}
use renku_gateway.Sessions.Keeps.{IsBackend, Ensures, aside, reads, IsKept}
use renku_gateway.Sessions.Store.{SessionStore, get, create}
use renku_gateway.Sessions.Store.Kept.{get-kept, create-kept}
use renku_gateway.Revproxy.Middlewares.{
  ensure_session, notebooks_anonymous_id, get_or_create, is_known, set_anonymous_id,
}

module _ {B : Type 0} (Stored : B → Type 0) (sessions : SessionStore B)
    (keeps : IsBackend sessions Stored) where
  get_or_create-kept : (r : Result ℕ) → Ensures Stored (get_or_create sessions r) Any
  get_or_create-kept (err e) = create-kept Stored sessions keeps
  get_or_create-kept (ok p) = chain (IsKept Stored) (read p) _ (reads Stored p) λ s _.
      either (IsKept Stored) (str_eq s.id "") (create sessions) (pure p)
        (create-kept Stored sessions keeps) (return (IsKept Stored) p tt)

  pub ensure_session-kept :
      (next : Action B (Unit {0}))
      → Ensures Stored next Any
      → Ensures Stored (ensure_session sessions next) Any
  unfolding ensure_session
  ensure_session-kept next kept =
      chain (IsKept Stored) (attempt (get sessions)) _
        (tried (IsKept Stored) _ (get-kept Stored sessions keeps))
        λ r _. chain (IsKept Stored) (get_or_create sessions r) _ (get_or_create-kept r) λ _ _. kept

  set_anonymous_id-kept : Ensures Stored (set_anonymous_id sessions) Any
  set_anonymous_id-kept =
      chain (IsKept Stored) (attempt (get sessions)) _
        (tried (IsKept Stored) _ (get-kept Stored sessions keeps))
        λ r _. chain (IsKept Stored) (get_or_create sessions r) _ (get_or_create-kept r) λ p _.
          chain (IsKept Stored) (read p) _ (reads Stored p) λ s _.
            aside Stored (header_set "Renku-Auth-Anon-Id" ("anon-" +++ s.id)) (λ c. (refl, refl))

  pub notebooks_anonymous_id-kept :
      (next : Action B (Unit {0}))
      → Ensures Stored next Any
      → Ensures Stored (notebooks_anonymous_id sessions next) Any
  unfolding notebooks_anonymous_id
  notebooks_anonymous_id-kept next kept =
      chain (IsKept Stored) (is_known sessions) _ (aside Stored _ (λ c. (refl, refl))) λ known _.
        either (IsKept Stored) known _ _ kept
          (chain (IsKept Stored) (set_anonymous_id sessions) _ set_anonymous_id-kept λ _ _. kept)
