-- ===== src/Gateway/Middlewares/Kept.antt =====
-- `sentryHeaderInjector` changes headers only (cmd/gateway/middlewares.go).
use renku_gateway.Prelude.{str_eq, Option, none, some, refl}
use renku_gateway.Sessions.Context.{Context, Action, header_set}
use renku_gateway.Prelude.Keeps.{Any, chain, return, either}
use renku_gateway.Sessions.Keeps.{Ensures, aside, IsKept}
use renku_gateway.Gateway.Middlewares.{
  Hub, sentry_trace_header, sentry_baggage_header, trace, sentry_header_injector,
}

module _ {B : Type 0} (hub_of : Context B → Option Hub) (Stored : B → Type 0) where
  trace-kept : (h : Option Hub) → Ensures Stored (trace h) Any
  trace-kept none = return (IsKept Stored) tt tt
  trace-kept (some hub) =
      chain (IsKept Stored) (header_set sentry_trace_header hub.traceparent) _
        (aside Stored _ (λ c. (refl, refl)))
        λ _ _.
          either (IsKept Stored) (str_eq hub.baggage "") _ _ (return (IsKept Stored) tt tt)
            (aside Stored (header_set sentry_baggage_header hub.baggage) (λ c. (refl, refl)))

  pub sentry_header_injector-kept :
      (next : Action B (Unit {0}))
      → Ensures Stored next Any
      → Ensures Stored (sentry_header_injector hub_of next) Any
  unfolding sentry_header_injector
  sentry_header_injector-kept next kept = record {
    after = λ c k.
        (chain (IsKept Stored) (trace (hub_of c)) (λ _. next) (trace-kept (hub_of c))
            (λ _ _. kept)).after
          c k;
    returns = λ c a k e. tt;
  }
