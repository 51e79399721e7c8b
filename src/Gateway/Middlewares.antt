-- ===== src/Gateway/Middlewares.antt =====
-- The middlewares around Sentry's headers: the one for repeated requests in cmd/gateway/main.go, and
-- `sentryHeaderInjector` of cmd/gateway/middlewares.go.
pub mod Kept
use renku_gateway.Prelude.{
  String, str_eq, Bool, true, false, Bool-cases, Dict, lookup, insert, lookup-insert, remove,
  lookup-remove, ◌&&◌, ◌||◌, Option, none, some, List, [], ◌∷◌, ◌≡◌, ◌⊎◌, inl, inr, refl, sym, ap,
  ◌∙◌, arith, Result, ok, Exec, pure, ◌>>=◌, ◌>>◌, if◌then◌else◌, eq_iff,
}
use renku_gateway.Sessions.Context.{Context, Action, header_get, header_set, or_empty}

-- What the gateway reads of a hub of Sentry: GetTraceparent and GetBaggage.
pub record Hub : Type 0 where
  pub traceparent : String
  pub baggage : String

-- sentry.SentryTraceHeader and sentry.SentryBaggageHeader, in their canonical form.
abbrev pub sentry_trace_header : String
sentry_trace_header = "Sentry-Trace"

abbrev pub sentry_baggage_header : String
sentry_baggage_header = "Baggage"

module _ {B : Type 0} where
  abbrev pub header_del : String → Action B (Unit {0})
  header_del key c = (ok tt, record c { headers = remove key c.headers })

  abbrev strip : Bool → Action B (Unit {0})
  strip false = pure tt
  strip true = do header_del sentry_trace_header; header_del sentry_baggage_header

  unfoldable pub break_repeated : Action B (Unit {0}) → Action B (Unit {0})
  break_repeated next = do
    is_repeated_request ← header_get "Renku-Repeated-Request"
    strip (str_eq is_repeated_request "true")
    next

  abbrev set_baggage : String → Action B (Unit {0})
  set_baggage baggage =
      if str_eq baggage "" then pure tt else header_set sentry_baggage_header baggage

  abbrev trace : Option Hub → Action B (Unit {0})
  trace none = pure tt
  trace (some hub) = do header_set sentry_trace_header hub.traceparent; set_baggage hub.baggage

  -- `hub_of` is sentryecho.GetHubFromContext.
  unfoldable pub sentry_header_injector :
      (Context B → Option Hub) → Action B (Unit {0}) → Action B (Unit {0})
  sentry_header_injector hub_of next c = (trace (hub_of c) >> next) c

-- What a header has where the request goes on: `is_repeated` is the test of the first middleware.
abbrev pub sent : Option Hub → (is_repeated : Bool) → Dict String → String → Option String
sent none is_repeated headers key = if is_repeated then none else lookup key headers
sent (some hub) is_repeated headers key =
    if str_eq sentry_trace_header key
    then some hub.traceparent
    else if str_eq hub.baggage ""
    then if is_repeated then none else lookup key headers
    else some hub.baggage

abbrev pub is_sentry : String → Bool
is_sentry key = str_eq sentry_trace_header key || str_eq sentry_baggage_header key

distinct :
    (key : String)
    → (str_eq sentry_baggage_header key ≡ true)
    → (str_eq sentry_trace_header key ≡ false)
distinct key e =
    let same : sentry_baggage_header ≡ key = (eq_iff sentry_baggage_header key).0 e in
    rw (← same) refl

module _ {B : Type 0} (hub_of : Context B → Option Hub) where
  traced : Option Hub → Context B → Context B
  traced h c = (trace h c).1

  traced-headers :
      (h : Option Hub) (b : Bool) (key : String) (c d : Context B)
      → (lookup key d.headers ≡ (if b && is_sentry key then none else lookup key c.headers))
      → lookup key (traced h d).headers
        ≡ (if is_sentry key then sent h b c.headers key else lookup key c.headers)
  unfolding traced
  traced-headers none b key c d e = ground arith
  traced-headers (some hub) b key c d e = by_baggage (str_eq hub.baggage "")
    where
      d' : Context B
      d' = record d { headers = insert sentry_trace_header hub.traceparent d.headers }

      by_baggage :
          (none_given : Bool)
          → lookup key
              ((if none_given then pure tt else header_set sentry_baggage_header hub.baggage)
                d').1.headers
            ≡ (if is_sentry key
                then if str_eq sentry_trace_header key
                  then some hub.traceparent
                  else if none_given
                  then if b then none else lookup key c.headers
                  else some hub.baggage
                else lookup key c.headers)
      by_baggage true =
          lookup-insert sentry_trace_header key hub.traceparent d.headers ∙ ground arith
      by_baggage false =
          lookup-insert sentry_baggage_header key hub.baggage
            (insert sentry_trace_header hub.traceparent d.headers)
          ∙ ground
              (arith, distinct key, lookup-insert sentry_trace_header key hub.traceparent d.headers)

  -- The context in which the request goes on.
  abbrev pub stripped : Context B → Context B
  stripped c = (strip (str_eq (or_empty (lookup "Renku-Repeated-Request" c.headers)) "true") c).1

  stripped-headers :
      (key : String) (b : Bool) (c : Context B)
      → lookup key (strip b c).1.headers
        ≡ (if b && is_sentry key then none else lookup key c.headers)
  stripped-headers key false c = refl
  stripped-headers key true c =
      lookup-remove sentry_baggage_header key (remove sentry_trace_header c.headers)
      ∙ ground (arith, lookup-remove sentry_trace_header key c.headers)

  strip-next :
      (b : Bool) (rest : Action B (Unit {0})) (c : Context B)
      → (strip b >> rest) c ≡ rest (strip b c).1
  strip-next false rest c = refl
  strip-next true rest c = refl

  trace-next :
      (h : Option Hub) (next : Action B (Unit {0})) (d : Context B)
      → (trace h >> next) d ≡ next (traced h d)
  unfolding traced
  trace-next none next d = refl
  trace-next (some hub) next d = by_baggage (str_eq hub.baggage "")
    where
      by_baggage :
          (none_given : Bool)
          → (header_set sentry_trace_header hub.traceparent
                >> (if none_given then pure tt else header_set sentry_baggage_header hub.baggage)
                >> next)
              d
            ≡ next
                ((header_set sentry_trace_header hub.traceparent
                    >> (if none_given
                        then pure tt
                        else header_set sentry_baggage_header hub.baggage))
                  d).1
      by_baggage true = refl
      by_baggage false = refl

  -- The two middlewares call the next handler once, in a context with the headers of the request, but for
  -- those of Sentry: with a hub the trace header is the hub's, whatever the client has sent, and so
  -- is the baggage, if the hub has any; otherwise they are the client's, or, on a repeated request,
  -- none.
  pub sentry_header_injector-break_repeated :
      (c : Context B)
      → let b = str_eq (or_empty (lookup "Renku-Repeated-Request" c.headers)) "true" in
        (d : Context B) × ((next : Action B (Unit {0}))
          → break_repeated (sentry_header_injector hub_of next) c ≡ next d)
        × ((key : String)
            → lookup key d.headers ≡ (
                if is_sentry key
                then sent (hub_of (stripped c)) b c.headers key
                else lookup key c.headers))
  unfolding break_repeated sentry_header_injector traced
  sentry_header_injector-break_repeated c =
      let b = str_eq (or_empty (lookup "Renku-Repeated-Request" c.headers)) "true" in
      (
        traced (hub_of (stripped c)) (stripped c),
        λ next.
            strip-next b (sentry_header_injector hub_of next) c
            ∙ trace-next (hub_of (stripped c)) next (stripped c),
        λ key. traced-headers (hub_of (stripped c)) b key c (stripped c) (stripped-headers key b c),
      )
