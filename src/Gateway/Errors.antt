-- ===== src/Gateway/Errors.antt =====
-- The middleware that reports errors to Sentry (cmd/gateway/main.go, utils/sentry.go). Its variable `err` is
-- that of `main`, so all requests share it.
use renku_gateway.Prelude.{
  ℕ, ==_refl, String, has_prefix, not, ◌&&◌, Bool, false, Option, none, some, List, [], ◌∷◌, ◌++◌,
  ◌≡◌, ◌≢◌, refl, arith, if◌then◌else◌,
}
use renku_gateway.Sessions.Context.{update}

-- errors.Is(err, echo.ErrNotFound) and err.Error()
pub record Errors (E : Type 0) : Type 0 where
  pub is_not_found : E → Bool
  pub text : E → String

-- How far a request is: before `err = next(c)`, before the test of `err`, before what follows on a test that
-- said so, before `return err`, or answered.
pub data Progress (E : Type 0) : Type 0 where
  called assigned reported : Progress E
  tested : Bool → Progress E
  answered : Option E → Progress E

pub record Shared (E : Type 0) : Type 0 where
  pub err : Option E
  pub requests : ℕ → Progress E
  pub captured : List (Option E)

module _ {E : Type 0} (errors : Errors E) where
  unfoldable pub send_error_to_sentry : Option E → Bool
  send_error_to_sentry none = false
  send_error_to_sentry (some e) =
      not (errors.is_not_found e) && not (has_prefix (errors.text e) "proxy raw, copy body error=")

  abbrev pub captured_by : Option E → List (Option E) → List (Option E)
  captured_by o l = if send_error_to_sentry o then l ++ o ∷ [] else l

  unfoldable pub assign_step : ℕ → Option E → Shared E → Shared E
  assign_step i outcome s = record s { err = outcome; requests = update s.requests i assigned }

  unfoldable pub test_step : ℕ → Shared E → Shared E
  test_step i s = record s { requests = update s.requests i (tested (send_error_to_sentry s.err)) }

  -- The report, which reads `err` again, where echo's context has a hub of Sentry.
  unfoldable pub report_step : ℕ → Bool → Shared E → Shared E
  report_step i sends s = record s {
    requests = update s.requests i reported;
    captured = if sends then s.captured ++ s.err ∷ [] else s.captured;
  }

  unfoldable pub answer_step : ℕ → Shared E → Shared E
  answer_step i s = record s { requests = update s.requests i (answered s.err) }

  -- The requests run side by side; `outcome` is what the handlers behind the middleware return.
  module _ (outcome : ℕ → Option E) where
    pub data Step (s : Shared E) : Shared E → Type 0 where
      assigns : (i : ℕ) → s.requests i ≡ called → Step s (assign_step i (outcome i) s)
      tests : (i : ℕ) → s.requests i ≡ assigned → Step s (test_step i s)
      reports :
          (i : ℕ) (sends : Bool) → s.requests i ≡ tested sends → Step s (report_step i sends s)
      answers : (i : ℕ) → s.requests i ≡ reported → Step s (answer_step i s)

    pub data Steps (s : Shared E) : Shared E → Type 0 where
      here : Steps s s
      later : {t u : Shared E} → Steps s t → Step t u → Steps s u

    other_request : {A : Type 0} (f : ℕ → A) (i j : ℕ) (a : A) → i ≢ j → update f i a j ≡ f j
    other_request f i j a differ = ground arith

    -- Two requests that overlap: whatever their handlers return, there is an order of the steps in which the
    -- first is answered with the error of the second, and its own is neither answered nor reported; a
    -- request that runs alone is answered with its own.
    pub answered_by_another :
        (s : Shared E) (i j : ℕ)
        → i ≢ j
        → s.requests i ≡ called
        → s.requests j ≡ called
        → ((t : Shared E) × Steps s t
            × (t.requests i ≡ answered (outcome j))
            × (t.captured ≡ captured_by (outcome j) s.captured))
          × ((t : Shared E) × Steps s t × (t.requests i ≡ answered (outcome i)))
    unfolding assign_step test_step report_step answer_step
    answered_by_another s i j differ first second =
        let a = assign_step i (outcome i) s in
        let b = assign_step j (outcome j) a in
        let b_i : b.requests i ≡ assigned = ground arith in
        let b_j : a.requests j ≡ called = ground arith in
        let b_sends = send_error_to_sentry b.err in
        let a_sends = send_error_to_sentry a.err in
        let c = report_step i b_sends (test_step i b) in
        let d = report_step i a_sends (test_step i a) in
        (
          (
            answer_step i c,
            later
                (later (later (later (later here (assigns i first)) (assigns j b_j)) (tests i b_i))
                  (reports i b_sends (rw (==_refl i) refl)))
                (answers i (rw (==_refl i) refl)),
            rw (==_refl i) refl,
            refl,
          ),
          (
            answer_step i d,
            later
                (later (later (later here (assigns i first)) (tests i (rw (==_refl i) refl)))
                  (reports i a_sends (rw (==_refl i) refl)))
                (answers i (rw (==_refl i) refl)),
            rw (==_refl i) refl,
          ),
        )
