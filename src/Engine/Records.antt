-- ===== src/Engine/Records.antt =====
-- What the evaluation of events leaves in the table of executions.
use docsight.Prelude.{
  ℕ, suc, ◌+◌, ◌<◌, String, false, Option, none, some, List, [], ◌∷◌, ◌≡◌, inl, inr, refl,
  All-append, All-map, arith, Bool-cases, Option-cases, length, length-append, ◌∙◌,
}
use docsight.Guardrails.{Chain, Verdict, is_allowed, check_batch}
use docsight.Guardrails.Steps.{length-check_batch}
use docsight.Executions.{Status, pending, suppressed, Reason, guardrail, Store, save_execution}
use docsight.Executions.Lifecycle.{IsValid, save_execution-IsValid}
use docsight.Adapter.Preflight.{IsPending}
use docsight.Adapter.Validity.{execute-IsValid}
use docsight.Engine.{
  Event, Trigger, Setting, Surroundings, selected, run_adapter, record_verdict, record_each,
  event_key, evaluate_event, evaluate_each, evaluate, is_enabled, is_empty,
}

fresh-IsPending :
    (now : ℕ) (trigger : String) (event timestamp : Option ℕ) (s : Store)
    → IsValid s
    → let (id, s') = save_execution now trigger pending event timestamp none s in
      IsPending id s'.rows
unfolding save_execution
fresh-IsPending now trigger event timestamp s v =
    All-append (λ row. row.id ≡ s.next_id → row.status ≡ pending) s.rows (_ ∷ [])
      (All-map (λ row. row.id < s.next_id) (λ row. row.id ≡ s.next_id → row.status ≡ pending) s.rows
        (λ row h e. absurd (omega arith)) v.given_out)
      (λ e. refl, tt)

length-save_execution :
    (now : ℕ) (trigger : String) (status : Status) (event timestamp : Option ℕ)
    (reason : Option Reason) (s : Store)
    → length (save_execution now trigger status event timestamp reason s).1.rows
      ≡ suc (length s.rows)
unfolding save_execution
length-save_execution now trigger status event timestamp reason s =
    omega (arith, length-append s.rows (_ ∷ []))

run_adapter-IsValid :
    (w : Surroundings) (id : ℕ) (ev : Event) (s : Store)
    → IsValid s
    → IsPending id s.rows
    → IsValid (run_adapter w id ev s) × (length (run_adapter w id ev s).rows ≡ length s.rows)
run_adapter-IsValid w id ev s v p = elim (Option-cases w.adapter) [
  | inl e ↦ rw e (v, refl)
  | inr ((cfg, world), e) ↦
      rw e (execute-IsValid cfg (world id) id ev.event_type ev.timestamp s v p)
]

record_verdict-IsValid :
    (w : Surroundings) (ev : Event) (v : Verdict) (s : Store)
    → IsValid s
    → IsValid (record_verdict w ev v s)
      × (length (record_verdict w ev v s).rows ≡ suc (length s.rows))
unfolding record_verdict
record_verdict-IsValid w ev v s valid = elim (Bool-cases (is_allowed v)) [
  | inl a ↦
      let (id, s') = save_execution w.now ev.event_type pending ev.id ev.timestamp none s in
      let valid' =
        (save_execution-IsValid w.now ev.event_type pending ev.id ev.timestamp none s (inl refl)
          valid).0 in
      let pending_row = fresh-IsPending w.now ev.event_type ev.id ev.timestamp s valid in
      let (kept, same) = run_adapter-IsValid w id ev s' valid' pending_row in
      rw a
        (kept, same ∙ length-save_execution w.now ev.event_type pending ev.id ev.timestamp none s)
  | inr a ↦ rw a (
    (save_execution-IsValid w.now ev.event_type suppressed ev.id ev.timestamp (some (guardrail v)) s
        (inr (refl, refl)) valid).0,
    length-save_execution w.now ev.event_type suppressed ev.id ev.timestamp (some (guardrail v)) s,
  )
]

record_each-IsValid :
    (w : Surroundings) (ev : Event) (results : List (Trigger × Verdict)) (s : Store)
    → IsValid s
    → IsValid (record_each w ev results s)
      × (length (record_each w ev results s).rows ≡ length s.rows + length results)
unfolding record_each
record_each-IsValid w ev [] s valid = (valid, omega arith)
record_each-IsValid w ev ((t, v) ∷ results) s valid =
    let (valid', more) = record_verdict-IsValid w ev v s valid in
    let (valid'', rest) = record_each-IsValid w ev results (record_verdict w ev v s) valid' in
    (valid'', omega (arith, more, rest))

-- Each event adds exactly one execution for each trigger that it selects, whatever the guardrails and the
-- tracker say, and the table stays valid.
pub evaluate_event-IsValid :
    (w : Surroundings) (triggers : List Trigger) (ev : Event) (c : Chain) (s : Store)
    → IsValid s
    → let s' = (evaluate_event w triggers ev (c, s)).1 in
      IsValid s' × (length s'.rows ≡ length s.rows + length (selected w triggers ev))
unfolding evaluate_event
evaluate_event-IsValid w triggers ev c s valid =
    let results = (check_batch event_key w.limits w.monotonic (selected w triggers ev) c).0 in
    let (valid', more) = record_each-IsValid w ev results s valid in
    (
      valid',
      omega (
        arith,
        more,
        length-check_batch event_key w.limits w.monotonic (selected w triggers ev) c,
      ),
    )

evaluate_each-IsValid :
    (triggers : List Trigger) (events : List (Surroundings × Event)) (c : Chain) (s : Store)
    → IsValid s
    → IsValid (evaluate_each triggers events (c, s)).1
unfolding evaluate_each
evaluate_each-IsValid triggers [] c s valid = valid
evaluate_each-IsValid triggers ((w, ev) ∷ events) c s valid =
    let (c', s') = evaluate_event w triggers ev (c, s) in
    evaluate_each-IsValid triggers events c' s' (evaluate_event-IsValid w triggers ev c s valid).0

-- Whatever events are evaluated, every row of the table stays sound and the ids stay distinct; if the
-- engine is not enabled, nothing changes.
pub evaluate-IsValid :
    (enabled : Setting) (triggers : List Trigger) (events : List (Surroundings × Event)) (c : Chain)
    (s : Store)
    → IsValid s
    → IsValid (evaluate enabled triggers events (c, s)).1
      × (is_enabled enabled ≡ false → evaluate enabled triggers events (c, s) ≡ (c, s))
unfolding evaluate
evaluate-IsValid enabled triggers events c s valid = elim (Bool-cases (is_enabled enabled)) [
  | inr off ↦ (rw (off, evaluate) valid, λ e. rw (off, evaluate))
  | inl on ↦ (
    rw (on, evaluate)
        (elim (Bool-cases (is_empty triggers)) [
          | inl none_there ↦ rw none_there valid
          | inr some_there ↦ rw some_there (evaluate_each-IsValid triggers events c s valid)
        ]),
    λ e. cc (on, e),
  )
]
