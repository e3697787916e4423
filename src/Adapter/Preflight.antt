-- ===== src/Adapter/Preflight.antt =====
-- What a call of `SpeedtestAdapter.execute` does to the table, and the limits that it keeps.
use docsight.Prelude.{
  second, ℕ, ◌+◌, ◌*◌, ◌≤◌, ◌<◌, max, String, true, Option, none, some, List, [], ◌∷◌, ltb, ◌==◌,
  ◌≡◌, ◌⊎◌, inl, inr, refl, All, All-map, arith, Bool-cases, Option-cases, ap, sym, ◌∙◌,
}
use docsight.Executions.{
  pending, fired, suppressed, expired, Reason, Fault, returned_status, response_timeout,
  request_failed, Execution, Store, no_update, update_execution, later_fire, get_latest_fire,
}
use docsight.Executions.Lifecycle.{
  IsSound, fire, suppress, give_up, Advances, update_listed-Advances,
}
use docsight.Adapter.{
  Settings, World, Post, answered, read_timeout, failed, is_accepted, interval_reason,
  latest_result, daily_reason, preflight_reason, mark_fired, mark_suppressed, mark_expired,
  post_run, reference_time, execute,
}

-- The rows with this id wait for their run.
abbrev pub IsPending : ℕ → List Execution → Type 0
IsPending id rows = All (λ row. row.id ≡ id → row.status ≡ pending) rows

module _ (w : World) (id : ℕ) (trigger : String) (s : Store) (h : All IsSound s.rows)
    (p : IsPending id s.rows) where
  same_id : All (λ row. (row.id == id) ≡ true → row.status ≡ pending) s.rows
  same_id =
      All-map (λ row. row.id ≡ id → row.status ≡ pending)
        (λ row. (row.id == id) ≡ true → row.status ≡ pending) s.rows (λ row f e. f (ground arith)) p

  fired-Advances : (fault : Option Fault) → Advances s.rows (mark_fired w id trigger fault s).rows
  unfolding mark_fired update_execution
  fired-Advances fault =
      update_listed-Advances (λ row. row.id == id)
        (record no_update {
          status = some fired;
          fired_at = some w.fired_now;
          attempt_count = some 1;
          last_error = fault;
        })
        pending fired s.rows refl fire (λ row e v. ground arith) same_id h

  suppressed-Advances : (reason : Reason) → Advances s.rows (mark_suppressed id reason s).rows
  unfolding mark_suppressed update_execution
  suppressed-Advances reason =
      update_listed-Advances (λ row. row.id == id)
        (record no_update { status = some suppressed; suppression_reason = some reason }) pending
        suppressed s.rows refl suppress (λ row e v. ground arith) same_id h

  expired-Advances : (fault : Fault) → Advances s.rows (mark_expired id fault s).rows
  unfolding mark_expired update_execution
  expired-Advances fault =
      update_listed-Advances (λ row. row.id == id)
        (record no_update {
          status = some expired;
          last_error = some fault;
          attempt_count = some 1;
        })
        pending expired s.rows refl give_up (λ row e v. ground arith) same_id h

  post_run-Advances : (post : Post) → Advances s.rows (post_run w id trigger post s).1.rows
  unfolding post_run
  post_run-Advances (answered code) = elim (Bool-cases (is_accepted code)) [
    | inl e ↦ rw (e, post_run) (fired-Advances none)
    | inr e ↦ rw (e, post_run) (expired-Advances (returned_status code))
  ]
  post_run-Advances read_timeout = fired-Advances (some response_timeout)
  post_run-Advances failed = expired-Advances request_failed

-- Whatever the tracker answers, a call for a pending execution keeps every row sound, and moves each
-- row along the diagram or not at all.
pub execute-Advances :
    (cfg : Settings) (w : World) (id : ℕ) (trigger : String) (timestamp : Option ℕ) (s : Store)
    → All IsSound s.rows
    → IsPending id s.rows
    → Advances s.rows (execute cfg w id trigger timestamp s).1.rows
unfolding execute
execute-Advances cfg w id trigger timestamp s h p =
    elim (Option-cases (preflight_reason cfg w (reference_time w timestamp) s)) [
      | inl e ↦ rw (e, execute) (post_run-Advances w id trigger s h p w.post)
      | inr (reason, e) ↦ rw (e, execute) (suppressed-Advances w id trigger s h p reason)
    ]

interval-none :
    (previous reference min_interval : ℕ)
    → 0 < min_interval
    → interval_reason (some previous) reference min_interval ≡ none
    → previous + min_interval * second ≤ reference
unfolding interval_reason
interval-none previous reference min_interval p e = ground arith

-- No fire in the table is later than the latest one.
abbrev FiredBy : Option ℕ → Execution → Type 0
FiredBy latest row = (t : ℕ) → row.fired_at ≡ some t → (l : ℕ) × (latest ≡ some l) × (t ≤ l)

later_fire-right :
    (a b : Option ℕ) (l : ℕ) → b ≡ some l → (k : ℕ) × (later_fire a b ≡ some k) × (l ≤ k)
later_fire-right none b l e = (l, e, omega arith)
later_fire-right (some a) none l e = cc
later_fire-right (some a) (some b) l e = elim (Bool-cases (ltb a b)) [
  | inl h ↦ (b, rw h, ground (arith, e))
  | inr h ↦ (a, rw h, ground (arith, e))
]

later_fire-left :
    (a b : Option ℕ) (t : ℕ) → a ≡ some t → (k : ℕ) × (later_fire a b ≡ some k) × (t ≤ k)
later_fire-left none b t e = cc
later_fire-left (some a) none t e = (a, refl, ground (arith, e))
later_fire-left (some a) (some b) t e = elim (Bool-cases (ltb a b)) [
  | inl h ↦ (b, rw h, ground (arith, e))
  | inr h ↦ (a, rw h, ground (arith, e))
]

latest_fires : (rows : List Execution) → All (FiredBy (get_latest_fire rows)) rows
unfolding get_latest_fire
latest_fires [] = tt
latest_fires (row ∷ rows) = (
  λ t e. later_fire-left row.fired_at (get_latest_fire rows) t e,
  All-map (FiredBy (get_latest_fire rows))
      (FiredBy (later_fire row.fired_at (get_latest_fire rows))) rows
      (λ r f t e.
        let (l, found, le) = f t e in
        let (k, found', le') = later_fire-right row.fired_at (get_latest_fire rows) l found in
        (k, found', omega arith))
      (latest_fires rows),
)

latest_result_bound :
    (c r : Option ℕ) (t : ℕ)
    → (c ≡ some t) ⊎ (r ≡ some t)
    → (l : ℕ) × (latest_result c r ≡ some l) × (t ≤ l)
latest_result_bound none none t (inl e) = cc
latest_result_bound none none t (inr e) = cc
latest_result_bound none (some r) t (inl e) = cc
latest_result_bound none (some r) t (inr e) = (r, refl, ground (arith, e))
latest_result_bound (some c) none t (inl e) = (c, refl, ground (arith, e))
latest_result_bound (some c) none t (inr e) = cc
latest_result_bound (some c) (some r) t (inl e) = (max c r, refl, ground (arith, e))
latest_result_bound (some c) (some r) t (inr e) = (max c r, refl, ground (arith, e))

pub preflight_passed :
    (cfg : Settings) (w : World) (reference : ℕ) (s : Store)
    → preflight_reason cfg w reference s ≡ none
    → (daily_reason cfg reference s ≡ none)
      × (0 < cfg.min_interval
          → (interval_reason
                (latest_result w.cached_result w.remote_result)
                reference
                cfg.min_interval
              ≡ none)
            × (interval_reason (get_latest_fire s.rows) reference cfg.min_interval ≡ none))
unfolding preflight_reason
preflight_passed cfg w reference s e = ground arith

pub execute_passed :
    (cfg : Settings) (w : World) (id : ℕ) (trigger : String) (timestamp : Option ℕ) (s : Store)
    → (execute cfg w id trigger timestamp s).0 ≡ true
    → preflight_reason cfg w (reference_time w timestamp) s ≡ none
unfolding execute
execute_passed cfg w id trigger timestamp s e = ground arith

-- A run starts only if the last result, cached or at the tracker, and every fire in the table lie at
-- least `min_interval` before the reference time, if that interval is on.
pub execute_keeps_interval :
    (cfg : Settings) (w : World) (id : ℕ) (trigger : String) (timestamp : Option ℕ) (s : Store)
    → 0 < cfg.min_interval
    → (execute cfg w id trigger timestamp s).0 ≡ true
    → let reference = reference_time w timestamp in
      ((t : ℕ)
        → (w.cached_result ≡ some t) ⊎ (w.remote_result ≡ some t)
        → t + cfg.min_interval * second ≤ reference)
      × All
          (λ row. (t : ℕ) → row.fired_at ≡ some t → t + cfg.min_interval * second ≤ reference)
          s.rows
execute_keeps_interval cfg w id trigger timestamp s on e =
    let reference = reference_time w timestamp in
    let passed =
      (preflight_passed cfg w reference s (execute_passed cfg w id trigger timestamp s e)).1 on in
    (
      λ t known.
          let (l, found, le) = latest_result_bound w.cached_result w.remote_result t known in
          omega (
            arith,
            le,
            interval-none l reference cfg.min_interval on
                (ap (λ o. interval_reason o reference cfg.min_interval) (sym found) ∙ passed.0),
          ),
      All-map (FiredBy (get_latest_fire s.rows))
          (λ row. (t : ℕ) → row.fired_at ≡ some t → t + cfg.min_interval * second ≤ reference)
          s.rows
          (λ row f t known.
            let (l, found, le) = f t known in
            omega (
              arith,
              le,
              interval-none l reference cfg.min_interval on
                  (ap (λ o. interval_reason o reference cfg.min_interval) (sym found) ∙ passed.1),
            ))
          (latest_fires s.rows),
    )
