-- ===== src/Adapter.antt =====
-- app/smart_capture/adapters/speedtest.py: `SpeedtestAdapter`, which starts a speedtest for a capture
-- and links the results that are imported later. The HTTP calls, the clock and the parsed times are
-- arguments. A setting is a number from 0 (what is not positive is off). The lock makes a call one
-- step.
pub mod Preflight
pub mod DailyCap
pub mod Validity
pub mod Matching
mod Tests
use docsight.Prelude.{
  second, ℕ, ◌+◌, ◌-◌, ◌*◌, ◌/◌, max, String, Bool, true, false, ◌&&◌, ◌||◌, Option, none, some,
  List, [], ◌∷◌, ◌++◌, any, ltb, leb, ◌==◌, if◌then◌else◌,
}
use docsight.Executions.{
  Status, fired, completed, suppressed, expired, Reason, recent_speedtest_result,
  speedtest_min_interval, speedtest_daily_cap, Fault, returned_status, response_timeout,
  request_failed, Execution, Store, Captured, no_update, update_execution, claim_execution,
  get_fired_unmatched, get_latest_fire, count_fires_since,
}

pub record Settings : Type 0 where
  pub min_interval : ℕ
  pub max_actions_per_day : ℕ
  pub match_window : ℕ

-- How the POST to the tracker ends. `failed` is any other exception of the request; an error of the
-- storage is not modelled: where it comes from `_mark_fired` behind an accepted answer, the code
-- expires the row, as it does for `failed`, and elsewhere it raises.
pub data Post : Type 0 where
  answered : ℕ → Post
  read_timeout failed : Post

-- What a call of `execute` reads from outside: the clock, the newest result cached and at the tracker,
-- the answer to the POST, and the clock again if the run is accepted.
pub record World : Type 0 where
  pub now : ℕ
  pub cached_result : Option ℕ
  pub remote_result : Option ℕ
  pub post : Post
  pub fired_now : ℕ

abbrev pub is_accepted : ℕ → Bool
is_accepted code = code == 200 || code == 201 || code == 202 || code == 204

-- `_interval_reason`: the seconds that remain; an elapsed time below 0 counts as 0.
pub interval_reason : Option ℕ → ℕ → ℕ → Option ℕ
interval_reason none reference min_interval = none
interval_reason (some previous) reference min_interval =
    if ltb (reference - previous) (min_interval * second)
    then some ((min_interval * second - (reference - previous)) / second)
    else none

-- `_latest_tracker_result_timestamp`
abbrev pub latest_result : Option ℕ → Option ℕ → Option ℕ
latest_result none remote = remote
latest_result (some c) none = some c
latest_result (some c) (some r) = some (max c r)

-- The text of a cutoff has whole seconds.
abbrev pub cutoff_day : ℕ → ℕ
cutoff_day reference = (reference - 24 * 3600 * second) / second * second

-- The last check of `_preflight_suppression_reason`.
pub daily_reason : Settings → ℕ → Store → Option Reason
daily_reason cfg reference s =
    let used = count_fires_since (cutoff_day reference) s.rows in
    if ltb 0 cfg.max_actions_per_day && leb cfg.max_actions_per_day used
    then some (speedtest_daily_cap used cfg.max_actions_per_day)
    else none

-- `_preflight_suppression_reason`
pub preflight_reason : Settings → World → ℕ → Store → Option Reason
unfolding interval_reason daily_reason
preflight_reason cfg w reference s =
    if ltb 0 cfg.min_interval
    then elim (interval_reason (latest_result w.cached_result w.remote_result) reference
        cfg.min_interval) [
          | some n ↦ some (recent_speedtest_result n)
          | none ↦ elim (interval_reason (get_latest_fire s.rows) reference cfg.min_interval) [
            | some n ↦ some (speedtest_min_interval n)
            | none ↦ daily_reason cfg reference s
          ]
        ]
    else daily_reason cfg reference s

-- `_mark_fired`
pub mark_fired : World → ℕ → String → Option Fault → Store → Store
mark_fired w id trigger fault s =
    let s' =
      update_execution id
        (record no_update {
          status = some fired;
          fired_at = some w.fired_now;
          attempt_count = some 1;
          last_error = fault;
        })
        s in
    let event : Captured = record {
      timestamp = w.fired_now;
      trigger_type = trigger;
      execution_id = id;
      accepted = elim fault [ none ↦ true | some _ ↦ false ];
    } in
    record s' { events = s'.events ++ event ∷ [] }

-- The updates of the branches that do not fire.
pub mark_suppressed : ℕ → Reason → Store → Store
mark_suppressed id reason s =
    update_execution id
      (record no_update { status = some suppressed; suppression_reason = some reason }) s

pub mark_expired : ℕ → Fault → Store → Store
mark_expired id fault s =
    update_execution id
      (record no_update { status = some expired; last_error = some fault; attempt_count = some 1 })
      s

-- The part of `_execute_locked` behind the preflight: whether a run counts as started.
pub post_run : World → ℕ → String → Post → Store → Bool × Store
unfolding mark_fired mark_expired
post_run w id trigger (answered code) s =
    if is_accepted code
    then (true, mark_fired w id trigger none s)
    else (false, mark_expired id (returned_status code) s)
post_run w id trigger read_timeout s = (true, mark_fired w id trigger (some response_timeout) s)
post_run w id trigger failed s = (false, mark_expired id request_failed s)

-- The event's own time if it has one, or the clock's.
abbrev pub reference_time : World → Option ℕ → ℕ
reference_time w none = w.now
reference_time w (some t) = t

-- `execute`
unfoldable pub execute : Settings → World → ℕ → String → Option ℕ → Store → Bool × Store
unfolding post_run preflight_reason mark_suppressed
execute cfg w id trigger timestamp s =
    elim (preflight_reason cfg w (reference_time w timestamp) s) [
      | some reason ↦ (false, mark_suppressed id reason s)
      | none ↦ post_run w id trigger w.post s
    ]

-- An imported result: its id, and its time if that parses.
abbrev pub Imported : Type 0
Imported = ℕ × Option ℕ

abbrev pub with_time : List Imported → List (ℕ × ℕ)
with_time [] = []
with_time ((id, none) ∷ results) = with_time results
with_time ((id, some t) ∷ results) = (id, t) ∷ with_time results

abbrev pub is_candidate : ℕ → ℕ → List ℕ → ℕ × ℕ → Bool
is_candidate start window matched (id, t) =
    (if any (λ m. m == id) matched then false else true) && leb start t && leb t (start + window)

-- The body of the inner loop: a candidate replaces a best result that is farther from the start.
pub nearer : ℕ → ℕ → List ℕ → ℕ × ℕ → Option (ℕ × ℕ) → Option (ℕ × ℕ)
nearer start window matched r none = if is_candidate start window matched r then some r else none
nearer start window matched r (some b) =
    if is_candidate start window matched r && ltb (r.1 - start) (b.1 - start)
    then some r
    else some b

-- The inner loop
pub best_result : ℕ → ℕ → List ℕ → Option (ℕ × ℕ) → List (ℕ × ℕ) → Option (ℕ × ℕ)
unfolding nearer
best_result start window matched best [] = best
best_result start window matched best (r ∷ results) =
    best_result start window matched (nearer start window matched r best) results

-- The outer loop, over the executions that wait for a result; `matched` are the results already used.
pub link_each : ℕ → ℕ → List (ℕ × ℕ) → List ℕ → List Execution → Store → Store
unfolding best_result
link_each now window results matched [] s = s
link_each now window results matched (row ∷ rows) s =
    let skip = link_each now window results matched rows s in
    elim row.fired_at [
      | none ↦ skip
      | some start ↦ elim (best_result start window matched none results) [
        | none ↦ skip
        | some r ↦
            let (ok, s') = claim_execution row.id fired completed now r.0 s in
            link_each now window results (if ok then r.0 ∷ matched else matched) rows s'
      ]
    ]

-- `on_results_imported`; the window has at least one second.
pub on_results_imported : Settings → ℕ → List Imported → Store → Store
unfolding link_each
on_results_imported cfg now results s =
    link_each now (max 1 cfg.match_window * second) (with_time results) [] (get_fired_unmatched s) s
