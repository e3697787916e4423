-- ===== src/Executions.antt =====
-- app/storage/smart_capture.py: the table of capture executions, and app/smart_capture/types.py.
-- A time is a number of microseconds, where the table keeps a UTC text whose order is that of time.
-- There is one action type, so that column is not modelled; `json` of the details is not either.
pub mod Lifecycle
mod Tests
use docsight.Prelude.{
  ℕ, suc, ◌+◌, String, Bool, true, false, ◌&&◌, Option, none, some, List, [], ◌∷◌, ◌++◌, map, keep,
  count_if, ltb, leb, ◌==◌, if◌then◌else◌,
}
use docsight.Guardrails.{Verdict}

-- `ExecutionStatus`
pub data Status : Type 0 where
  pending fired completed suppressed expired : Status

-- The texts of `suppression_reason`.
pub data Reason : Type 0 where
  guardrail : Verdict → Reason
  recent_speedtest_result : ℕ → Reason
  speedtest_min_interval : ℕ → Reason
  speedtest_daily_cap : ℕ → ℕ → Reason

-- The texts of `last_error`.
pub data Fault : Type 0 where
  returned_status : ℕ → Fault
  response_timeout request_failed no_matching_result no_action_adapter : Fault

pub record Execution : Type 0 where
  pub id : ℕ
  pub trigger_type : String
  pub trigger_event_id : Option ℕ
  pub trigger_timestamp : Option ℕ
  pub status : Status
  pub fired_at : Option ℕ
  pub completed_at : Option ℕ
  pub linked_result_id : Option ℕ
  pub suppression_reason : Option Reason
  pub last_error : Option Fault
  pub attempt_count : ℕ
  pub created_at : ℕ

-- An event `smart_capture_triggered` in the table of events.
pub record Captured : Type 0 where
  pub timestamp : ℕ
  pub trigger_type : String
  pub execution_id : ℕ
  pub accepted : Bool

pub record Store : Type 0 where
  pub rows : List Execution
  pub next_id : ℕ
  pub events : List Captured

-- `save_execution`, which returns the new row's id.
unfoldable pub save_execution :
    ℕ → String → Status → Option ℕ → Option ℕ → Option Reason → Store → ℕ × Store
save_execution now trigger status event_id timestamp reason s =
    let row : Execution = record {
      id = s.next_id;
      trigger_type = trigger;
      trigger_event_id = event_id;
      trigger_timestamp = timestamp;
      status = status;
      fired_at = none;
      completed_at = none;
      linked_result_id = none;
      suppression_reason = reason;
      last_error = none;
      attempt_count = 0;
      created_at = now;
    } in
    (s.next_id, record s { rows = s.rows ++ row ∷ []; next_id = suc s.next_id })

-- The fields that a call of `update_execution` gives; `none` leaves a column alone.
pub record Update : Type 0 where
  pub status : Option Status
  pub fired_at : Option ℕ
  pub completed_at : Option ℕ
  pub linked_result_id : Option ℕ
  pub last_error : Option Fault
  pub attempt_count : Option ℕ
  pub suppression_reason : Option Reason

abbrev pub given {ℓ} : {A : Type ℓ} → Option A → A → A
given none old = old
given (some new) old = new

abbrev pub given? {ℓ} : {A : Type ℓ} → Option A → Option A → Option A
given? none old = old
given? (some new) old = some new

abbrev pub update_row : Update → Execution → Execution
update_row u row = record row {
  status = given u.status row.status;
  fired_at = given? u.fired_at row.fired_at;
  completed_at = given? u.completed_at row.completed_at;
  linked_result_id = given? u.linked_result_id row.linked_result_id;
  last_error = given? u.last_error row.last_error;
  attempt_count = given u.attempt_count row.attempt_count;
  suppression_reason = given? u.suppression_reason row.suppression_reason;
}

-- `UPDATE … SET … WHERE cond`
abbrev pub update_where : (Execution → Bool) → Update → List Execution → List Execution
update_where cond u [] = []
update_where cond u (row ∷ rows) =
    (if cond row then update_row u row else row) ∷ update_where cond u rows

unfoldable pub update_execution : ℕ → Update → Store → Store
update_execution id u s = record s { rows = update_where (λ row. row.id == id) u s.rows }

abbrev pub is_status : Status → Status → Bool
is_status pending pending = true
is_status fired fired = true
is_status completed completed = true
is_status suppressed suppressed = true
is_status expired expired = true
is_status _ _ = false

abbrev pub is_none {ℓ} : {A : Type ℓ} → Option A → Bool
is_none none = true
is_none (some _) = false

-- `fired_at < cutoff`; a comparison with NULL does not hold.
abbrev pub before : ℕ → Option ℕ → Bool
before cutoff none = false
before cutoff (some t) = ltb t cutoff

abbrev pub since : ℕ → Option ℕ → Bool
since cutoff none = false
since cutoff (some t) = leb cutoff t

abbrev pub no_update : Update
no_update = record {
  status = none;
  fired_at = none;
  completed_at = none;
  linked_result_id = none;
  last_error = none;
  attempt_count = none;
  suppression_reason = none;
}

abbrev pub is_stale_fired : ℕ → Execution → Bool
is_stale_fired cutoff row =
    is_status row.status fired && before cutoff row.fired_at && is_none row.linked_result_id

-- `expire_stale_fired`, with the number of rows that it changes.
pub expire_stale_fired : ℕ → Store → ℕ × Store
expire_stale_fired cutoff s = (
  count_if (is_stale_fired cutoff) s.rows,
  record s {
    rows =
        update_where (is_stale_fired cutoff)
          (record no_update { status = some expired; last_error = some no_matching_result }) s.rows;
  },
)

abbrev pub is_stale_pending : ℕ → Execution → Bool
is_stale_pending cutoff row = is_status row.status pending && ltb row.created_at cutoff

-- `expire_stale_pending`
pub expire_stale_pending : ℕ → Store → ℕ × Store
expire_stale_pending cutoff s = (
  count_if (is_stale_pending cutoff) s.rows,
  record s {
    rows =
        update_where (is_stale_pending cutoff)
          (record no_update { status = some expired; last_error = some no_action_adapter }) s.rows;
  },
)

abbrev pub has_status : ℕ → Status → Execution → Bool
has_status id expected row = row.id == id && is_status row.status expected

-- `claim_execution`: an update only from the expected status, and whether it took place.
unfoldable pub claim_execution : ℕ → Status → Status → ℕ → ℕ → Store → Bool × Store
claim_execution id expected new now result s = (
  ltb 0 (count_if (has_status id expected) s.rows),
  record s {
    rows =
        update_where (has_status id expected)
          (record no_update {
            status = some new;
            completed_at = some now;
            linked_result_id = some result;
          })
          s.rows;
  },
)

abbrev pub is_unmatched : Execution → Bool
is_unmatched row = is_status row.status fired && is_none row.linked_result_id

abbrev pub fired_time : Execution → ℕ
fired_time row = elim row.fired_at [ none ↦ 0 | some t ↦ t ]

abbrev pub insert_by_fired : Execution → List Execution → List Execution
insert_by_fired row [] = row ∷ []
insert_by_fired row (r ∷ rows) =
    if leb (fired_time row) (fired_time r) then row ∷ r ∷ rows else r ∷ insert_by_fired row rows

abbrev pub sort_by_fired : List Execution → List Execution
sort_by_fired [] = []
sort_by_fired (r ∷ rows) = insert_by_fired r (sort_by_fired rows)

-- `get_fired_unmatched`, oldest first
unfoldable pub get_fired_unmatched : Store → List Execution
get_fired_unmatched s = sort_by_fired (keep is_unmatched s.rows)

abbrev pub later_fire : Option ℕ → Option ℕ → Option ℕ
later_fire none b = b
later_fire (some a) none = some a
later_fire (some a) (some b) = if ltb a b then some b else some a

-- `get_latest_smart_capture_fire`
unfoldable pub get_latest_fire : List Execution → Option ℕ
get_latest_fire [] = none
get_latest_fire (row ∷ rows) = later_fire row.fired_at (get_latest_fire rows)

-- `count_smart_capture_fires_since`
unfoldable pub count_fires_since : ℕ → List Execution → ℕ
count_fires_since cutoff rows = count_if (λ row. since cutoff row.fired_at) rows
