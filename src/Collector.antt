-- ===== src/Collector.antt =====
-- app/collectors/base.py: the schedule of a collector, with its back-off after failures.
-- Time is counted in microseconds, so that a comparison of two readings of the clock is exact.
-- Each reading that a method takes is an argument of its own; the locks give no reordering.
pub mod Backoff
mod Tests
use docsight.Prelude.{
  second, ℕ, suc, ◌+◌, ◌-◌, ◌*◌, ◌/◌, ◌^◌, min, Bool, true, false, ◌&&◌, ltb, leb, ◌==◌,
  if◌then◌else◌,
}

abbrev pub max_penalty_seconds : ℕ
max_penalty_seconds = 3600

abbrev pub penalty_reset_hours : ℕ
penalty_reset_hours = 24

pub record Collector : Type 0 where
  pub poll_interval_seconds : ℕ
  pub last_poll : ℕ
  pub last_success : ℕ
  pub poll_success : Bool
  pub consecutive_failures : ℕ
  pub last_failure_time : ℕ

-- `Collector(poll_interval_seconds)`
abbrev pub new : ℕ → Collector
new interval = record {
  poll_interval_seconds = interval;
  last_poll = 0;
  last_success = 0;
  poll_success = false;
  consecutive_failures = 0;
  last_failure_time = 0;
}

-- The first test of `_penalty_seconds_unlocked`: has the collector been idle long enough?
abbrev pub reset_due : ℕ → Collector → Bool
reset_due now c =
    ltb 0 c.consecutive_failures
    && ltb 0 c.last_failure_time
    && leb (c.last_failure_time + penalty_reset_hours * 3600 * second) now

-- `_penalty_seconds_unlocked`, which may clear the failure count.
pub penalty_seconds : ℕ → Collector → ℕ × Collector
penalty_seconds now c =
    if reset_due now c
    then (0, record c { consecutive_failures = 0; last_failure_time = 0 })
    else if c.consecutive_failures == 0
    then (0, c)
    else (min (30 * 2 ^ (c.consecutive_failures - 1)) max_penalty_seconds, c)

-- `_effective_interval_unlocked`
pub effective_interval : ℕ → Collector → ℕ × Collector
unfolding penalty_seconds
effective_interval now c =
    let (penalty, c') = penalty_seconds now c in (c.poll_interval_seconds + penalty, c')

-- `should_poll`; `now` is its own reading, `now'` that of the penalty.
pub should_poll : ℕ → ℕ → Collector → Bool × Collector
unfolding effective_interval
should_poll now now' c =
    let (interval, c') = effective_interval now' c in
    (leb (c.last_poll + interval * second) now, c')

-- `record_success`; the penalty is computed for the log line only.
pub record_success : ℕ → ℕ → Collector → Collector
unfolding penalty_seconds
record_success logged now c =
    let c' = if ltb 0 c.consecutive_failures then (penalty_seconds logged c).1 else c in
    record c' {
      consecutive_failures = 0;
      last_failure_time = 0;
      last_poll = now;
      last_success = now;
      poll_success = true;
    }

-- `record_skip`
pub record_skip : ℕ → Collector → Collector
record_skip now c = record c { consecutive_failures = 0; last_failure_time = 0; last_poll = now }

-- `record_failure`; the last two readings belong to the penalty and to the log line.
pub record_failure : ℕ → ℕ → ℕ → ℕ → Collector → Collector
unfolding penalty_seconds effective_interval
record_failure failed polled now now' c =
    let counted : Collector = record c {
      poll_success = false;
      consecutive_failures = suc c.consecutive_failures;
      last_failure_time = failed;
      last_poll = polled;
    } in
    (effective_interval now' (penalty_seconds now counted).1).1

pub record Status : Type 0 where
  pub failures : ℕ
  pub penalty : ℕ
  pub effective : ℕ
  pub next_poll_in : ℕ

-- `get_status`: the fields that are computed; the others are copied from the collector.
-- The failure count is read after the interval, the penalty after that.
pub get_status : ℕ → ℕ → ℕ → Collector → Status × Collector
unfolding penalty_seconds effective_interval
get_status now now' now'' c =
    let (interval, c') = effective_interval now' c in
    let (penalty, c'') = penalty_seconds now'' c' in
    let until_next = c.last_poll + interval * second - now in
    (
      record {
        failures = c'.consecutive_failures;
        penalty = penalty;
        effective = interval;
        next_poll_in = until_next / second;
      },
      c'',
    )
