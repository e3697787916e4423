-- ===== src/Collector/Tests.antt =====
-- Runs of the collector's schedule, and the theorems at concrete inputs.
use docsight.Prelude.{
  second, ℕ, ◌+◌, ◌*◌, ◌^◌, ◌≤◌, ◌<◌, min, ◌≡◌, true, false, List, [], ◌∷◌, refl, arith, leb,
}
use docsight.Collector.{
  Collector, new, max_penalty_seconds, penalty_seconds, should_poll, record_success, record_skip,
  record_failure, get_status,
}
use docsight.Collector.Backoff.{
  penalty_bounds, should_poll_window, Failure, fail_all, backoff_doubles,
  recovery_restores_interval, idle_day_resets, get_status-should_poll,
}

abbrev at_second : ℕ → Failure
at_second t = record {
  failed = t * second;
  polled = t * second + 1;
  priced = t * second + 2;
  logged = t * second + 3;
}

abbrev outage : List Failure
outage = at_second 2000 ∷ at_second 3000 ∷ at_second 4000 ∷ []

abbrev broken : Collector
broken = fail_all (at_second 1000 ∷ outage) (new 900)

broken_penalty : (penalty_seconds (5000 * second) broken).0 ≡ 240
unfolding penalty_seconds fail_all record_failure
broken_penalty = refl

penalty_bounds_example :
    ((penalty_seconds (5000 * second) broken).0 ≤ max_penalty_seconds)
    × (0 < (penalty_seconds (5000 * second) broken).1.consecutive_failures
        → 30 ≤ (penalty_seconds (5000 * second) broken).0)
penalty_bounds_example = penalty_bounds (5000 * second) broken

should_poll_window_test :
    ((should_poll 900000001 900000001 (new 900)).0 ≡ true → 0 + 900 * second ≤ 900000001)
    × (0 + (900 + max_penalty_seconds) * second ≤ 900000001
        → (should_poll 900000001 900000001 (new 900)).0 ≡ true)
should_poll_window_test = should_poll_window 900000001 900000001 (new 900)

backoff_doubles_example :
    (penalty_seconds (5000 * second) broken).0 ≡ min (30 * 2 ^ 3) max_penalty_seconds
unfolding fail_all record_failure
backoff_doubles_example =
    backoff_doubles (at_second 1000) outage (new 900) (5000 * second) refl (omega arith)
      (omega arith)

recovery_restores_interval_test :
    ((should_poll (6000 * second) (6000 * second) (record_success 0 (5000 * second) broken)).0
      ≡ leb (5000 * second + broken.poll_interval_seconds * second) (6000 * second))
    × ((should_poll (6000 * second) (6000 * second) (record_skip (5000 * second) broken)).0
        ≡ leb (5000 * second + broken.poll_interval_seconds * second) (6000 * second))
recovery_restores_interval_test =
    recovery_restores_interval 0 (5000 * second) (6000 * second) (6000 * second) broken

idle_day_resets_example :
    ((penalty_seconds (90400 * second) broken).0 ≡ 0)
    × ((penalty_seconds (90400 * second) broken).1.consecutive_failures ≡ 0)
unfolding fail_all record_failure
idle_day_resets_example = idle_day_resets (90400 * second) broken (omega arith) (omega arith)

get_status-should_poll_test :
    let status = (get_status 900000001 900000001 900000002 (new 900)).0 in
    ((should_poll 900000001 900000001 (new 900)).0 ≡ true → status.next_poll_in ≡ 0)
    × (0 < status.next_poll_in → (should_poll 900000001 900000001 (new 900)).0 ≡ false)
    × (0 ≤ 900000001 → status.next_poll_in ≤ 900 + max_penalty_seconds)
get_status-should_poll_test = get_status-should_poll 900000001 900000001 900000002 (new 900)
