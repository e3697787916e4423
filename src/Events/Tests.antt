-- ===== src/Events/Tests.antt =====
-- app/event_detector.py: runs at concrete polls.
use docsight.Prelude.{
  ℕ, ◌*◌, ◌≤◌, ◌<◌, ◌≡◌, refl, true, String, none, some, List, [], ◌∷◌, length, arith,
}
use docsight.Prelude.Dict.{lookup, insert}
use docsight.Events.{Detector, new, seed, warning, emit_health_event, check_health}
use docsight.Events.Streak.{after, last_poll, event_after-IsStreak, IsStreak}
use docsight.Events.Confirm.{repeat, steady_health_confirmed}
use docsight.Events.Restart.{
  Channel, Summary, Restart, by_id, by_id_from, overlap, is_valid, is_declining, totals_steady,
  restart_of, check_restart, check_errors,
}
use docsight.Events.Restart.Report.{
  check_restart-Reports, reset_is_reported, restart_with_spike, Reports, TotalFell,
}

abbrev detector : Detector
detector = record {
  hysteresis = 3;
  confirmed_health = some "good";
  pending_health = none;
  pending_count = 0;
}

seed_test : seed "good" (new 3) ≡ detector
unfolding seed
seed_test = refl

abbrev polls : List String
polls = "marginal" ∷ "marginal" ∷ "critical" ∷ "good" ∷ []

event_test :
    (check_health (after detector "good" polls) "marginal" (last_poll "good" polls)).1
    ≡ some (record { severity = warning; prev = "good"; current = "marginal" })
unfolding check_health after emit_health_event
event_test = refl

event_after-IsStreak_example : IsStreak "marginal" 3 ("marginal" ∷ polls)
event_after-IsStreak_example =
    event_after-IsStreak detector "good" "marginal" polls
      {e = record { severity = warning; prev = "good"; current = "marginal" }} (omega arith) refl
      event_test

steady_health_confirmed_example :
    (repeat 3 detector "good" "critical").confirmed_health ≡ some "critical"
steady_health_confirmed_example = steady_health_confirmed detector "good" "critical" (omega arith)

abbrev channel : String → ℕ → Channel
channel k n = record { channel_id = k; correctable_errors = some n; uncorrectable_errors = none }

abbrev before : List Channel
before = channel "1" 70 ∷ channel "2" 80 ∷ channel "3" 90 ∷ channel "4" 60 ∷ channel "5" 1 ∷ []

abbrev now : List Channel
now = channel "1" 0 ∷ channel "2" 1 ∷ channel "3" 2 ∷ channel "4" 0 ∷ []

abbrev summary : ℕ → ℕ → Summary
summary c u = record {
  errors_supported = true;
  ds_correctable_errors = some c;
  ds_uncorrectable_errors = some u;
}

abbrev report : Restart
report = record { affected_channels = 4; total_channels = 4 }

restart_test : check_restart before (summary 301 5) now (summary 3 2000) ≡ some report
unfolding check_restart restart_of is_valid is_declining totals_steady overlap by_id_from lookup
    insert
restart_test = refl

spike_test : check_errors (summary 3 2000) (summary 301 5) ≡ some 1995
unfolding check_errors
spike_test = refl

check_restart-Reports_example :
    let pairs = overlap (by_id before) (by_id now) in
    Reports pairs report
    × (length (by_id before) ≤ 2 * length pairs)
    × (length (by_id now) ≤ 2 * length pairs)
    × TotalFell (summary 301 5) (summary 3 2000)
check_restart-Reports_example =
    check_restart-Reports before now (summary 301 5) (summary 3 2000) {r = report} restart_test

reset_is_reported_test :
    check_restart before (summary 301 5) now (summary 3 2000)
    ≡ some (record {
      affected_channels = length (overlap (by_id before) (by_id now));
      total_channels = length (overlap (by_id before) (by_id now));
    })
unfolding is_valid is_declining totals_steady overlap by_id_from lookup insert
reset_is_reported_test =
    reset_is_reported before now (summary 301 5) (summary 3 2000) refl
      ((refl, refl), ((refl, refl), ((refl, refl), ((refl, refl), tt)))) refl

restart_with_spike_test : 3 < 301
restart_with_spike_test =
    restart_with_spike before now (summary 301 5) (summary 3 2000) 301 3 {r = report} {n = 1995}
      restart_test spike_test refl refl
