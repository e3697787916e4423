-- ===== src/Collector/Backoff.antt =====
-- The back-off of app/collectors/base.py: its bounds, its growth, and when a poll is due.
use native.Mathlib.Nat.{pow-suc}
use docsight.Prelude.{
  second, ℕ, zero, suc, ◌+◌, ◌-◌, ◌*◌, ◌^◌, ◌≤◌, ◌<◌, min, ◌≡◌, true, false, List, [], ◌∷◌, arith,
  length, All, leb,
}
use docsight.Collector.{
  Collector, max_penalty_seconds, penalty_seconds, should_poll, record_success, record_skip,
  record_failure, get_status,
}

pow_pos : (n : ℕ) → 1 ≤ 2 ^ n
pow_pos zero = omega arith
pow_pos (suc n) = rw pow-suc (omega (arith, pow_pos n))

-- The penalty never exceeds the cap, and while failures are counted it is at least 30 seconds.
pub penalty_bounds :
    (now : ℕ) (c : Collector)
    → ((penalty_seconds now c).0 ≤ max_penalty_seconds)
      × (0 < (penalty_seconds now c).1.consecutive_failures → 30 ≤ (penalty_seconds now c).0)
unfolding penalty_seconds
penalty_bounds now c = ground (arith, pow_pos (c.consecutive_failures - 1))

-- A poll is due only once the base interval has passed, and is always due one hour after that.
pub should_poll_window :
    (now now' : ℕ) (c : Collector)
    → ((should_poll now now' c).0 ≡ true → c.last_poll + c.poll_interval_seconds * second ≤ now)
      × (c.last_poll + (c.poll_interval_seconds + max_penalty_seconds) * second ≤ now
          → (should_poll now now' c).0 ≡ true)
unfolding should_poll
should_poll_window now now' c = ground (arith, penalty_bounds now' c)

-- One more failure at least keeps the penalty, and doubles it unless the cap is reached.
penalty-record_failure : (n : ℕ) → min (30 * 2 ^ suc n) 3600 ≡ min (2 * min (30 * 2 ^ n) 3600) 3600
penalty-record_failure n = rw pow-suc (omega arith)

-- The readings of one failed collection, in the order in which the clock is read.
pub record Failure : Type 0 where
  pub failed : ℕ
  pub polled : ℕ
  pub priced : ℕ
  pub logged : ℕ

abbrev pub fail : Failure → Collector → Collector
fail f c = record_failure f.failed f.polled f.priced f.logged c

unfoldable pub fail_all : List Failure → Collector → Collector
fail_all [] c = c
fail_all (f ∷ fs) c = fail_all fs (fail f c)

-- The clock is past zero at a failure, and the later readings come within the reset time.
abbrev pub IsPrompt : Failure → Type 0
IsPrompt f =
    (0 < f.failed)
    × (f.priced < f.failed + 24 * 3600 * second)
    × (f.logged < f.failed + 24 * 3600 * second)

fail_counts :
    (f : Failure) (c : Collector)
    → IsPrompt f
    → ((fail f c).consecutive_failures ≡ suc c.consecutive_failures)
      × ((fail f c).last_failure_time ≡ f.failed)
unfolding record_failure
fail_counts f c h = ground arith

fail_all_counts :
    (f : Failure) (fs : List Failure) (c : Collector)
    → All IsPrompt (f ∷ fs)
    → ((fail_all (f ∷ fs) c).consecutive_failures ≡ suc (length fs + c.consecutive_failures))
      × (0 < (fail_all (f ∷ fs) c).last_failure_time)
unfolding fail_all
fail_all_counts f [] c h = ground (arith, fail_counts f c h.0)
fail_all_counts f (g ∷ fs) c h =
    ground (arith, fail_counts f c h.0, fail_all_counts g fs (fail f c) h.1)

penalty_seconds-eq :
    (now n : ℕ) (c : Collector)
    → c.consecutive_failures ≡ suc n
    → now < c.last_failure_time + 24 * 3600 * second
    → (penalty_seconds now c).0 ≡ min (30 * 2 ^ n) max_penalty_seconds
unfolding penalty_seconds
penalty_seconds-eq now n c e h =
    let k : c.consecutive_failures - 1 ≡ n = omega arith in ground (arith, k)

-- After one failure and further ones in a row, from a collector with none counted, the penalty is 30
-- seconds doubled once for each further failure, up to the cap, until a day after the last one.
pub backoff_doubles :
    (f : Failure) (fs : List Failure) (c : Collector) (now : ℕ)
    → c.consecutive_failures ≡ 0
    → All IsPrompt (f ∷ fs)
    → now < (fail_all (f ∷ fs) c).last_failure_time + 24 * 3600 * second
    → (penalty_seconds now (fail_all (f ∷ fs) c)).0 ≡ min (30 * 2 ^ length fs) max_penalty_seconds
backoff_doubles f fs c now z h idle =
    penalty_seconds-eq now (length fs) (fail_all (f ∷ fs) c)
      (omega (arith, (fail_all_counts f fs c h).0)) idle

-- After a success or a skipped poll the next poll is due exactly when the base interval has passed,
-- whatever failures came before.
pub recovery_restores_interval :
    (logged t now now' : ℕ) (c : Collector)
    → ((should_poll now now' (record_success logged t c)).0
        ≡ leb (t + c.poll_interval_seconds * second) now)
      × ((should_poll now now' (record_skip t c)).0
          ≡ leb (t + c.poll_interval_seconds * second) now)
unfolding should_poll record_success record_skip
recovery_restores_interval logged t now now' c = ground arith

-- A day after the last failure the penalty is gone and the failure count is cleared.
pub idle_day_resets :
    (now : ℕ) (c : Collector)
    → 0 < c.last_failure_time
    → c.last_failure_time + 24 * 3600 * second ≤ now
    → ((penalty_seconds now c).0 ≡ 0) × ((penalty_seconds now c).1.consecutive_failures ≡ 0)
unfolding penalty_seconds
idle_day_resets now c h k = ground arith

-- The status shows no waiting time when a poll is due at the same readings, and a waiting time means
-- that no poll is due. If the clock is not behind the last poll, it is at most the base interval
-- and the cap.
pub get_status-should_poll :
    (now now' now'' : ℕ) (c : Collector)
    → let status = (get_status now now' now'' c).0 in
      ((should_poll now now' c).0 ≡ true → status.next_poll_in ≡ 0)
      × (0 < status.next_poll_in → (should_poll now now' c).0 ≡ false)
      × (c.last_poll ≤ now → status.next_poll_in ≤ c.poll_interval_seconds + max_penalty_seconds)
unfolding get_status should_poll
get_status-should_poll now now' now'' c = ground (arith, penalty_bounds now' c)
