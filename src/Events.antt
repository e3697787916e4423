-- ===== src/Events.antt =====
-- app/event_detector.py: the change of health, the restart of a modem and the jump of errors between
-- two polls. A health is its text. Counters are numbers from 0.
pub mod Streak
pub mod Confirm
pub mod Restart
pub mod Channels
pub mod Modulation
pub mod Affected
pub mod Snr
pub mod Check
mod Tests
use docsight.Prelude.{
  ℕ, zero, suc, ◌+◌, ◌*◌, ◌-◌, String, str_eq, Bool, true, false, not, ◌&&◌, ◌||◌, Option, none,
  some, List, [], ◌∷◌, length, ltb, leb, ◌==◌, if◌then◌else◌,
}
use docsight.Prelude.Dict.{Dict, lookup, insert}

-- The part of `EventDetector` that the change of health reads and writes.
pub record Detector : Type 0 where
  pub hysteresis : ℕ
  pub confirmed_health : Option String
  pub pending_health : Option String
  pub pending_count : ℕ

-- `EventDetector.__init__`, before it seeds the baseline.
abbrev pub new : ℕ → Detector
new h = record { hysteresis = h; confirmed_health = none; pending_health = none; pending_count = 0 }

-- `seed`, by the health of the baseline.
unfoldable pub seed : String → Detector → Detector
seed health d = record d {
  confirmed_health = if leb 2 d.hysteresis then some health else d.confirmed_health;
  pending_health = none;
  pending_count = 0;
}

pub data Severity : Type 0 where
  info warning critical : Severity

pub record HealthChange : Type 0 where
  pub severity : Severity
  pub prev : String
  pub current : String

abbrev pub health_level : String → ℕ
health_level h =
    if str_eq h "tolerated"
    then 1
    else if str_eq h "marginal"
    then 2
    else if str_eq h "critical"
    then 3
    else 0

-- `_emit_health_event`
unfoldable pub emit_health_event : String → String → HealthChange
emit_health_event prev_health cur_health = record {
  severity =
      if ltb (health_level prev_health) (health_level cur_health)
      then (if str_eq cur_health "critical" then critical else warning)
      else info;
  prev = prev_health;
  current = cur_health;
}

abbrev pub confirmed_or : Detector → String → String
confirmed_or d prev_health = elim d.confirmed_health [ none ↦ prev_health | some h ↦ h ]

abbrev pub is_pending : Detector → String → Bool
is_pending d h = elim d.pending_health [ none ↦ false | some p ↦ str_eq h p ]

abbrev pub next_count : Detector → String → ℕ
next_count d h = if is_pending d h then suc d.pending_count else 1

-- `_check_health`: the detector and the event, from the health of the poll and of the one before.
unfoldable pub check_health : Detector → String → String → Detector × Option HealthChange
check_health d cur_health prev_health =
    let confirmed = confirmed_or d prev_health in
    if ltb d.hysteresis 2
    then (if str_eq cur_health prev_health
        then (d, none)
        else (d, some (emit_health_event prev_health cur_health)))
    else if str_eq cur_health confirmed
    then (
      record d { confirmed_health = some confirmed; pending_health = none; pending_count = 0 },
      none,
    )
    else if leb d.hysteresis (next_count d cur_health)
    then (
      record d { confirmed_health = some cur_health; pending_health = none; pending_count = 0 },
      some (emit_health_event confirmed cur_health),
    )
    else (
      record d {
        confirmed_health = some confirmed;
        pending_health = some cur_health;
        pending_count = next_count d cur_health;
      },
      none,
    )
