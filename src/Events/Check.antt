-- ===== src/Events/Check.antt =====
-- app/event_detector.py: a whole poll (`check`), with the ids of the snapshots in its events
-- (`_annotate_event_details`). The comparison of two mean powers, `abs(a - b) > 2.0` in floats, is a
-- parameter. The time of an event and its message are left out.
mod Maps
pub mod Provenance
use docsight.Prelude.{
  ℕ, String, Bool, true, false, Option, none, some, List, [], ◌∷◌, ◌++◌, map, if◌then◌else◌,
}
use docsight.Prelude.Int.{ℤ}
use docsight.Docsis.Family.{Direction, ds, us}
use docsight.Analyzer.{Thresholds}
use docsight.Events.{Detector, HealthChange, check_health, seed}
use docsight.Events.Restart
use docsight.Events.Restart.{Restart, check_restart, check_errors}
use docsight.Events.Channels.{Snapshot, ChannelChange, check_channels}
use docsight.Events.Modulation.{ModulationChange, check_modulation}
use docsight.Events.Snr.{SnrChange, check_snr}

-- What the checks read of an analysis; its channels stand in the snapshot and, for the restart, with
-- their counters.
pub record Analysis : Type 0 where
  pub health : String
  pub ds_power_avg : Option ℤ
  pub us_power_avg : Option ℤ
  pub ds_snr_min : Option ℤ
  pub snapshot : Snapshot
  pub counters : List Restart.Channel
  pub summary : Restart.Summary

pub data Finding : Type 0 where
  monitoring_started : String → Finding
  health_change : HealthChange → Finding
  power_change : Direction → ℤ → ℤ → Finding
  snr_change : SnrChange → Finding
  channel_change : ChannelChange → Finding
  modulation_change : ModulationChange → Finding
  modem_restart : Restart → Finding
  error_spike : ℕ → Finding

-- An event with the ids in its details.
pub record Event : Type 0 where
  pub finding : Finding
  pub snapshot_id : Option ℕ
  pub previous_snapshot_id : Option ℕ

pub record EventDetector : Type 0 where
  pub detector : Detector
  pub prev : Option Analysis
  pub prev_snapshot_id : Option ℕ

abbrev pub found {ℓ} : {A : Type ℓ} → (A → Finding) → Option A → List Finding
found f none = []
found f (some a) = f a ∷ []

-- `_annotate_event_details`; new events have no ids yet.
abbrev pub annotate_event_details : List Finding → Option ℕ → Option ℕ → List Event
annotate_event_details fs id previous_id =
    map (λ f. record { finding = f; snapshot_id = id; previous_snapshot_id = previous_id }) fs

-- `seed` with a baseline
unfoldable pub seed_detector : Analysis → Option ℕ → EventDetector → EventDetector
seed_detector a id d = record {
  detector = seed a.health d.detector;
  prev = some a;
  prev_snapshot_id = id;
}

module _ (shifted : ℤ → ℤ → Bool) where
  abbrev pub power_shift : Direction → Option ℤ → Option ℤ → List Finding
  power_shift dir none prev = []
  power_shift dir (some c) none = []
  power_shift dir (some c) (some p) = if shifted c p then power_change dir p c ∷ [] else []

  -- `_check_power`
  abbrev pub check_power : Analysis → Analysis → List Finding
  check_power cur prev =
      power_shift ds cur.ds_power_avg prev.ds_power_avg
      ++ power_shift us cur.us_power_avg prev.us_power_avg

  -- The checks behind the one of the health, in their order.
  unfoldable pub signal_findings : Thresholds → Analysis → Analysis → List Finding
  signal_findings t cur prev =
      check_power cur prev
      ++ (found snr_change (
            check_snr t cur.ds_snr_min prev.ds_snr_min cur.snapshot.ds_channels
              prev.snapshot.ds_channels)
          ++ (map channel_change (check_channels cur.snapshot prev.snapshot)
              ++ (map modulation_change (check_modulation cur.snapshot prev.snapshot)
                  ++ (found modem_restart
                        (check_restart prev.counters prev.summary cur.counters cur.summary)
                      ++ found error_spike (check_errors cur.summary prev.summary)))))

  -- `check`
  unfoldable pub check :
      Thresholds → EventDetector → Analysis → Option ℕ → EventDetector × List Event
  check t d a id = elim d.prev [
    | none ↦ (
      record d { prev = some a; prev_snapshot_id = id },
      annotate_event_details (monitoring_started a.health ∷ []) id d.prev_snapshot_id,
    )
    | some p ↦
        let health = check_health d.detector a.health p.health in
        (
          record { detector = health.0; prev = some a; prev_snapshot_id = id },
          annotate_event_details (found health_change health.1 ++ signal_findings t a p) id
              d.prev_snapshot_id,
        )
  ]
