-- ===== src/Events/Modulation/Tests.antt =====
-- app/event_detector.py: runs at snapshots of two channels, of which one falls.
use docsight.Prelude.{
  Bool, true, false, ◌||◌, ℕ, ◌+◌, ◌<◌, ◌≡◌, ◌≢◌, refl, ◌⊎◌, inl, some, none, List, [], ◌∷◌, length,
  ltb, arith,
}
use docsight.Prelude.Dict.{lookup, insert}
use docsight.Prelude.Int.{ℤ, pos, pos_part, neg_part}
use docsight.Values.{codes}
use docsight.Docsis.{
  qam_rank, parse_qam_order, order_of, clean, strip_right, number_qam, read_digits,
}
use docsight.Docsis.Family.{ds, sc_qam, Carrier}
use docsight.Analyzer.{good, bad, warning}
use docsight.Analyzer.Fallback.{fallback}
use docsight.Events.{new, check_health}
use docsight.Events.Check.{
  Analysis, EventDetector, check, annotate_event_details, found, health_change,
}
use docsight.Events.Check.Provenance.{unchanged_poll}
use docsight.Events.Channels.{
  SnapshotChannel, Snapshot, ChannelChange, no_carrier, map_from, channel_map, channel_change,
}
use docsight.Events.Channels.Accounts.{channel_change_accounts}
use docsight.Events.Modulation.{change_entry, check_modulation}
use docsight.Events.Modulation.Changes.{Reports, downgrade_reported}
use docsight.Events.Affected.{affected, affected_by_health, degradations, with_key}
use docsight.Events.Snr.{check_snr}
use docsight.Events.Snr.Worst.{Warns, worse_snr-Warns}

abbrev carrier : List ℕ → Carrier
carrier m = record no_carrier { modulation = m; docsis_version = codes "3.0" }

abbrev channel_7 : SnapshotChannel
channel_7 = record {
  key = some "7";
  channel_id = "7";
  frequency = codes "602 MHz";
  carrier = carrier (codes "256QAM");
  channel_family = some sc_qam;
  modulation_health = none;
  snr = some (pos 36000);
  snr_health = some good;
}

abbrev channel_8 : SnapshotChannel
channel_8 = record channel_7 { key = some "8"; channel_id = "8" }

abbrev fallen_7 : SnapshotChannel
fallen_7 = record channel_7 {
  carrier = carrier (codes "16QAM");
  snr = some (pos 30000);
  snr_health = some (bad warning);
}

channel_change_accounts_example :
    ((channel_change ds 1 2 (channel_7 ∷ []) (channel_7 ∷ channel_8 ∷ []) ≡ none)
      × (◌≡◌ {A = ℕ} 1 2))
    ⊎ ((e : ChannelChange) × (channel_change ds 1 2 (channel_7 ∷ []) (channel_7 ∷ channel_8 ∷ [])
          ≡ some e)
        × (◌≢◌ {A = ℕ} 1 2)
        × (1 + length e.lost_channels ≡ 2 + length e.added_channels)
        × (e.is_loss ≡ ltb (length e.added_channels) (length e.lost_channels)))
channel_change_accounts_example =
    channel_change_accounts ds (channel_7 ∷ []) (channel_7 ∷ channel_8 ∷ []) (refl, (refl, tt))
      (refl, (refl, (refl, tt)))

abbrev snapshot : SnapshotChannel → Snapshot
snapshot ch = record {
  ds_total = 2;
  us_total = 0;
  ds_channels = ch ∷ channel_8 ∷ [];
  us_channels = [];
}

found_7 :
    (ch : SnapshotChannel)
    → ch.key ≡ some "7"
    → lookup "7" (channel_map (ch ∷ channel_8 ∷ [])) ≡ some ch
unfolding map_from insert lookup
found_7 ch e = rw e refl

found_alone : with_key (some "7") (channel_map (channel_7 ∷ [])) ≡ some channel_7
unfolding map_from insert lookup
found_alone = refl

ranks_fall : qam_rank (codes "16QAM") < qam_rank (codes "256QAM")
unfolding qam_rank parse_qam_order order_of clean strip_right number_qam read_digits
ranks_fall = omega arith

downgrade_reported_example :
    Reports
      (change_entry ds fallen_7 channel_7)
      (check_modulation (snapshot fallen_7) (snapshot channel_7))
downgrade_reported_example =
    downgrade_reported ds (snapshot fallen_7) (snapshot channel_7) "7" fallen_7 channel_7
      (found_7 fallen_7 refl) (found_7 channel_7 refl) ranks_fall

known_healths : affected_by_health (fallen_7 ∷ []) (channel_7 ∷ []) ≢ none
unfolding affected_by_health degradations map_from insert lookup
known_healths = ground arith

worse_snr-Warns_example :
    Warns
      (affected fallen_7 channel_7 (pos 36000) (pos 30000) warning)
      (check_snr fallback (some (pos 30000)) (some (pos 36000)) (fallen_7 ∷ []) (channel_7 ∷ []))
worse_snr-Warns_example =
    worse_snr-Warns fallback (pos 30000) (pos 36000) (fallen_7 ∷ []) (channel_7 ∷ []) fallen_7
      channel_7 warning (pos 36000) (pos 30000) refl known_healths (inl refl) found_alone refl

-- A shift of more than 2 dB, in thousandths.
abbrev shifted : ℤ → ℤ → Bool
shifted a b =
    ltb (pos_part b + neg_part a + 2000) (pos_part a + neg_part b)
    || ltb (pos_part a + neg_part b + 2000) (pos_part b + neg_part a)

no_shift : (n : ℤ) → shifted n n ≡ false
no_shift n = ground arith

abbrev analysis : Analysis
analysis = record {
  health = "critical";
  ds_power_avg = some (pos 4000);
  us_power_avg = some (pos 44000);
  ds_snr_min = some (pos 36000);
  snapshot = snapshot fallen_7;
  counters = [];
  summary = record {
    errors_supported = true;
    ds_correctable_errors = some 7;
    ds_uncorrectable_errors = some 3;
  };
}

abbrev starting : EventDetector
starting = record { detector = new 2; prev = none; prev_snapshot_id = none }

unchanged_poll_example :
    (check shifted fallback
      (check shifted fallback starting analysis (some 11)).0
      analysis
      (some 12)).1
    ≡ annotate_event_details
        (found health_change
          (check_health
            (check shifted fallback starting analysis (some 11)).0.detector
            "critical"
            "critical").1)
        (some 12)
        (some 11)
unchanged_poll_example =
    unchanged_poll shifted fallback starting analysis (some 11) (some 12) no_shift
