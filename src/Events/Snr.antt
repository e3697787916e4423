-- ===== src/Events/Snr.antt =====
-- app/event_detector.py: the changes of the smallest signal to noise ratio (`_check_snr`).
pub mod Worst
use Prim.Native.String.{compare}
use text.Mathlib.Text.{is_le}
use docsight.Prelude.{
  ℕ, String, Bool, true, false, not, ◌&&◌, ◌||◌, Option, none, some, List, [], ◌∷◌, ltb, leb, ◌==◌,
  if◌then◌else◌,
}
use docsight.Prelude.Dict.{Dict, lookup}
use docsight.Prelude.Int.{ℤ, ltb_ℤ}
use docsight.Docsis.Family.{Family, sc_qam, ofdm, ofdma, unknown, ds, channel_type_label}
use docsight.Analyzer.{
  Health, good, bad, Level, tolerated, warning, critical, rank, health_rank, Thresholds,
  snr_thresholds,
}
use docsight.Events.Channels.{SnapshotChannel, channel_map, or_text}
use docsight.Events.Affected.{Affected, affected_by_health, affected_channels}

pub record SnrChange : Type 0 where
  pub is_critical : Bool
  pub prev : ℤ
  pub current : ℤ
  pub threshold : Level
  pub threshold_value : Option ℤ
  pub channels : List Affected

-- The first of the worst channels, `max` by the health.
abbrev pub worst_level : Level → List Affected → Level
worst_level l [] = l
worst_level l (a ∷ rest) =
    worst_level (if ltb (rank l) (rank a.threshold) then a.threshold else l) rest

abbrev pub is_level_critical : Level → Bool
is_level_critical critical = true
is_level_critical tolerated = false
is_level_critical warning = false

abbrev pub by_health : ℤ → ℤ → List Affected → Option SnrChange
by_health current prev [] = none
by_health current prev (a ∷ rest) = some (record {
  is_critical = is_level_critical (worst_level a.threshold rest);
  prev = prev;
  current = current;
  threshold = worst_level a.threshold rest;
  threshold_value = none;
  channels = a ∷ rest;
})

-- The thresholds of a ratio whose modulation is not known.
unfoldable pub by_thresholds :
    Thresholds → ℤ → ℤ → List SnapshotChannel → List SnapshotChannel → Option SnrChange
by_thresholds t current prev cur_channels prev_channels =
    let st = snr_thresholds [] none t in
    if ltb_ℤ current st.crit_min && not (ltb_ℤ prev st.crit_min)
    then some (record {
      is_critical = true;
      prev = prev;
      current = current;
      threshold = critical;
      threshold_value = some st.crit_min;
      channels =
          affected_channels cur_channels prev_channels
            ((warning, st.good_min) ∷ (critical, st.crit_min) ∷ []);
    })
    else if ltb_ℤ current st.good_min && not (ltb_ℤ prev st.good_min)
    then some (record {
      is_critical = false;
      prev = prev;
      current = current;
      threshold = warning;
      threshold_value = some st.good_min;
      channels = affected_channels cur_channels prev_channels ((warning, st.good_min) ∷ []);
    })
    else none

abbrev pub same_ℤ : ℤ → ℤ → Bool
same_ℤ a b = not (ltb_ℤ a b) && not (ltb_ℤ b a)

-- `_check_snr`, by the smallest ratios of the two summaries.
unfoldable pub check_snr :
    Thresholds
    → Option ℤ
    → Option ℤ
    → List SnapshotChannel
    → List SnapshotChannel
    → Option SnrChange
check_snr t none prev cur_channels prev_channels = none
check_snr t (some c) none cur_channels prev_channels = none
check_snr t (some c) (some p) cur_channels prev_channels =
    if same_ℤ c p then none else elim (affected_by_health cur_channels prev_channels) [
      | some worse_ones ↦ by_health c p worse_ones
      | none ↦ by_thresholds t c p cur_channels prev_channels
    ]
