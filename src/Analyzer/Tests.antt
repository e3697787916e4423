-- ===== src/Analyzer/Tests.antt =====
-- app/analyzer.py: runs at a small modem: a good and a hot downstream channel, and an upstream channel
-- of OFDMA with a coarse modulation.
use docsight.Prelude.{
  any, ◌&&◌, not, if◌then◌else◌, ◌≢◌, ◌≤◌, ◌<◌, ◌⊎◌, ◌*◌, ◌/◌, ℕ, ◌≡◌, refl, max, true, false, none,
  some, List, [], ◌∷◌, arith, count_if, length,
}
use docsight.Prelude.Int.{ℤ, pos, negsuc}
use docsight.Values.{codes, int, counter, int_of_text}
use docsight.Docsis.{
  raw_text, parse_qam_order, order_of, clean, strip_right, number_qam, read_digits,
}
use docsight.Docsis.Family.{
  ds, us, sc_qam, unknown, ofdm, ofdma, Carrier, is_docsis31_plus, classify_us, compact, contains,
  starts_with, join, modulation_threshold_key, classify_channel_family,
}
use docsight.Docsis.Family.Directions.{families_by_direction, names_sc_qam, names_ofdma}
use docsight.Counters
use docsight.Counters.{
  Reading, ErrorCounterAggregate, aggregate, aggregate_error_counters, read_each,
}
use docsight.Counters.Growth.{calculate_error_counter_growth}
use docsight.Analyzer.{
  v31, health_from, tolerated, warning, critical, bad, health_rank, PowerRange, power_range,
  ds_power_thresholds, us_power_thresholds, snr_thresholds, channel_health, low, high,
}
use docsight.Analyzer.Fallback.{fallback}
use docsight.Analyzer.Channel.{
  DriverChannel, ds_issues, us_issues, assess_ds_modulation, assess_us_modulation, snr_issue,
  ds_power_issue, us_power_issue,
}
use docsight.Analyzer.Channel.Levels.{power_issue_levels, names_side}
use docsight.Analyzer.Summary.{
  Channel, DriverData, by_version, analyze, ds30_channel, us_channel, us_modulation_part, any_issue,
  ds_power, uncorr_errors_critical, uncorr_part,
}
use docsight.Analyzer.Summary.Worst.{worst, channel_worst, us_reported, summary_rank}
use docsight.Analyzer.Summary.Overall.{analyze_health_is_worst}
use docsight.Analyzer.Baseline.{
  Summary, judge, Previous, other_issues, apply_spike_suppression, uncorr_issue, spike_window,
  is_nonzero, recent_delta, apply_cumulative_error_baseline,
}
use docsight.Analyzer.Baseline.Keeps.{
  post_processing-IsConsistent, IsConsistent, suppression_outcome,
}
use docsight.Analyzer.Baseline.Forgives.{fresh_baseline_forgives}
use docsight.Analyzer.Families.Groups.{family_summary, direction_summary}
use docsight.Analyzer.Families.Driver.{Explained, family_summary-Explained}
use docsight.Analyzer.Families.Counts.{direction_counts, total, counted, has, all_counts}

abbrev calm : DriverChannel
calm = record {
  channel_id = 7;
  power_level = some (pos 5000);
  modulation_text = codes "256QAM";
  kind = [];
  multiplex = [];
  profile_modulation = [];
  profile_modulation_alias = [];
  mse = some (negsuc 36999);
  mer = none;
  snr_is_invalid = false;
}

abbrev hot : DriverChannel
hot = record calm { channel_id = 3; power_level = some (pos 15500) }

abbrev coarse : DriverChannel
coarse = record calm {
  channel_id = 1;
  power_level = some (pos 45000);
  modulation_text = codes "128QAM";
  kind = codes "OFDMA";
  mse = none;
}

abbrev modem : DriverData
modem = by_version (record { ds30 = calm ∷ hot ∷ []; ds31 = []; us30 = []; us31 = coarse ∷ [] })

analyze_health_is_worst_example :
    health_rank (analyze fallback modem (some (pos 0))).health
    ≡ max (worst (λ c. health_rank c.health) (analyze fallback modem (some (pos 0))).ds_channels) (
        max
          (channel_worst us_reported (analyze fallback modem (some (pos 0))).us_channels)
          (worst summary_rank (uncorr_part fallback (some (pos 0)))))
analyze_health_is_worst_example = analyze_health_is_worst fallback modem (some (pos 0))

-- The hot channel is marginal; the upstream one is tolerated, which the summary leaves out.
hot_test : (ds30_channel fallback hot).health ≡ bad warning
unfolding ds30_channel ds_issues health_from ds_power_thresholds ds_power_issue snr_thresholds
    snr_issue assess_ds_modulation modulation_threshold_key parse_qam_order order_of clean
    strip_right number_qam read_digits raw_text
hot_test = refl

coarse_test : (us_channel fallback v31 coarse).health ≡ bad tolerated
unfolding us_channel us_issues health_from us_power_thresholds us_power_issue assess_us_modulation
    classify_channel_family classify_us compact contains starts_with join is_docsis31_plus
    parse_qam_order order_of clean strip_right number_qam read_digits raw_text
coarse_test = refl

left_out_test : us_modulation_part (us_channel fallback v31 coarse ∷ []) ≡ []
unfolding us_modulation_part any_issue us_channel us_issues health_from us_power_thresholds
    us_power_issue assess_us_modulation classify_channel_family classify_us compact contains
    starts_with join is_docsis31_plus parse_qam_order order_of clean strip_right number_qam
    read_digits raw_text
left_out_test = refl

abbrev channels : List Channel
channels = ds30_channel fallback hot ∷ ds30_channel fallback calm ∷ []

family_summary-Explained_example :
    Explained channels
      (family_summary ds sc_qam channels).health
      (family_summary ds sc_qam channels).health_cause
      (family_summary ds sc_qam channels).health_driver
family_summary-Explained_example = family_summary-Explained ds sc_qam channels

direction_counts_example :
    (total (λ s. s.count) (direction_summary ds channels).families ≡ length channels)
    × (total (λ s. counted (bad warning) s.counts) (direction_summary ds channels).families
        ≡ count_if (has (bad warning)) channels)
    × (total (λ s. all_counts s.counts) (direction_summary ds channels).families ≡ length channels)
direction_counts_example = direction_counts ds channels (bad warning)

abbrev range_256 : PowerRange
range_256 = power_range (negsuc 3999, pos 13000) (negsuc 5999, pos 15000) (negsuc 7999, pos 16000)

power_issue_levels_example :
    (health_rank (channel_health (ds_power_issue range_256 (pos 15500))) ≡ 2)
    × (health_rank (channel_health (us_power_issue range_256 (pos 15500))) ≡ 2)
    × (names_side low (us_power_issue range_256 (pos 15500)) ≡ false)
    × (names_side high (us_power_issue range_256 (pos 15500)) ≡ true)
power_issue_levels_example = power_issue_levels range_256 (pos 15500) (omega arith)

abbrev upstream_31 : Carrier
upstream_31 = record {
  kind = [];
  channel_type = [];
  multiplex = codes "atdma";
  modulation = [];
  profile_modulation = [];
  profile_modulation_alias = [];
  docsis_version = codes "3.1";
}

families_by_direction_example :
    (classify_channel_family ds upstream_31 ≢ ofdma)
    × (classify_channel_family us upstream_31 ≢ ofdm)
    × ((is_docsis31_plus upstream_31.docsis_version ≡ false)
        ⊎ ((classify_channel_family ds upstream_31 ≢ unknown)
            × (classify_channel_family us upstream_31 ≡ (
                if names_sc_qam upstream_31 && not (names_ofdma upstream_31)
                then sc_qam
                else ofdma))))
families_by_direction_example = families_by_direction upstream_31

abbrev spiked : Summary
spiked = record {
  ds_uncorr_pct = some (pos 420);
  health_issues = ds_power warning ∷ uncorr_errors_critical ∷ [];
  health = bad critical;
  error_baseline = none;
  is_suppressed = false;
}

-- A percentage of whole numbers, not rounded.
abbrev whole_percent : ℤ → ℤ → ℤ
whole_percent (pos u) (pos n) = pos (u * 10000 / n)
whole_percent (pos u) (negsuc n) = pos 0
whole_percent (negsuc u) n = pos 0

abbrev counter_channel : ℕ → ℕ → Counters.Channel
counter_channel corr uncorr = record {
  docsis_version = "3.0";
  channel_family = "sc_qam";
  channel_id = "1";
  frequency = "602 MHz";
  correctable_errors = int (pos corr);
  uncorrectable_errors = int (pos uncorr);
}

abbrev before : Previous
before = record {
  ds_channels = counter_channel 5000 3000 ∷ [];
  has_schema = false;
  has_provenance = true;
  baseline = record { corr = none; uncorr = none; raw_uncorr = none; channel_keys = none };
}

suppression_outcome_example :
    ((apply_spike_suppression fallback (some 172800000000) spiked ≡ spiked)
      × ((172800000000 < spike_window fallback)
          ⊎ ((is_nonzero (recent_delta spiked) ≡ true)
              × (any uncorr_issue spiked.health_issues ≡ true))))
    ⊎ ((spike_window fallback ≤ 172800000000)
        × ((is_nonzero (recent_delta spiked) ≡ false)
            ⊎ (any uncorr_issue spiked.health_issues ≡ false))
        × ((apply_spike_suppression fallback (some 172800000000) spiked).is_suppressed ≡ true)
        × (any uncorr_issue
              (apply_spike_suppression fallback (some 172800000000) spiked).health_issues
            ≡ false)
        × (apply_spike_suppression fallback
              (some 172800000000)
              (apply_spike_suppression fallback (some 172800000000) spiked)
            ≡ apply_spike_suppression fallback (some 172800000000) spiked))
suppression_outcome_example = suppression_outcome fallback 172800000000 spiked

abbrev read_channel : ℕ → ℕ → Reading
read_channel corr uncorr = (counter_channel corr uncorr, some (pos corr), some (pos uncorr))

abbrev current : ErrorCounterAggregate
current = aggregate (read_channel 10 2 ∷ [])

abbrev previous : ErrorCounterAggregate
previous = aggregate (read_channel 5000 3000 ∷ [])

current_test : aggregate_error_counters (counter_channel 10 2 ∷ []) ≡ some current
unfolding aggregate_error_counters read_each counter int_of_text
current_test = refl

previous_test : aggregate_error_counters (counter_channel 5000 3000 ∷ []) ≡ some previous
unfolding aggregate_error_counters read_each counter int_of_text
previous_test = refl

abbrev judged : Summary
judged =
    judge whole_percent fallback
      (calculate_error_counter_growth current previous before.baseline true) spiked

judged_test :
    apply_cumulative_error_baseline whole_percent fallback
      (counter_channel 10 2 ∷ [])
      (some before)
      false
      spiked
    ≡ some judged
unfolding apply_cumulative_error_baseline
judged_test = rw (current_test, previous_test) refl

fresh_baseline_forgives_example : any uncorr_issue judged.health_issues ≡ false
fresh_baseline_forgives_example =
    fresh_baseline_forgives whole_percent fallback (counter_channel 10 2 ∷ []) before spiked
      (omega arith, refl, refl) current_test previous_test refl judged_test

spiked-IsConsistent : IsConsistent spiked
unfolding health_from
spiked-IsConsistent = refl

post_processing-IsConsistent_example :
    (other_issues (apply_spike_suppression fallback (some 172800000000) judged).health_issues
      ≡ ds_power warning ∷ [])
    × IsConsistent (apply_spike_suppression fallback (some 172800000000) judged)
post_processing-IsConsistent_example =
    post_processing-IsConsistent whole_percent fallback (counter_channel 10 2 ∷ []) (some before)
      false (some 172800000000) spiked spiked-IsConsistent judged_test
