-- ===== src/Analyzer/Baseline.antt =====
-- app/analyzer.py: the steps behind `analyze` that judge the uncorrectable errors by their growth
-- (`apply_cumulative_error_baseline`) and forgive an old spike (`apply_spike_suppression`);
-- `uncorrectable_percentage` of app/error_counters.py. A percentage is in hundredths. Times are in
-- microseconds; the time since the last spike is an argument.
pub mod Keeps
pub mod Forgives
use docsight.Prelude.{
  second, ℕ, ◌*◌, Bool, true, false, not, ◌&&◌, ◌||◌, Option, none, some, List, [], ◌∷◌, ◌++◌, keep,
  any, ltb, if◌then◌else◌, ◌>>=◌,
}
use docsight.Prelude.Int.{ℤ, pos, negsuc, ◌+ℤ◌, ltb_ℤ}
use docsight.Counters
use docsight.Counters.{ErrorCounterAggregate, aggregate_error_counters}
use docsight.Counters.Growth.{Baseline, ErrorCounterGrowth, calculate_error_counter_growth}
use docsight.Analyzer.{Health, Thresholds, get_or}
use docsight.Analyzer.Summary.{
  SummaryIssue, ds_power, ds_modulation, us_modulation, ds_snr, us_power, uncorr_errors_critical,
  uncorr_errors_high, summary_health, uncorr_part,
}

-- The part of a summary that these steps read and write.
pub record Summary : Type 0 where
  pub ds_uncorr_pct : Option ℤ
  pub health_issues : List SummaryIssue
  pub health : Health
  pub error_baseline : Option ErrorCounterGrowth
  pub is_suppressed : Bool

-- The analysis before.
pub record Previous : Type 0 where
  pub ds_channels : List Counters.Channel
  pub has_schema : Bool
  pub has_provenance : Bool
  pub baseline : Baseline

-- `_uncorr_issue`
abbrev pub uncorr_issue : SummaryIssue → Bool
uncorr_issue uncorr_errors_critical = true
uncorr_issue uncorr_errors_high = true
uncorr_issue _ = false

abbrev pub other_issues : List SummaryIssue → List SummaryIssue
other_issues is = keep (λ i. not (uncorr_issue i)) is

-- `_recalculate_summary_health`
abbrev pub recalculate_summary_health : Summary → Summary
recalculate_summary_health s = record s { health = summary_health s.health_issues }

-- The window in which a spike counts.
abbrev pub spike_window : Thresholds → ℕ
spike_window t = get_or 48 t.spike_expiry_hours * 3600 * second

-- `_recent_spike_active`, by the time since the last spike
pub recent_spike_active : Thresholds → Option ℕ → Bool
recent_spike_active t none = false
recent_spike_active t (some since) = ltb since (spike_window t)

abbrev pub is_nonzero : Option ℤ → Bool
is_nonzero none = false
is_nonzero (some (pos n)) = ltb 0 n
is_nonzero (some (negsuc n)) = true

-- `baseline.get("ds_uncorrectable_recent_delta")`
abbrev pub recent_delta : Summary → Option ℤ
recent_delta s = elim s.error_baseline [
  | none ↦ none
  | some g ↦ g.comparable_uncorrectable.recent_delta
]

-- `apply_spike_suppression`
unfoldable pub apply_spike_suppression : Thresholds → Option ℕ → Summary → Summary
apply_spike_suppression t none s = s
apply_spike_suppression t (some since) s =
    if ltb since (spike_window t)
    then s
    else if is_nonzero (recent_delta s) && any uncorr_issue s.health_issues
    then s
    else recalculate_summary_health (record s {
      ds_uncorr_pct = elim s.ds_uncorr_pct [ none ↦ none | some p ↦ some (pos 0) ];
      health_issues = other_issues s.health_issues;
      is_suppressed = true;
    })

-- `round(u / total * 100, 2)` in floats, by u and the total.
module _ (percent : ℤ → ℤ → ℤ) where
  -- `uncorrectable_percentage`
  unfoldable pub uncorrectable_percentage : Option ℤ → Option ℤ → ℕ → Option ℤ
  uncorrectable_percentage none u least = none
  uncorrectable_percentage (some c) none least = none
  uncorrectable_percentage (some c) (some u) least =
      if ltb_ℤ (c +ℤ u) (pos least) then some (pos 0) else some (percent u (c +ℤ u))

  -- The new summary, by the growth of the counters.
  unfoldable pub judge : Thresholds → ErrorCounterGrowth → Summary → Summary
  judge t g s =
      let pct =
        uncorrectable_percentage g.comparable_correctable.total_delta
          g.comparable_uncorrectable.total_delta (get_or 1000 t.min_codewords) in
      recalculate_summary_health (record s {
        ds_uncorr_pct = pct;
        health_issues = other_issues s.health_issues ++ uncorr_part t pct;
        error_baseline = some g;
      })

  -- `apply_cumulative_error_baseline`; `none` is the error of an infinite counter.
  unfoldable pub apply_cumulative_error_baseline :
      Thresholds → List Counters.Channel → Option Previous → Bool → Summary → Option Summary
  apply_cumulative_error_baseline t channels none recent_spike s = some s
  apply_cumulative_error_baseline t channels (some p) true s = some s
  apply_cumulative_error_baseline t channels (some p) false s = do
    current ← aggregate_error_counters channels
    previous ← aggregate_error_counters p.ds_channels
    let force = not p.has_schema || not p.has_provenance
    some (judge t (calculate_error_counter_growth current previous p.baseline force) s)
