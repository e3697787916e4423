-- ===== src/Analyzer/Baseline/Forgives.antt =====
-- app/analyzer.py: counters from before a fresh baseline do not count as trouble.
use docsight.Prelude.{
  ◌≤◌, ◌≡◌, refl, sym, ◌∙◌, subst, Bool, true, false, not, ◌||◌, Option, none, some, List, [], any,
  arith,
}
use mathlib.Core.List.{append-nil}
use docsight.Prelude.Int.{ℤ, pos, ltb_ℤ, ◌+ℤ◌}
use docsight.Counters
use docsight.Counters.{aggregate_error_counters, ErrorCounterAggregate}
use docsight.Counters.Growth.{
  Baseline, ErrorCounterGrowth, calculate_error_counter_growth, comparable_reset, growth,
  zero_if_known,
}
use docsight.Analyzer.{Thresholds, get_or}
use docsight.Analyzer.Summary.{uncorr_part}
use docsight.Analyzer.Baseline.{
  Summary, Previous, uncorr_issue, other_issues, uncorrectable_percentage, judge,
  apply_cumulative_error_baseline,
}
use docsight.Analyzer.Baseline.Keeps.{no_uncorr, some_injective}

-- Thresholds at which no errors are no issue.
abbrev pub Sensible : Thresholds → Type 0
Sensible t =
    (1 ≤ get_or 1000 t.min_codewords)
    × (ltb_ℤ (pos 0) (get_or (pos 300) t.uncorr_critical) ≡ true)
    × (ltb_ℤ (pos 0) (get_or (pos 100) t.uncorr_warning) ≡ true)

-- The growth that a fresh baseline gives.
abbrev IsFresh : ErrorCounterGrowth → Type 0
IsFresh g =
    (a b : Option ℤ) × (g.comparable_correctable.total_delta ≡ zero_if_known a)
    × (g.comparable_uncorrectable.total_delta ≡ zero_if_known b)

reset-IsFresh :
    (current previous : ErrorCounterAggregate) (b : Baseline) (force : Bool)
    → (force || comparable_reset current previous b) ≡ true
    → IsFresh (calculate_error_counter_growth current previous b force)
unfolding calculate_error_counter_growth growth
reset-IsFresh current previous b force h =
    (current.comparable_correctable, current.comparable_uncorrectable, rw h refl, rw h refl)

module _ (percent : ℤ → ℤ → ℤ) where
  quiet_percentage :
      (t : Thresholds) (a b : Option ℤ)
      → Sensible t
      → uncorr_part t (
          uncorrectable_percentage percent
            (zero_if_known a)
            (zero_if_known b)
            (get_or 1000 t.min_codewords))
        ≡ []
  unfolding uncorr_part uncorrectable_percentage ◌+ℤ◌
  quiet_percentage t none b h = refl
  quiet_percentage t (some a) none h = refl
  quiet_percentage t (some a) (some b) h = ground (arith, h)

  judge-quiet :
      (t : Thresholds) (g : ErrorCounterGrowth) (s : Summary)
      → Sensible t
      → IsFresh g
      → any uncorr_issue (judge percent t g s).health_issues ≡ false
  unfolding judge
  judge-quiet t g s h f =
      rw (f.2, f.3, quiet_percentage t f.0 f.1 h, append-nil (other_issues s.health_issues))
        (no_uncorr s.health_issues)

  -- With thresholds at which no errors are no issue, a summary that is judged against a snapshot of an
  -- older schema, or after a reset or a change of the channels, has no issue of uncorrectable errors,
  -- whatever the counters had reached before.
  pub fresh_baseline_forgives :
      (t : Thresholds) (chs : List Counters.Channel) (p : Previous) (s : Summary) {s' : Summary}
      {current previous : ErrorCounterAggregate}
      → Sensible t
      → aggregate_error_counters chs ≡ some current
      → aggregate_error_counters p.ds_channels ≡ some previous
      → ((not p.has_schema || not p.has_provenance) || comparable_reset current previous p.baseline)
        ≡ true
      → apply_cumulative_error_baseline percent t chs (some p) false s ≡ some s'
      → any uncorr_issue s'.health_issues ≡ false
  unfolding apply_cumulative_error_baseline
  fresh_baseline_forgives t chs p s {s'} {current} {previous} h e f r k =
      let force = not p.has_schema || not p.has_provenance in
      let g = calculate_error_counter_growth current previous p.baseline force in
      let same : judge percent t g s ≡ s' = some_injective (sym (rw (e, f) refl) ∙ k) in
      subst (λ x. any uncorr_issue x.health_issues ≡ false) same
        (judge-quiet t g s h (reset-IsFresh current previous p.baseline force r))
