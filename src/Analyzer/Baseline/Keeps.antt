-- ===== src/Analyzer/Baseline/Keeps.antt =====
-- app/analyzer.py: what the two steps keep of a summary.
use mathlib.Core.List.{append-nil}
use docsight.Prelude.{
  subst, ◌<◌, ◌≤◌, ℕ, ◌≡◌, refl, sym, ap, ◌∙◌, Bool, true, false, not, ◌&&◌, ◌||◌, Option, none,
  some, List, [], ◌∷◌, ◌++◌, any, ltb, arith, Bool-cases, Option-cases, inl, inr, ◌⊎◌, keep-append,
}
use docsight.Prelude.Int.{ℤ, pos}
use docsight.Counters
use docsight.Analyzer.{Thresholds, get_or}
use docsight.Analyzer.Summary.{SummaryIssue, summary_health, uncorr_part}
use docsight.Counters.{aggregate_error_counters}
use docsight.Counters.Growth.{ErrorCounterGrowth, calculate_error_counter_growth}
use docsight.Analyzer.Baseline.{
  Summary, Previous, uncorr_issue, other_issues, recalculate_summary_health, spike_window,
  recent_delta, is_nonzero, apply_spike_suppression, judge, apply_cumulative_error_baseline,
  uncorrectable_percentage,
}

keep_twice : (is : List SummaryIssue) → other_issues (other_issues is) ≡ other_issues is
keep_twice [] = refl
keep_twice (i ∷ is) = let rest = keep_twice is in ground (arith, rest)

uncorr_part_only : (t : Thresholds) (pct : Option ℤ) → other_issues (uncorr_part t pct) ≡ []
unfolding uncorr_part
uncorr_part_only t pct = ground arith

pub no_uncorr : (is : List SummaryIssue) → any uncorr_issue (other_issues is) ≡ false
no_uncorr [] = refl
no_uncorr (i ∷ is) = let rest = no_uncorr is in ground (arith, rest)

-- A summary whose health is that of its issues.
abbrev pub IsConsistent : Summary → Type 0
IsConsistent s = s.health ≡ summary_health s.health_issues

-- Between two summaries: the other issues stand, and a consistent one stays so.
abbrev Keeps : Summary → Summary → Type 0
Keeps s s' =
    (other_issues s'.health_issues ≡ other_issues s.health_issues)
    × (IsConsistent s → IsConsistent s')

suppression-Keeps :
    (t : Thresholds) (since : Option ℕ) (s : Summary) → Keeps s (apply_spike_suppression t since s)
unfolding apply_spike_suppression
suppression-Keeps t none s = (refl, λ c. c)
suppression-Keeps t (some since) s = elim (Bool-cases (ltb since (spike_window t))) [
  | inl e ↦ rw e (refl, λ c. c)
  | inr e ↦ elim (Bool-cases (is_nonzero (recent_delta s) && any uncorr_issue s.health_issues)) [
    | inl f ↦ rw (e, f) (refl, λ c. c)
    | inr f ↦ rw (e, f) (keep_twice s.health_issues, λ c. refl)
  ]
]

pub some_injective : {a b : Summary} → some a ≡ some b → a ≡ b
some_injective {a} h = ap (λ o. elim o [ none ↦ a | some x ↦ x ]) h

module _ (percent : ℤ → ℤ → ℤ) where
  judge-Keeps :
      (t : Thresholds) (g : ErrorCounterGrowth) (s : Summary) → Keeps s (judge percent t g s)
  unfolding judge
  judge-Keeps t g s =
      let pct =
        uncorrectable_percentage percent g.comparable_correctable.total_delta
          g.comparable_uncorrectable.total_delta (get_or 1000 t.min_codewords) in
      (
        keep-append (λ i. not (uncorr_issue i)) (other_issues s.health_issues) (uncorr_part t pct)
            ∙ ap (λ xs. other_issues (other_issues s.health_issues) ++ xs) (uncorr_part_only t pct)
            ∙ append-nil (other_issues (other_issues s.health_issues))
            ∙ keep_twice s.health_issues,
        λ c. refl,
      )

  baseline-Keeps :
      (t : Thresholds) (chs : List Counters.Channel) (p : Option Previous) (spike : Bool)
      (s : Summary) {s' : Summary}
      → apply_cumulative_error_baseline percent t chs p spike s ≡ some s'
      → Keeps s s'
  unfolding apply_cumulative_error_baseline
  baseline-Keeps t chs none spike s h = subst (Keeps s) (some_injective h) (refl, λ c. c)
  baseline-Keeps t chs (some p) true s h = subst (Keeps s) (some_injective h) (refl, λ c. c)
  baseline-Keeps t chs (some p) false s {s'} h =
      elim (Option-cases (aggregate_error_counters chs)) [
        | inl e ↦ ground (arith, e)
        | inr (current, e) ↦ elim (Option-cases (aggregate_error_counters p.ds_channels)) [
          | inl f ↦ ground (arith, e, f)
          | inr (previous, f) ↦
              let g =
                calculate_error_counter_growth current previous p.baseline
                  (not p.has_schema || not p.has_provenance) in
              let same : judge percent t g s ≡ s' = some_injective (sym (rw (e, f) refl) ∙ h) in
              subst (Keeps s) same (judge-Keeps t g s)
        ]
      ]

  -- Both steps behind the analysis, taken one after the other on a summary whose health is that of its
  -- issues, leave the issues that are not about uncorrectable errors as they are, and the health is again
  -- that of the issues.
  pub post_processing-IsConsistent :
      (t : Thresholds) (chs : List Counters.Channel) (p : Option Previous) (spike : Bool)
      (since : Option ℕ) (s : Summary) {s' : Summary}
      → IsConsistent s
      → apply_cumulative_error_baseline percent t chs p spike s ≡ some s'
      → (other_issues (apply_spike_suppression t since s').health_issues
          ≡ other_issues s.health_issues)
        × IsConsistent (apply_spike_suppression t since s')
  post_processing-IsConsistent t chs p spike since s {s'} c h =
      let a = baseline-Keeps t chs p spike s h in
      let b = suppression-Keeps t since s' in (b.0 ∙ a.0, b.1 (a.1 c))

abbrev suppressed : Summary → Summary
suppressed s = recalculate_summary_health (record s {
  ds_uncorr_pct = elim s.ds_uncorr_pct [ none ↦ none | some p ↦ some (pos 0) ];
  health_issues = other_issues s.health_issues;
  is_suppressed = true;
})

old_spike :
    (t : Thresholds) (since : ℕ) (s : Summary)
    → ltb since (spike_window t) ≡ false
    → (is_nonzero (recent_delta s) && any uncorr_issue s.health_issues) ≡ false
    → apply_spike_suppression t (some since) s ≡ suppressed s
unfolding apply_spike_suppression
old_spike t since s e f = rw (e, f) refl

recent_spike :
    (t : Thresholds) (since : ℕ) (s : Summary)
    → ltb since (spike_window t) ≡ true
    → apply_spike_suppression t (some since) s ≡ s
unfolding apply_spike_suppression
recent_spike t since s e = rw e refl

recent_growth :
    (t : Thresholds) (since : ℕ) (s : Summary)
    → ltb since (spike_window t) ≡ false
    → (is_nonzero (recent_delta s) && any uncorr_issue s.health_issues) ≡ true
    → apply_spike_suppression t (some since) s ≡ s
unfolding apply_spike_suppression
recent_growth t since s e f = rw (e, f) refl

suppressed_twice : (s : Summary) → suppressed (suppressed s) ≡ suppressed s
suppressed_twice s = elim (Option-cases s.ds_uncorr_pct) [
  | inl e ↦ rw (keep_twice s.health_issues, e) refl
  | inr (p, e) ↦ rw (keep_twice s.health_issues, e) refl
]

and_false : (a b : Bool) → b ≡ false → (a && b) ≡ false
and_false a b h = ground (arith, h)

no_block : (a b : Bool) → (a && b) ≡ false → (a ≡ false) ⊎ (b ≡ false)
no_block false b h = inl refl
no_block true b h = inr h

-- While the last spike is in its window, and when growth was seen lately and there is an issue of
-- uncorrectable errors, the summary stands as it is. Only in the other case, an old spike with no
-- recent growth or no such issue, is the summary marked as suppressed: no issue of uncorrectable errors
-- is left in it and a second suppression changes nothing.
pub suppression_outcome :
    (t : Thresholds) (since : ℕ) (s : Summary)
    → ((apply_spike_suppression t (some since) s ≡ s)
        × ((since < spike_window t)
            ⊎ ((is_nonzero (recent_delta s) ≡ true) × (any uncorr_issue s.health_issues ≡ true))))
      ⊎ ((spike_window t ≤ since)
          × ((is_nonzero (recent_delta s) ≡ false) ⊎ (any uncorr_issue s.health_issues ≡ false))
          × ((apply_spike_suppression t (some since) s).is_suppressed ≡ true)
          × (any uncorr_issue (apply_spike_suppression t (some since) s).health_issues ≡ false)
          × (apply_spike_suppression t (some since) (apply_spike_suppression t (some since) s)
              ≡ apply_spike_suppression t (some since) s))
suppression_outcome t since s = elim (Bool-cases (ltb since (spike_window t))) [
  | inl e ↦ inl (recent_spike t since s e, inl (ground (arith, e)))
  | inr e ↦ elim (Bool-cases (is_nonzero (recent_delta s) && any uncorr_issue s.health_issues)) [
    | inl f ↦ inl (recent_growth t since s e f, inr (ground (arith, f), ground (arith, f)))
    | inr f ↦
        let step = old_spike t since s e f in
        let again =
          old_spike t since (suppressed s) e
            (and_false (is_nonzero (recent_delta s)) _ (no_uncorr s.health_issues)) in
        inr (
          ground (arith, e),
          no_block (is_nonzero (recent_delta s)) _ f,
          ap (λ x. x.is_suppressed) step,
          ap (λ x. any uncorr_issue x.health_issues) step ∙ no_uncorr s.health_issues,
          ap (apply_spike_suppression t (some since)) step ∙ again ∙ suppressed_twice s ∙ sym step,
        )
  ]
]
