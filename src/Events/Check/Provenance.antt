-- ===== src/Events/Check/Provenance.antt =====
-- app/event_detector.py: a poll that brings the analysis of the one before.
use mathlib.Core.List.{append-nil}
use docsight.Prelude.{
  ℕ, ◌≡◌, refl, ap, ◌∙◌, inl, inr, String, Bool, true, false, ◌&&◌, Option, none, some, List, [],
  ◌∷◌, ◌++◌, count_if, ◌==◌, arith, Option-cases,
}
use docsight.Prelude.Dict.{Dict, lookup}
use docsight.Prelude.Int.{ℤ}
use docsight.Docsis.{same_codes}
use docsight.Docsis.Family.{Direction, ds, us}
use docsight.Analyzer.{Thresholds}
use docsight.Events.{check_health}
use docsight.Events.Restart
use docsight.Events.Restart.{
  by_id, by_id_from, overlap, is_declining, restart_of, check_restart, check_errors, has_declined,
  is_valid, totals_steady,
}
use docsight.Events.Channels.{
  SnapshotChannel, Snapshot, channel_map, channel_change, check_channels,
}
use docsight.Events.Modulation.{entry_for, changed, check_modulation}
use docsight.Events.Snr.{same_ℤ, check_snr}
use docsight.Events.Check.Maps.{FoundIn, found_self, map_from-IsMap, by_id_from-IsMap}
use docsight.Events.Check.{
  Analysis, Finding, EventDetector, health_change, found, annotate_event_details, power_shift,
  signal_findings, check,
}

same_self : (s : List ℕ) → same_codes s s ≡ true
same_self [] = refl
same_self (c ∷ s) = let ih = same_self s in ground (arith, ih)

-- No modulation differs from itself.
changed_self :
    (dir : Direction) (d es : Dict SnapshotChannel) → FoundIn d es → changed dir es d ≡ []
unfolding changed
changed_self dir d [] f = refl
changed_self dir d ((k, c) ∷ es) f =
    ap (λ o. entry_for dir c o (changed dir es d)) f.0
    ∙ rw (same_self c.carrier.modulation) (changed_self dir d es f.1)

steady_modulation : (s : Snapshot) → check_modulation s s ≡ []
unfolding check_modulation
steady_modulation s =
    let a =
      changed_self ds (channel_map s.ds_channels) (channel_map s.ds_channels)
        (found_self _ (map_from-IsMap s.ds_channels [] tt)) in
    let b =
      changed_self us (channel_map s.us_channels) (channel_map s.us_channels)
        (found_self _ (map_from-IsMap s.us_channels [] tt)) in
    rw (a, b) refl

eq_self : (n : ℕ) → (n == n) ≡ true
eq_self n = ground arith

steady_channels : (s : Snapshot) → check_channels s s ≡ []
unfolding check_channels channel_change
steady_channels s = rw (eq_self s.ds_total, eq_self s.us_total) refl

-- A counter has not fallen below itself.
declined_self : (o : Option ℕ) → has_declined o o ≡ false
declined_self none = refl
declined_self (some n) = ground arith

calm_pair : (c : Restart.Channel) → (is_valid (c, c) && is_declining (c, c)) ≡ false
unfolding is_declining
calm_pair c =
    let a = declined_self c.correctable_errors in
    let b = declined_self c.uncorrectable_errors in ground (arith, a, b)

overlap_here :
    (k : String) (c : Restart.Channel) (es d : Dict Restart.Channel)
    → lookup k d ≡ some c
    → overlap ((k, c) ∷ es) d ≡ (c, c) ∷ overlap es d
unfolding overlap
overlap_here k c es d e = ground (arith, e)

calm_pairs :
    (d es : Dict Restart.Channel)
    → FoundIn d es
    → count_if (λ pc. is_valid pc && is_declining pc) (overlap es d) ≡ 0
unfolding overlap
calm_pairs d [] f = refl
calm_pairs d ((k, c) ∷ es) f =
    ap (count_if (λ pc. is_valid pc && is_declining pc)) (overlap_here k c es d f.0)
    ∙ rw (calm_pair c) (calm_pairs d es f.1)

no_restart :
    (pairs : List (Restart.Channel × Restart.Channel)) (s : Restart.Summary)
    → count_if (λ pc. is_valid pc && is_declining pc) pairs ≡ 0
    → restart_of pairs s s ≡ none
unfolding restart_of
no_restart pairs s h = ground (arith, h)

steady_counters :
    (chs : List Restart.Channel) (s : Restart.Summary) → check_restart chs s chs s ≡ none
unfolding check_restart
steady_counters chs s =
    let calm =
      calm_pairs (by_id chs) (by_id chs) (found_self (by_id chs) (by_id_from-IsMap chs [] tt)) in
    let none_there = no_restart (overlap (by_id chs) (by_id chs)) s calm in
    ground (arith, none_there)

steady_errors : (s : Restart.Summary) → check_errors s s ≡ none
unfolding check_errors
steady_errors s = elim (Option-cases s.ds_uncorrectable_errors) [
  | inl e ↦ ground (arith, e)
  | inr (n, e) ↦ ground (arith, e)
]

steady_snr :
    (t : Thresholds) (o : Option ℤ) (chs : List SnapshotChannel) → check_snr t o o chs chs ≡ none
unfolding check_snr
steady_snr t none chs = refl
steady_snr t (some n) chs = let e : same_ℤ n n ≡ true = ground arith in rw e refl

module _ (shifted : ℤ → ℤ → Bool) where
  steady_power :
      (dir : Direction) (o : Option ℤ)
      → ((n : ℤ) → shifted n n ≡ false)
      → power_shift shifted dir o o ≡ []
  steady_power dir none h = refl
  steady_power dir (some n) h = rw (h n) refl

  steady_signal :
      (t : Thresholds) (a : Analysis)
      → ((n : ℤ) → shifted n n ≡ false)
      → signal_findings shifted t a a ≡ []
  unfolding signal_findings
  steady_signal t a h =
      rw
        (
          steady_power ds a.ds_power_avg h,
          steady_power us a.us_power_avg h,
          steady_snr t a.ds_snr_min a.snapshot.ds_channels,
          steady_channels a.snapshot,
          steady_modulation a.snapshot,
          steady_counters a.counters a.summary,
          steady_errors a.summary,
        )
        refl

  only_health :
      (t : Thresholds) (a : Analysis)
      → ((n : ℤ) → shifted n n ≡ false)
      → (fs : List Finding) (i j : Option ℕ)
      → annotate_event_details (fs ++ signal_findings shifted t a a) j i
        ≡ annotate_event_details fs j i
  only_health t a h fs i j =
      ap (λ gs. annotate_event_details gs j i)
        (ap (λ gs. fs ++ gs) (steady_signal t a h) ∙ append-nil fs)

  -- When a power is no shift from itself, a poll that brings the same analysis as the poll before it has
  -- no event but the confirmation of a pending health, and that event names the new snapshot and, as the
  -- previous one, the snapshot of the poll before; so also after the first poll of a detector.
  pub unchanged_poll :
      (t : Thresholds) (d : EventDetector) (a : Analysis) (i j : Option ℕ)
      → ((n : ℤ) → shifted n n ≡ false)
      → (check shifted t (check shifted t d a i).0 a j).1
        ≡ annotate_event_details
            (found health_change
              (check_health (check shifted t d a i).0.detector a.health a.health).1)
            j
            i
  unfolding check
  unchanged_poll t d a i j h = elim (Option-cases d.prev) [
    | inl e ↦
        rw e (
          only_health t a h (found health_change (check_health d.detector a.health a.health).1) i j)
    | inr (p, e) ↦ rw e (
        only_health t a h
          (found health_change
            (check_health (check_health d.detector a.health p.health).0 a.health a.health).1)
          i j)
  ]
