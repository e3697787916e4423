-- ===== src/Analyzer/Summary/Overall.antt =====
-- app/analyzer.py, `analyze`: the overall health against the health of the channels.
use docsight.Prelude.Int.{ℤ, ltb_ℤ}
use docsight.Prelude.{
  leb, All-append, ◌≡◌, refl, ◌∙◌, max, Bool, true, false, Option, none, some, List, [], ◌∷◌, ◌++◌,
  map, if◌then◌else◌, arith, All, Bool-cases, inl, inr,
}
use docsight.Analyzer.{
  Version, v30, v31, Level, Health, good, bad, Issue, level_of, rank, health_rank, Thresholds,
  PowerRange,
}
use docsight.Analyzer.Channel.{
  DriverChannel, us_issues, us_power_issue, issues_of, modulation_issue, assess_us_modulation,
}
use docsight.Analyzer.Summary.{
  Channel, SummaryIssue, is_power, is_snr, is_modulation, metric_part, us_power_part,
  us_modulation_part, uncorr_part, summary_issues, summary_level, summary_health, ds_power,
  ds_modulation, ds_snr, us_modulation, sort_channels, insert_channel, analyze, normalized,
  DriverData, ds30_channel, ds31_channel, us_channel,
}
use docsight.Analyzer.Summary.Worst.{
  worst, worst-append, weight, channel_worst, part_rank, summary_rank, reported_rank, us_power_rank,
  us_reported, reported_modulation, us_modulation_tests, channels_ds, channels_us, IsUpstream,
  health_from-worst,
}

metric_rank :
    (mk : Level → SummaryIssue) (p : Issue → Bool) (cs : List Channel)
    → ((l : Level) → summary_level (mk l) ≡ l)
    → worst summary_rank (metric_part mk p cs) ≡ channel_worst (weight p) cs
metric_rank mk p cs k = reported_rank mk _ k ∙ part_rank p cs

us_modulation_rank :
    (cs : List Channel)
    → worst summary_rank (us_modulation_part cs) ≡ channel_worst reported_modulation cs
unfolding us_modulation_part
us_modulation_rank cs = reported_rank us_modulation _ (λ l. refl) ∙ us_modulation_tests cs

worst_of_parts :
    (a b c d e f : List SummaryIssue)
    → worst summary_rank (a ++ (b ++ (c ++ (d ++ (e ++ f)))))
      ≡ max (worst summary_rank a) (
          max (worst summary_rank b) (
            max
              (worst summary_rank c)
              (max (worst summary_rank d) (max (worst summary_rank e) (worst summary_rank f)))))
worst_of_parts a b c d e f =
    rw
      (
        worst-append summary_rank a (b ++ (c ++ (d ++ (e ++ f)))),
        worst-append summary_rank b (c ++ (d ++ (e ++ f))),
        worst-append summary_rank c (d ++ (e ++ f)),
        worst-append summary_rank d (e ++ f),
        worst-append summary_rank e f,
      )
      refl

-- The rank of the issues of a summary, by where they come from.
summary_issues-rank :
    (t : Thresholds) (dss uss : List Channel) (pct : Option ℤ)
    → All (λ c. All IsUpstream c.issues) uss
    → health_rank (summary_health (summary_issues t dss uss pct))
      ≡ max
          (channel_worst (λ i. rank (level_of i)) dss)
          (max (channel_worst us_reported uss) (worst summary_rank (uncorr_part t pct)))
unfolding summary_issues
summary_issues-rank t dss uss pct h =
    let total = health_from-worst summary_level (summary_issues t dss uss pct) in
    let parts =
      worst_of_parts (metric_part ds_power is_power dss)
        (metric_part ds_modulation is_modulation dss) (us_power_part uss) (us_modulation_part uss)
        (metric_part ds_snr is_snr dss) (uncorr_part t pct) in
    let a = metric_rank ds_power is_power dss (λ l. refl) in
    let b = metric_rank ds_modulation is_modulation dss (λ l. refl) in
    let c = us_power_rank uss in
    let d = us_modulation_rank uss in
    let e = metric_rank ds_snr is_snr dss (λ l. refl) in
    omega (arith, total, parts, a, b, c, d, e, channels_ds dss, channels_us uss h)

-- The channels of an analysis: their health is that of their issues.
abbrev IsAssessed : Channel → Type 0
IsAssessed c = health_rank c.health ≡ worst (λ i. rank (level_of i)) c.issues

assessed_worst :
    (cs : List Channel)
    → All IsAssessed cs
    → worst (λ c. health_rank c.health) cs ≡ channel_worst (λ i. rank (level_of i)) cs
assessed_worst [] h = refl
assessed_worst (c ∷ cs) h = omega (arith, h.0, assessed_worst cs h.1)

All-insert_channel {ℓ} :
    (P : Channel → Type ℓ) (c : Channel) (cs : List Channel)
    → P c
    → All P cs
    → All P (insert_channel c cs)
unfolding insert_channel
All-insert_channel P c [] h k = (h, tt)
All-insert_channel P c (d ∷ cs) h k = elim (Bool-cases (leb c.channel_id d.channel_id)) [
  | inl e ↦ rw e (h, k)
  | inr e ↦ rw e (k.0, All-insert_channel P c cs h k.1)
]

All-sort_channels {ℓ} :
    (P : Channel → Type ℓ) (cs : List Channel) → All P cs → All P (sort_channels cs)
unfolding sort_channels
All-sort_channels P [] h = tt
All-sort_channels P (c ∷ cs) h =
    All-insert_channel P c (sort_channels cs) h.0 (All-sort_channels P cs h.1)

All_of_map {ℓ} :
    (P : Channel → Type ℓ) (f : DriverChannel → Channel) (xs : List DriverChannel)
    → ((x : DriverChannel) → P (f x))
    → All P (map f xs)
All_of_map P f [] k = tt
All_of_map P f (x ∷ xs) k = (k x, All_of_map P f xs k)

ds30-IsAssessed : (t : Thresholds) (ch : DriverChannel) → IsAssessed (ds30_channel t ch)
unfolding ds30_channel
ds30-IsAssessed t ch = health_from-worst level_of _

ds31-IsAssessed : (t : Thresholds) (ch : DriverChannel) → IsAssessed (ds31_channel t ch)
unfolding ds31_channel
ds31-IsAssessed t ch = health_from-worst level_of _

All-if {ℓ} :
    (P : Issue → Type ℓ) (b : Bool) (xs ys : List Issue)
    → All P xs
    → All P ys
    → All P (if b then xs else ys)
All-if P true xs ys h k = h
All-if P false xs ys h k = k

us_power_issue-IsUpstream : (r : PowerRange) (p : ℤ) → All IsUpstream (us_power_issue r p)
unfolding us_power_issue
us_power_issue-IsUpstream r p =
    All-if IsUpstream (ltb_ℤ p r.crit_min) _ _ (tt, tt)
      (All-if IsUpstream (ltb_ℤ r.crit_max p) _ _ (tt, tt)
        (All-if IsUpstream (ltb_ℤ p r.warn_min) _ _ (tt, tt)
          (All-if IsUpstream (ltb_ℤ r.warn_max p) _ _ (tt, tt)
            (All-if IsUpstream (ltb_ℤ p r.good_min) _ _ (tt, tt)
              (All-if IsUpstream (ltb_ℤ r.good_max p) _ _ (tt, tt) tt)))))

issues_of-IsUpstream :
    (o : Option ℤ) (r : PowerRange) → All IsUpstream (issues_of o (us_power_issue r))
issues_of-IsUpstream none r = tt
issues_of-IsUpstream (some p) r = us_power_issue-IsUpstream r p

modulation_issue-IsUpstream : (h : Health) → All IsUpstream (modulation_issue h)
modulation_issue-IsUpstream good = tt
modulation_issue-IsUpstream (bad l) = (tt, tt)

us-IsUpstream :
    (t : Thresholds) (ver : Version) (ch : DriverChannel)
    → All IsUpstream (us_channel t ver ch).issues
unfolding us_channel us_issues
us-IsUpstream t ver ch =
    All-append IsUpstream (issues_of ch.power_level (us_power_issue _))
      (modulation_issue (assess_us_modulation t ch ver)) (issues_of-IsUpstream ch.power_level _)
      (modulation_issue-IsUpstream (assess_us_modulation t ch ver))

-- The health of an analysis is the worst of three: the worst health of a downstream channel, the worst
-- issue of an upstream channel, tolerated modulations left out, and the level of the uncorrectable
-- errors. So it is never better than a downstream channel, nor than an upstream channel with any issue
-- but a tolerated modulation, and never worse than they all.
pub analyze_health_is_worst :
    (t : Thresholds) (x : DriverData) (pct : Option ℤ)
    → health_rank (analyze t x pct).health
      ≡ max (worst (λ c. health_rank c.health) (analyze t x pct).ds_channels) (
          max
            (channel_worst us_reported (analyze t x pct).us_channels)
            (worst summary_rank (uncorr_part t pct)))
unfolding analyze
analyze_health_is_worst t x pct =
    let d = normalized x in
    let dss = sort_channels (map (ds30_channel t) d.ds30 ++ map (ds31_channel t) d.ds31) in
    let uss = sort_channels (map (us_channel t v30) d.us30 ++ map (us_channel t v31) d.us31) in
    let assessed : All IsAssessed dss = All-sort_channels IsAssessed _ (
      All-append IsAssessed (map (ds30_channel t) d.ds30) (map (ds31_channel t) d.ds31)
        (All_of_map IsAssessed (ds30_channel t) d.ds30 (ds30-IsAssessed t))
        (All_of_map IsAssessed (ds31_channel t) d.ds31 (ds31-IsAssessed t))) in
    let upstream : All (λ c. All IsUpstream c.issues) uss =
      All-sort_channels (λ c. All IsUpstream c.issues) _
        (All-append (λ c. All IsUpstream c.issues) (map (us_channel t v30) d.us30)
          (map (us_channel t v31) d.us31)
          (All_of_map (λ c. All IsUpstream c.issues) (us_channel t v30) d.us30
            (us-IsUpstream t v30))
          (All_of_map (λ c. All IsUpstream c.issues) (us_channel t v31) d.us31
            (us-IsUpstream t v31))) in
    omega (arith, summary_issues-rank t dss uss pct upstream, assessed_worst dss assessed)
