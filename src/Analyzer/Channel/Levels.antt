-- ===== src/Analyzer/Channel/Levels.antt =====
-- app/analyzer.py: the levels of a power against the nested ranges of its thresholds.
use docsight.Prelude.{ℕ, ◌+◌, ◌≡◌, Bool, true, false, ◌||◌, List, [], ◌∷◌, arith, if◌then◌else◌}
use docsight.Prelude.Int.{ℤ, ltb_ℤ, ◌≤ℤ◌}
use docsight.Analyzer.{
  tolerated, warning, critical, Side, either, low, high, Issue, power, health_rank, channel_health,
  health_from, PowerRange,
}
use docsight.Analyzer.Channel.{outside, ds_power_issue, us_power_issue}

-- The good range lies in the marginal one, and that in the critical one.
abbrev pub Nested : PowerRange → Type 0
Nested r =
    (r.crit_min ≤ℤ r.warn_min)
    × (r.warn_min ≤ℤ r.good_min)
    × (r.good_min ≤ℤ r.good_max)
    × (r.good_max ≤ℤ r.warn_max)
    × (r.warn_max ≤ℤ r.crit_max)

abbrev pub one_if : Bool → ℕ
one_if b = if b then 1 else 0

-- How many of the ranges the power has left.
abbrev pub ranges_left : PowerRange → ℤ → ℕ
ranges_left r p =
    one_if (outside r.good_min r.good_max p)
    + one_if (outside r.warn_min r.warn_max p)
    + one_if (outside r.crit_min r.crit_max p)

-- The side of an upstream issue.
abbrev pub names_side : Side → List Issue → Bool
names_side low (power l low ∷ is) = true
names_side high (power l high ∷ is) = true
names_side s is = false

-- The tests of three nested ranges, and those of their six bounds.
three_tests :
    (c w g : Bool)
    → (c ≡ true → w ≡ true)
    → (w ≡ true → g ≡ true)
    → health_rank (
        channel_health (
          if c
          then power critical either ∷ []
          else if w
          then power warning either ∷ []
          else if g
          then power tolerated either ∷ []
          else []))
      ≡ one_if g + one_if w + one_if c
unfolding health_from
three_tests c w g cw wg = ground (arith, cw, wg)

-- The outer ranges are left last, and one side excludes the other.
record Sides (cl ch wl wh gl gh : Bool) : Type 0 where
  low_crit : cl ≡ true → wl ≡ true
  high_crit : ch ≡ true → wh ≡ true
  low_warn : wl ≡ true → gl ≡ true
  high_warn : wh ≡ true → gh ≡ true
  one_side : gl ≡ true → gh ≡ false

abbrev six_tests : Bool → Bool → Bool → Bool → Bool → Bool → List Issue
six_tests cl ch wl wh gl gh =
    if cl
    then power critical low ∷ []
    else if ch
    then power critical high ∷ []
    else if wl
    then power warning low ∷ []
    else if wh
    then power warning high ∷ []
    else if gl
    then power tolerated low ∷ []
    else if gh
    then power tolerated high ∷ []
    else []

six_tests_lem :
    (cl ch wl wh gl gh : Bool)
    → Sides cl ch wl wh gl gh
    → (health_rank (channel_health (six_tests cl ch wl wh gl gh))
        ≡ one_if (gl || gh) + one_if (wl || wh) + one_if (cl || ch))
      × (names_side low (six_tests cl ch wl wh gl gh) ≡ gl)
      × (names_side high (six_tests cl ch wl wh gl gh) ≡ gh)
unfolding health_from
six_tests_lem true ch wl wh gl gh s =
    ground (arith, s.low_crit, s.low_warn, s.one_side, s.high_crit, s.high_warn)
six_tests_lem false true wl wh gl gh s =
    ground (arith, s.high_crit, s.high_warn, s.low_warn, s.one_side)
six_tests_lem false false true wh gl gh s = ground (arith, s.low_warn, s.one_side, s.high_warn)
six_tests_lem false false false wh gl gh s = ground (arith, s.one_side, s.high_warn)

below : (a b p : ℤ) → a ≤ℤ b → ltb_ℤ p a ≡ true → ltb_ℤ p b ≡ true
below a b p h k = ground (arith, h, k)

above : (a b p : ℤ) → a ≤ℤ b → ltb_ℤ b p ≡ true → ltb_ℤ a p ≡ true
above a b p h k = ground (arith, h, k)

apart : (a b p : ℤ) → a ≤ℤ b → ltb_ℤ p a ≡ true → ltb_ℤ b p ≡ false
apart a b p h k = ground (arith, h, k)

us-Sides :
    (r : PowerRange) (p : ℤ)
    → Nested r
    → Sides
        (ltb_ℤ p r.crit_min)
        (ltb_ℤ r.crit_max p)
        (ltb_ℤ p r.warn_min)
        (ltb_ℤ r.warn_max p)
        (ltb_ℤ p r.good_min)
        (ltb_ℤ r.good_max p)
us-Sides r p (cl, wl, gg, wh, ch) = record {
  low_crit = below r.crit_min r.warn_min p cl;
  high_crit = above r.warn_max r.crit_max p ch;
  low_warn = below r.warn_min r.good_min p wl;
  high_warn = above r.good_max r.warn_max p wh;
  one_side = apart r.good_min r.good_max p gg;
}

or_mono :
    (a b c d : Bool)
    → (a ≡ true → c ≡ true)
    → (b ≡ true → d ≡ true)
    → (a || b) ≡ true
    → (c || d) ≡ true
or_mono a b c d f g e = ground (arith, f, g, e)

-- With the good range inside the marginal one and that inside the critical one, the level of a power is
-- the number of the ranges that it has left, downstream and upstream alike; upstream the issue says that
-- the power is low exactly when it is below the good range, and high exactly when it is above.
pub power_issue_levels :
    (r : PowerRange) (p : ℤ)
    → Nested r
    → (health_rank (channel_health (ds_power_issue r p)) ≡ ranges_left r p)
      × (health_rank (channel_health (us_power_issue r p)) ≡ ranges_left r p)
      × (names_side low (us_power_issue r p) ≡ ltb_ℤ p r.good_min)
      × (names_side high (us_power_issue r p) ≡ ltb_ℤ r.good_max p)
unfolding us_power_issue ds_power_issue
power_issue_levels r p n =
    let s = us-Sides r p n in
    let (rank, lows, highs) = six_tests_lem _ _ _ _ _ _ s in
    (
      three_tests _ _ _ (or_mono _ _ _ _ s.low_crit s.high_crit)
          (or_mono _ _ _ _ s.low_warn s.high_warn),
      rank,
      lows,
      highs,
    )
