-- ===== src/Analyzer/Summary/Worst.antt =====
-- app/analyzer.py: the overall health is the worst of what the channels report.
use docsight.Prelude.{
  ℕ, ◌≡◌, refl, max, Bool, false, List, [], ◌∷◌, ◌++◌, any, if◌then◌else◌, arith, All,
}
use docsight.Analyzer.{
  Level, tolerated, warning, critical, is_critical, is_warning, is_tolerated, Health, good, bad,
  either, low, high, Issue, power, snr, modulation, level_of, rank, health_rank, health_from,
}
use docsight.Analyzer.Summary.{
  Channel, SummaryIssue, is_power, is_snr, is_modulation, at_level, worst_of, any_issue, reported,
  is_side, us_power_part, summary_level,
}

-- The largest weight in a list.
abbrev pub worst : {A : Type 0} → (A → ℕ) → List A → ℕ
worst w [] = 0
worst w (x ∷ xs) = max (w x) (worst w xs)

pub worst-append :
    {A : Type 0} (w : A → ℕ) (xs ys : List A) → worst w (xs ++ ys) ≡ max (worst w xs) (worst w ys)
worst-append w [] ys = omega arith
worst-append w (x ∷ xs) ys = omega (arith, worst-append w xs ys)

-- The three tests of a level give the largest rank.
tests_rank :
    {A : Type 0} (level : A → Level) (xs : List A)
    → worst (λ x. rank (level x)) xs ≡ (
        if any (λ x. is_critical (level x)) xs
        then 3
        else if any (λ x. is_warning (level x)) xs
        then 2
        else if any (λ x. is_tolerated (level x)) xs
        then 1
        else 0)
tests_rank level [] = refl
tests_rank level (x ∷ xs) = let rest = tests_rank level xs in ground (arith, rest)

pub health_from-worst :
    {A : Type 0} (level : A → Level) (xs : List A)
    → health_rank (health_from level xs) ≡ worst (λ x. rank (level x)) xs
unfolding health_from
health_from-worst level [] = refl
health_from-worst level (x ∷ xs) = let rest = tests_rank level (x ∷ xs) in ground (arith, rest)

-- The weight of the issues that a test picks.
abbrev pub weight : (Issue → Bool) → Issue → ℕ
weight p i = if p i then rank (level_of i) else 0

abbrev pub channel_worst : (Issue → ℕ) → List Channel → ℕ
channel_worst w cs = worst (λ c. worst w c.issues) cs

picked_rank :
    (p : Issue → Bool) (is : List Issue)
    → worst (weight p) is
      ≡ health_rank (
          worst_of
            (any (at_level p is_critical) is)
            (any (at_level p is_warning) is)
            (any (at_level p is_tolerated) is))
picked_rank p [] = refl
picked_rank p (i ∷ is) = let rest = picked_rank p is in ground (arith, rest)

-- Three tests over all channels.
pub part_rank :
    (p : Issue → Bool) (cs : List Channel)
    → health_rank (
        worst_of
          (any_issue (at_level p is_critical) cs)
          (any_issue (at_level p is_warning) cs)
          (any_issue (at_level p is_tolerated) cs))
      ≡ channel_worst (weight p) cs
unfolding any_issue
part_rank p [] = refl
part_rank p (c ∷ cs) =
    let rest = part_rank p cs in let here = picked_rank p c.issues in ground (arith, rest, here)

max_zero : (n : ℕ) → max n 0 ≡ n
max_zero n = omega arith

abbrev pub summary_rank : SummaryIssue → ℕ
summary_rank i = rank (summary_level i)

pub reported_rank :
    (mk : Level → SummaryIssue) (h : Health)
    → ((l : Level) → summary_level (mk l) ≡ l)
    → worst summary_rank (reported mk h) ≡ health_rank h
reported_rank mk good k = refl
reported_rank mk (bad l) k = rw (k l) (max_zero (rank l))

pub us_power_rank :
    (cs : List Channel)
    → worst summary_rank (us_power_part cs)
      ≡ max (channel_worst (weight (is_side low)) cs) (channel_worst (weight (is_side high)) cs)
unfolding us_power_part
us_power_rank cs =
    let a = part_rank (is_side low) cs in
    let b = part_rank (is_side high) cs in ground (arith, a, b)

-- What the summary reports of an upstream issue: a tolerated modulation is left out.
abbrev pub us_reported : Issue → ℕ
us_reported (power l s) = rank l
us_reported (snr l) = rank l
us_reported (modulation tolerated) = 0
us_reported (modulation warning) = 2
us_reported (modulation critical) = 3

abbrev pub reported_modulation : Issue → ℕ
reported_modulation i = if is_modulation i then us_reported i else 0

modulation_rank :
    (is : List Issue)
    → worst reported_modulation is
      ≡ health_rank (
          worst_of
            (any (at_level is_modulation is_critical) is)
            (any (at_level is_modulation is_warning) is)
            false)
modulation_rank [] = refl
modulation_rank (power l s ∷ is) = let rest = modulation_rank is in ground (arith, rest)
modulation_rank (snr l ∷ is) = let rest = modulation_rank is in ground (arith, rest)
modulation_rank (modulation l ∷ is) = let rest = modulation_rank is in ground (arith, rest)

pub us_modulation_tests :
    (cs : List Channel)
    → health_rank (
        worst_of
          (any_issue (at_level is_modulation is_critical) cs)
          (any_issue (at_level is_modulation is_warning) cs)
          false)
      ≡ channel_worst reported_modulation cs
unfolding any_issue
us_modulation_tests [] = refl
us_modulation_tests (c ∷ cs) =
    let rest = us_modulation_tests cs in
    let here = modulation_rank c.issues in ground (arith, rest, here)

-- The weights of the metrics together.
ds_split :
    (is : List Issue)
    → worst (λ i. rank (level_of i)) is
      ≡ max
          (worst (weight is_power) is)
          (max (worst (weight is_modulation) is) (worst (weight is_snr) is))
ds_split [] = refl
ds_split (power l s ∷ is) = omega (arith, ds_split is)
ds_split (snr l ∷ is) = omega (arith, ds_split is)
ds_split (modulation l ∷ is) = omega (arith, ds_split is)

-- An issue of an upstream channel: a power has a side, and there is no ratio.
abbrev pub IsUpstream : Issue → Type 0
IsUpstream (power l either) = ⊥
IsUpstream (power l low) = Unit
IsUpstream (power l high) = Unit
IsUpstream (snr l) = ⊥
IsUpstream (modulation l) = Unit

us_split :
    (is : List Issue)
    → All IsUpstream is
    → worst us_reported is
      ≡ max
          (max (worst (weight (is_side low)) is) (worst (weight (is_side high)) is))
          (worst reported_modulation is)
us_split [] h = refl
us_split (power l either ∷ is) h = absurd h.0
us_split (power l low ∷ is) h = omega (arith, us_split is h.1)
us_split (power l high ∷ is) h = omega (arith, us_split is h.1)
us_split (snr l ∷ is) h = absurd h.0
us_split (modulation l ∷ is) h = omega (arith, us_split is h.1)

pub channels_ds :
    (cs : List Channel)
    → channel_worst (λ i. rank (level_of i)) cs
      ≡ max
          (channel_worst (weight is_power) cs)
          (max (channel_worst (weight is_modulation) cs) (channel_worst (weight is_snr) cs))
channels_ds [] = refl
channels_ds (c ∷ cs) = omega (arith, channels_ds cs, ds_split c.issues)

pub channels_us :
    (cs : List Channel)
    → All (λ c. All IsUpstream c.issues) cs
    → channel_worst us_reported cs
      ≡ max
          (max (channel_worst (weight (is_side low)) cs) (channel_worst (weight (is_side high)) cs))
          (channel_worst reported_modulation cs)
channels_us [] h = refl
channels_us (c ∷ cs) h = omega (arith, channels_us cs h.1, us_split c.issues h.0)
