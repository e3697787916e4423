-- ===== src/Analyzer/Families/Groups.antt =====
-- app/analyzer.py: the summary of one family (`_family_summary`) and of a direction
-- (`_build_signal_family_summary`).
use docsight.Prelude.{
  ℕ, Bool, true, false, Option, none, some, List, [], ◌∷◌, map, keep, count_if, length,
  if◌then◌else◌,
}
use docsight.Docsis.Family.{Family, sc_qam, ofdm, ofdma, unknown, Direction, ds, us}
use docsight.Analyzer.{Health, good, bad, tolerated, warning, critical}
use docsight.Analyzer.Summary.{Channel}
use docsight.Analyzer.Families.{
  worst_health, distinct_modulation_healths, Cause, modulation_cause, power_cause, snr_cause,
  mer_cause, if_known, HealthDriver, family_health_driver, same_health,
}

-- `_family_health_counts`
pub record Counts : Type 0 where
  pub good_channels : ℕ
  pub tolerated_channels : ℕ
  pub warning_channels : ℕ
  pub critical_channels : ℕ

unfoldable pub health_counts : List Channel → Counts
health_counts chs = record {
  good_channels = count_if (λ c. same_health c.health good) chs;
  tolerated_channels = count_if (λ c. same_health c.health (bad tolerated)) chs;
  warning_channels = count_if (λ c. same_health c.health (bad warning)) chs;
  critical_channels = count_if (λ c. same_health c.health (bad critical)) chs;
}

abbrev pub power_healths : List Channel → List (Option Health)
power_healths chs = map (λ c. if_known c.power_level c.power_health) chs

abbrev pub quality_healths : List Channel → List (Option Health)
quality_healths chs = map (λ c. if_known c.snr_level c.snr_health) chs

abbrev pub value_healths : List (List ℕ × Health) → List (Option Health)
value_healths [] = []
value_healths ((v, h) ∷ es) = some h ∷ value_healths es

pub record FamilySummary : Type 0 where
  pub family : Family
  pub count : ℕ
  pub health : Option Health
  pub health_cause : Option Cause
  pub counts : Counts
  pub health_driver : Option HealthDriver
  pub power_health : Option Health
  pub modulation_values : List (List ℕ × Health)
  pub modulation_health : Option Health
  pub quality_health : Option Health

abbrev pub prefers_profile : Family → Bool
prefers_profile ofdm = true
prefers_profile ofdma = true
prefers_profile sc_qam = false
prefers_profile unknown = false

abbrev pub quality_cause : Family → Cause
quality_cause ofdm = mer_cause
quality_cause _ = snr_cause

abbrev pub is_health : Option Health → Health → Bool
is_health none h = false
is_health (some k) h = same_health k h

-- The cause of a family's health: the modulation first, then the power, then the ratio.
unfoldable pub health_cause_of :
    Option Health → Option Health → Option Health → Option Health → Cause → Option Cause
health_cause_of none power modulation quality key = none
health_cause_of (some good) power modulation quality key = none
health_cause_of (some (bad l)) power modulation quality key =
    if is_health modulation (bad l)
    then some modulation_cause
    else if is_health power (bad l)
    then some power_cause
    else if is_health quality (bad l)
    then some key
    else none

abbrev pub quality_of : Direction → List Channel → Option Health
quality_of ds chs = worst_health (quality_healths chs)
quality_of us chs = none

-- `_family_summary`
unfoldable pub family_summary : Direction → Family → List Channel → FamilySummary
unfolding health_counts
family_summary dir family chs =
    let prefer = prefers_profile family in
    let values = distinct_modulation_healths prefer chs in
    let power = worst_health (power_healths chs) in
    let modulation = worst_health (value_healths values) in
    let quality = quality_of dir chs in
    let health = worst_health (power ∷ modulation ∷ quality ∷ []) in
    let cause = health_cause_of health power modulation quality (quality_cause family) in
    record {
      family = family;
      count = length chs;
      health = health;
      health_cause = cause;
      counts = health_counts chs;
      health_driver = family_health_driver prefer family chs cause health;
      power_health = power;
      modulation_values = values;
      modulation_health = modulation;
      quality_health = quality;
    }

abbrev pub same_family : Family → Family → Bool
same_family sc_qam sc_qam = true
same_family ofdm ofdm = true
same_family ofdma ofdma = true
same_family unknown unknown = true
same_family f g = false

abbrev pub group_of : Family → List Channel → List Channel
group_of f chs = keep (λ c. same_family c.channel_family f) chs

-- The families in the order of their groups; the last one is never a family of the direction.
abbrev pub families_of : Direction → List Family
families_of ds = sc_qam ∷ ofdm ∷ unknown ∷ ofdma ∷ []
families_of us = sc_qam ∷ ofdma ∷ unknown ∷ ofdm ∷ []

-- `if channels`
abbrev pub summarised : Direction → Family → List Channel → List FamilySummary → List FamilySummary
summarised dir f [] rest = rest
summarised dir f (c ∷ cs) rest = family_summary dir f (c ∷ cs) ∷ rest

unfoldable pub summaries : Direction → List Channel → List Family → List FamilySummary
summaries dir chs [] = []
summaries dir chs (f ∷ fs) = summarised dir f (group_of f chs) (summaries dir chs fs)

pub record DirectionSummary : Type 0 where
  pub health : Option Health
  pub families : List FamilySummary

-- One direction of `_build_signal_family_summary`.
unfoldable pub direction_summary : Direction → List Channel → DirectionSummary
direction_summary dir chs =
    let families = summaries dir chs (families_of dir) in
    record { health = worst_health (map (λ f. f.health) families); families = families }
