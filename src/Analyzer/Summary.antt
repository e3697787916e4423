-- ===== src/Analyzer/Summary.antt =====
-- app/analyzer.py, `analyze`: the channels and the overall health. The rounded minima, means and maxima
-- of the summary, its capacities and the copies of fields are left out. The aggregate of the counters is
-- that of Counters, and an argument here.
pub mod Worst
pub mod Overall
use docsight.Prelude.{
  ℕ, ◌+◌, max, Bool, true, false, not, ◌&&◌, ◌||◌, Option, none, some, List, [], ◌∷◌, ◌++◌, map,
  any, leb, if◌then◌else◌,
}
use docsight.Prelude.Int.{ℤ, pos, ltb_ℤ}
use docsight.Values.{codes}
use docsight.Docsis.{same_codes}
use docsight.Docsis.Family.{
  Family, sc_qam, ofdm, ofdma, unknown, ds, us, Carrier, classify_channel_family,
}
use docsight.Analyzer.{
  Version, v30, v31, Level, tolerated, warning, critical, is_critical, is_warning, is_tolerated,
  Health, good, bad, Side, either, low, high, Issue, power, snr, modulation, level_of, health_from,
  channel_health, Thresholds, get_or,
}
use docsight.Analyzer.Channel.{
  DriverChannel, name_of, profile_of, version_text, us_carrier, snr_value, ds_issues, us_issues,
  assess_ds_modulation, assess_us_modulation, is_v31,
}

-- A channel of the analysis; `issues` is its `health_detail`.
pub record Channel : Type 0 where
  pub channel_id : ℕ
  pub channel_family : Family
  pub docsis_version : Version
  pub power_level : Option ℤ
  pub snr_level : Option ℤ
  pub modulation_name : List ℕ
  pub profile_name : List ℕ
  pub issues : List Issue
  pub health : Health
  pub power_health : Health
  pub snr_health : Health
  pub modulation_health : Health

abbrev pub is_power : Issue → Bool
is_power (power l s) = true
is_power (snr l) = false
is_power (modulation l) = false

abbrev pub is_snr : Issue → Bool
is_snr (power l s) = false
is_snr (snr l) = true
is_snr (modulation l) = false

abbrev pub is_modulation : Issue → Bool
is_modulation (power l s) = false
is_modulation (snr l) = false
is_modulation (modulation l) = true

abbrev pub at_level : (Issue → Bool) → (Level → Bool) → Issue → Bool
at_level p q i = p i && q (level_of i)

abbrev pub worst_of : Bool → Bool → Bool → Health
worst_of crit warn tol =
    if crit then bad critical else if warn then bad warning else if tol then bad tolerated else good

-- `_metric_healths`, of one metric
abbrev pub metric_health : (Issue → Bool) → List Issue → Health
metric_health p is =
    worst_of (any (at_level p is_critical) is) (any (at_level p is_warning) is)
      (any (at_level p is_tolerated) is)

-- A channel that has been assessed.
abbrev pub assessed : DriverChannel → Family → Version → Option ℤ → List Issue → Health → Channel
assessed ch family ver level is mod_health = record {
  channel_id = ch.channel_id;
  channel_family = family;
  docsis_version = ver;
  power_level = ch.power_level;
  snr_level = level;
  modulation_name = name_of ch;
  profile_name = profile_of ch;
  issues = is;
  health = channel_health is;
  power_health = metric_health is_power is;
  snr_health = metric_health is_snr is;
  modulation_health = mod_health;
}

-- The family of a downstream channel of DOCSIS 3.1, and the version that its modulation is judged by.
abbrev pub ds31_family : DriverChannel → Family
ds31_family ch = classify_channel_family ds (record {
  kind = ch.kind;
  channel_type = [];
  multiplex = [];
  modulation = name_of ch;
  profile_modulation = profile_of ch;
  profile_modulation_alias = [];
  docsis_version = version_text v31;
})

abbrev pub judged_as : Family → Version
judged_as sc_qam = v30
judged_as _ = v31

unfoldable pub ds30_channel : Thresholds → DriverChannel → Channel
ds30_channel t ch =
    assessed ch sc_qam v30 (snr_value ch v30) (ds_issues t ch v30 v30 none)
      (assess_ds_modulation (name_of ch) v30)

unfoldable pub ds31_channel : Thresholds → DriverChannel → Channel
ds31_channel t ch =
    let family = ds31_family ch in
    assessed ch family v31 (snr_value ch v31) (ds_issues t ch v31 (judged_as family) (some family))
      (assess_ds_modulation (name_of ch) (judged_as family))

unfoldable pub us_channel : Thresholds → Version → DriverChannel → Channel
us_channel t ver ch =
    let family = if is_v31 ver then classify_channel_family us (us_carrier ch ver) else sc_qam in
    record (assessed ch family ver none (us_issues t ch ver) (assess_us_modulation t ch ver)) {
      profile_name = if is_v31 ver then profile_of ch else ch.profile_modulation;
    }

-- `channels.sort(key=lambda c: c["channel_id"])`
unfoldable pub insert_channel : Channel → List Channel → List Channel
insert_channel c [] = c ∷ []
insert_channel c (d ∷ rest) =
    if leb c.channel_id d.channel_id then c ∷ d ∷ rest else d ∷ insert_channel c rest

unfoldable pub sort_channels : List Channel → List Channel
sort_channels [] = []
sort_channels (c ∷ cs) = insert_channel c (sort_channels cs)

-- An issue of the summary; a warning is called marginal there.
pub data SummaryIssue : Type 0 where
  ds_power ds_modulation us_modulation ds_snr : Level → SummaryIssue
  us_power : Level → Side → SummaryIssue
  uncorr_errors_critical uncorr_errors_high : SummaryIssue

-- The level that the text of an issue names; `uncorr_errors_high` names none.
abbrev pub summary_level : SummaryIssue → Level
summary_level (ds_power l) = l
summary_level (ds_modulation l) = l
summary_level (us_modulation l) = l
summary_level (ds_snr l) = l
summary_level (us_power l s) = l
summary_level uncorr_errors_critical = critical
summary_level uncorr_errors_high = tolerated

abbrev pub summary_health : List SummaryIssue → Health
summary_health is = health_from summary_level is

-- `any(text in c["health_detail"] for c in channels)`
unfoldable pub any_issue : (Issue → Bool) → List Channel → Bool
any_issue p [] = false
any_issue p (c ∷ cs) = any p c.issues || any_issue p cs

abbrev pub reported : (Level → SummaryIssue) → Health → List SummaryIssue
reported mk good = []
reported mk (bad l) = mk l ∷ []

-- One metric of the channels.
abbrev pub metric_part : (Level → SummaryIssue) → (Issue → Bool) → List Channel → List SummaryIssue
metric_part mk p cs = reported mk (
    worst_of (any_issue (at_level p is_critical) cs) (any_issue (at_level p is_warning) cs)
      (any_issue (at_level p is_tolerated) cs))

abbrev pub is_side : Side → Issue → Bool
is_side low (power l low) = true
is_side high (power l high) = true
is_side s i = false

abbrev pub when : Bool → SummaryIssue → List SummaryIssue
when b i = if b then i ∷ [] else []

-- The upstream powers, by side.
unfoldable pub us_power_part : List Channel → List SummaryIssue
us_power_part cs =
    let crit_low = any_issue (at_level (is_side low) is_critical) cs in
    let crit_high = any_issue (at_level (is_side high) is_critical) cs in
    let warn_low = any_issue (at_level (is_side low) is_warning) cs in
    let warn_high = any_issue (at_level (is_side high) is_warning) cs in
    let tol_low = any_issue (at_level (is_side low) is_tolerated) cs in
    let tol_high = any_issue (at_level (is_side high) is_tolerated) cs in
    when crit_low (us_power critical low)
    ++ (when crit_high (us_power critical high)
        ++ (when (warn_low && not crit_low) (us_power warning low)
            ++ (when (warn_high && not crit_high) (us_power warning high)
                ++ (when (tol_low && not crit_low && not warn_low) (us_power tolerated low)
                    ++ when (tol_high && not crit_high && not warn_high)
                        (us_power tolerated high)))))

-- The upstream modulations, of which only the critical and the marginal ones are looked for.
unfoldable pub us_modulation_part : List Channel → List SummaryIssue
us_modulation_part cs = reported us_modulation (
    worst_of (any_issue (at_level is_modulation is_critical) cs)
      (any_issue (at_level is_modulation is_warning) cs) false)

-- `uncorr_pct >= et["critical"]` and its other branches
unfoldable pub uncorr_part : Thresholds → Option ℤ → List SummaryIssue
uncorr_part t none = []
uncorr_part t (some pct) =
    if not (ltb_ℤ pct (get_or (pos 300) t.uncorr_critical))
    then uncorr_errors_critical ∷ []
    else if not (ltb_ℤ pct (get_or (pos 100) t.uncorr_warning))
    then uncorr_errors_high ∷ []
    else []

-- The issues of the summary, in their order.
unfoldable pub summary_issues :
    Thresholds → List Channel → List Channel → Option ℤ → List SummaryIssue
summary_issues t dss uss pct =
    metric_part ds_power is_power dss
    ++ (metric_part ds_modulation is_modulation dss
        ++ (us_power_part uss
            ++ (us_modulation_part uss ++ (metric_part ds_snr is_snr dss ++ uncorr_part t pct))))

pub record DocsisData : Type 0 where
  pub ds30 : List DriverChannel
  pub ds31 : List DriverChannel
  pub us30 : List DriverChannel
  pub us31 : List DriverChannel

-- What a driver returns: the channels by version, or one list for each direction with the version.
pub data DriverData : Type 0 where
  by_version : DocsisData → DriverData
  flat : Option (List ℕ) → List DriverChannel → List DriverChannel → DriverData

abbrev pub flat_is_31 : Option (List ℕ) → Bool
flat_is_31 none = true
flat_is_31 (some v) = same_codes v (codes "3.1")

-- The conversion of the newer format.
abbrev pub normalized : DriverData → DocsisData
normalized (by_version d) = d
normalized (flat v down up) =
    if flat_is_31 v
    then record { ds30 = []; ds31 = down; us30 = []; us31 = up }
    else record { ds30 = down; ds31 = []; us30 = up; us31 = [] }

pub record Analysis : Type 0 where
  pub ds_channels : List Channel
  pub us_channels : List Channel
  pub ds_uncorr_pct : Option ℤ
  pub health_issues : List SummaryIssue
  pub health : Health

-- `analyze`, by the percentage of the comparable counters (`uncorr_pct`): the sorted channels, the issues
-- and the health. An infinite counter, which makes the code's aggregate raise, has no percentage and so
-- no call here.
unfoldable pub analyze : Thresholds → DriverData → Option ℤ → Analysis
analyze t x pct =
    let d = normalized x in
    let dss = sort_channels (map (ds30_channel t) d.ds30 ++ map (ds31_channel t) d.ds31) in
    let uss = sort_channels (map (us_channel t v30) d.us30 ++ map (us_channel t v31) d.us31) in
    let is = summary_issues t dss uss pct in
    record {
      ds_channels = dss;
      us_channels = uss;
      ds_uncorr_pct = pct;
      health_issues = is;
      health = summary_health is;
    }
