-- ===== src/Analyzer/Channel.antt =====
-- app/analyzer.py: the assessment of one channel (`_assess_ds_channel`, `_assess_us_channel`).
pub mod Levels
use docsight.Prelude.{
  ℕ, ◌+◌, Bool, true, false, not, ◌==◌, ◌&&◌, ◌||◌, Option, none, some, List, [], ◌∷◌, ◌++◌, map,
  keep, leb, if◌then◌else◌,
}
use docsight.Prelude.Int.{ℤ, pos, negsuc, ltb_ℤ}
use docsight.Values.{codes, strip_left}
use docsight.Docsis.{upper, same_codes, strip_right, parse_qam_order, raw_text}
use docsight.Docsis.Family.{
  Family, sc_qam, ofdm, ofdma, unknown, ds, us, Carrier, classify_channel_family,
}
use docsight.Analyzer.{
  Version, v30, v31, Level, tolerated, warning, critical, Health, good, bad, Side, either, low,
  high, Issue, power, snr, modulation, Thresholds, PowerRange, SnrRange, get_or,
  ds_power_thresholds, us_power_thresholds, snr_thresholds,
}

-- A channel as a driver gives it. A text is empty where the value is missing; a number is there if
-- `float` reads it.
pub record DriverChannel : Type 0 where
  pub channel_id : ℕ
  pub power_level : Option ℤ
  pub modulation_text : List ℕ
  pub kind : List ℕ
  pub multiplex : List ℕ
  pub profile_modulation : List ℕ
  pub profile_modulation_alias : List ℕ
  pub mse : Option ℤ
  pub mer : Option ℤ
  pub snr_is_invalid : Bool

-- `a or b` on texts
abbrev pub or_text : List ℕ → List ℕ → List ℕ
or_text [] t = t
or_text (c ∷ s) t = c ∷ s

abbrev pub name_of : DriverChannel → List ℕ
name_of ch = or_text ch.modulation_text ch.kind

abbrev pub profile_of : DriverChannel → List ℕ
profile_of ch = or_text ch.profile_modulation ch.profile_modulation_alias

abbrev pub abs_ℤ : ℤ → ℤ
abs_ℤ (pos n) = pos n
abs_ℤ (negsuc n) = pos (n + 1)

-- `_assess_ds_modulation`
unfoldable pub assess_ds_modulation : List ℕ → Version → Health
assess_ds_modulation name ver =
    if same_codes (raw_text name) (codes "OFDM")
    then good
    else elim (parse_qam_order (raw_text name)) [
      | none ↦ good
      | some n ↦ elim ver [
        | v31 ↦
            if leb 1024 n
            then good
            else if leb 512 n
            then bad tolerated
            else if leb 256 n
            then bad warning
            else bad critical
        | v30 ↦ if leb 64 n then good else bad critical
      ]
    ]

abbrev pub version_text : Version → List ℕ
version_text v30 = codes "3.0"
version_text v31 = codes "3.1"

-- What the family of an upstream channel is read from.
abbrev pub us_carrier : DriverChannel → Version → Carrier
us_carrier ch ver = record {
  kind = ch.kind;
  channel_type = [];
  multiplex = ch.multiplex;
  modulation = name_of ch;
  profile_modulation = profile_of ch;
  profile_modulation_alias = [];
  docsis_version = version_text ver;
}

abbrev pub is_ofdma : Family → Bool
is_ofdma ofdma = true
is_ofdma _ = false

abbrev pub is_v31 : Version → Bool
is_v31 v31 = true
is_v31 v30 = false

-- `_assess_us_modulation`
unfoldable pub assess_us_modulation : Thresholds → DriverChannel → Version → Health
assess_us_modulation t ch ver =
    let family = classify_channel_family us (us_carrier ch ver) in
    let name = if is_ofdma family then or_text (profile_of ch) (name_of ch) else name_of ch in
    elim (parse_qam_order name) [
      | none ↦ good
      | some n ↦
          if is_v31 ver && is_ofdma family
          then (if leb n 32
              then bad critical
              else if leb n 64
              then bad warning
              else if leb n 128
              then bad tolerated
              else good)
          else if leb n (get_or 4 t.critical_max_qam)
          then bad critical
          else if leb n (get_or 16 t.warning_max_qam)
          then bad warning
          else good
    ]

-- `_modulation_issue`
abbrev pub modulation_issue : Health → List Issue
modulation_issue good = []
modulation_issue (bad l) = modulation l ∷ []

abbrev pub outside : ℤ → ℤ → ℤ → Bool
outside lo hi p = ltb_ℤ p lo || ltb_ℤ hi p

unfoldable pub ds_power_issue : PowerRange → ℤ → List Issue
ds_power_issue r p =
    if outside r.crit_min r.crit_max p
    then power critical either ∷ []
    else if outside r.warn_min r.warn_max p
    then power warning either ∷ []
    else if outside r.good_min r.good_max p
    then power tolerated either ∷ []
    else []

unfoldable pub us_power_issue : PowerRange → ℤ → List Issue
us_power_issue r p =
    if ltb_ℤ p r.crit_min
    then power critical low ∷ []
    else if ltb_ℤ r.crit_max p
    then power critical high ∷ []
    else if ltb_ℤ p r.warn_min
    then power warning low ∷ []
    else if ltb_ℤ r.warn_max p
    then power warning high ∷ []
    else if ltb_ℤ p r.good_min
    then power tolerated low ∷ []
    else if ltb_ℤ r.good_max p
    then power tolerated high ∷ []
    else []

unfoldable pub snr_issue : SnrRange → ℤ → List Issue
snr_issue r s =
    if ltb_ℤ s r.crit_min
    then snr critical ∷ []
    else if ltb_ℤ s r.warn_min
    then snr warning ∷ []
    else if ltb_ℤ s r.good_min
    then snr tolerated ∷ []
    else []

-- The ratio of a downstream channel.
abbrev pub snr_value : DriverChannel → Version → Option ℤ
snr_value ch v30 = elim ch.mse [ none ↦ none | some m ↦ some (abs_ℤ m) ]
snr_value ch v31 = ch.mer

abbrev pub issues_of : {A : Type 0} → Option A → (A → List Issue) → List Issue
issues_of none f = []
issues_of (some a) f = f a

-- The issues of `_assess_ds_channel`, in their order.
unfoldable pub ds_issues :
    Thresholds → DriverChannel → Version → Version → Option Family → List Issue
ds_issues t ch ver modulation_ver family =
    let name = keep (λ c. not (c == b'-')) (map upper (name_of ch)) in
    issues_of ch.power_level (ds_power_issue (ds_power_thresholds name family t))
    ++ ((if ch.snr_is_invalid then snr warning ∷ [] else [])
        ++ (issues_of (snr_value ch ver) (snr_issue (snr_thresholds name family t))
            ++ modulation_issue (assess_ds_modulation name modulation_ver)))

-- The issues of `_assess_us_channel`.
unfoldable pub us_issues : Thresholds → DriverChannel → Version → List Issue
us_issues t ch ver =
    let family = classify_channel_family us (us_carrier ch ver) in
    let name = strip_right (
      strip_left (
        keep (λ c. not (c == b'-'))
          (map upper (or_text ch.kind (or_text ch.multiplex (name_of ch)))))) in
    issues_of ch.power_level
      (us_power_issue (us_power_thresholds (is_ofdma family || same_codes name (codes "OFDMA")) t))
    ++ modulation_issue (assess_us_modulation t ch ver)
