-- ===== src/Analyzer.antt =====
-- app/analyzer.py: the thresholds, and the issues and health of a channel.
-- A power or a ratio is an integer of thousandths of a dB: the values have at most three decimals, for
-- which a float compares as the decimal does. An issue is a constructor where the code has its text.
pub mod Fallback
pub mod Channel
pub mod Summary
pub mod Baseline
pub mod Families
mod Tests
use docsight.Prelude.{
  ℕ, ◌+◌, ◌*◌, ◌≤◌, max, Bool, true, false, not, ◌&&◌, ◌||◌, Option, none, some, List, [], ◌∷◌,
  ◌++◌, map, keep, any, ltb, leb, if◌then◌else◌,
}
use docsight.Prelude.Int.{ℤ, pos, negsuc, ltb_ℤ}
use docsight.Values.{codes, strip_left}
use docsight.Docsis.{clean, upper, same_codes, strip_right, parse_qam_order, raw_text}
use docsight.Docsis.Family.{Family, ofdm, ofdma, Section, find, modulation_threshold_key}

pub data Version : Type 0 where
  v30 v31 : Version

-- The level of an issue; a summary calls a warning marginal.
pub data Level : Type 0 where
  tolerated warning critical : Level

-- The levels of a channel's health.
pub data Health : Type 0 where
  good : Health
  bad : Level → Health

-- Only upstream powers have a side.
pub data Side : Type 0 where
  either low high : Side

pub data Issue : Type 0 where
  power : Level → Side → Issue
  snr : Level → Issue
  modulation : Level → Issue

abbrev pub level_of : Issue → Level
level_of (power l s) = l
level_of (snr l) = l
level_of (modulation l) = l

abbrev pub rank : Level → ℕ
rank tolerated = 1
rank warning = 2
rank critical = 3

abbrev pub health_rank : Health → ℕ
health_rank good = 0
health_rank (bad l) = rank l

abbrev pub is_critical : Level → Bool
is_critical critical = true
is_critical _ = false

abbrev pub is_warning : Level → Bool
is_warning warning = true
is_warning _ = false

abbrev pub is_tolerated : Level → Bool
is_tolerated tolerated = true
is_tolerated _ = false

-- The health of a list of issues: of a channel, or of a summary, with the levels of their texts.
unfoldable pub health_from : {A : Type 0} → (A → Level) → List A → Health
health_from level [] = good
health_from level (i ∷ is) =
    if any (λ x. is_critical (level x)) (i ∷ is)
    then bad critical
    else if any (λ x. is_warning (level x)) (i ∷ is)
    then bad warning
    else bad tolerated

-- `_channel_health`
abbrev pub channel_health : List Issue → Health
channel_health is = health_from level_of is

-- The two bounds of an entry of a profile, which each may lack.
pub record PowerEntry : Type 0 where
  pub good_range : Option (ℤ × ℤ)
  pub warning_range : Option (ℤ × ℤ)
  pub critical_range : Option (ℤ × ℤ)

pub record SnrEntry : Type 0 where
  pub good_min : Option ℤ
  pub warning_min : Option ℤ
  pub critical_min : Option ℤ

-- A threshold profile; `us_power` has the entries of `sc_qam` and `ofdma` by these keys.
pub record Thresholds : Type 0 where
  pub ds_power : Section PowerEntry
  pub us_power : Section PowerEntry
  pub snr_section : Section SnrEntry
  pub critical_max_qam : Option ℕ
  pub warning_max_qam : Option ℕ
  pub uncorr_warning : Option ℤ
  pub uncorr_critical : Option ℤ
  pub min_codewords : Option ℕ
  pub spike_expiry_hours : Option ℕ

abbrev pub get_or {ℓ} : {A : Type ℓ} → A → Option A → A
get_or a none = a
get_or a (some b) = b

-- The resolved ranges of a power.
pub record PowerRange : Type 0 where
  pub good_min : ℤ
  pub good_max : ℤ
  pub warn_min : ℤ
  pub warn_max : ℤ
  pub crit_min : ℤ
  pub crit_max : ℤ

abbrev pub power_range : ℤ × ℤ → ℤ × ℤ → ℤ × ℤ → PowerRange
power_range (gl, gh) (wl, wh) (cl, ch) = record {
  good_min = gl;
  good_max = gh;
  warn_min = wl;
  warn_max = wh;
  crit_min = cl;
  crit_max = ch;
}

abbrev pub no_power : PowerEntry
no_power = record { good_range = none; warning_range = none; critical_range = none }

abbrev pub no_snr : SnrEntry
no_snr = record { good_min = none; warning_min = none; critical_min = none }

-- `ds["ofdm"]` if the family is OFDM and the section has it, else the entry of the modulation.
abbrev pub ds_entry : {A : Type 0} → A → List ℕ → Option Family → Section A → A
ds_entry none_there name (some ofdm) s =
    get_or (get_or none_there (find (modulation_threshold_key name s) s.entries))
      (find (codes "ofdm") s.entries)
ds_entry none_there name family s =
    get_or none_there (find (modulation_threshold_key name s) s.entries)

-- `resolve_ds_power_thresholds`
unfoldable pub ds_power_thresholds : List ℕ → Option Family → Thresholds → PowerRange
ds_power_thresholds name family t =
    let e = ds_entry no_power name family t.ds_power in
    let fine = get_or (negsuc 3999, pos 13000) e.good_range in
    power_range fine (get_or fine e.warning_range)
      (get_or (negsuc 7999, pos 20000) e.critical_range)

-- `_get_us_power_thresholds`
unfoldable pub us_power_thresholds : Bool → Thresholds → PowerRange
us_power_thresholds is_ofdma t =
    let key = if is_ofdma then codes "ofdma" else codes "sc_qam" in
    let default_key = get_or (codes "sc_qam") t.us_power.default_key in
    let e =
      get_or (get_or no_power (find default_key t.us_power.entries))
        (find key t.us_power.entries) in
    let fine = get_or (pos 41000, pos 47000) e.good_range in
    power_range fine (get_or fine e.warning_range) (get_or (pos 35000, pos 53000) e.critical_range)

pub record SnrRange : Type 0 where
  pub good_min : ℤ
  pub warn_min : ℤ
  pub crit_min : ℤ

-- `resolve_snr_thresholds`
unfoldable pub snr_thresholds : List ℕ → Option Family → Thresholds → SnrRange
snr_thresholds name family t =
    let e = ds_entry no_snr name family t.snr_section in
    let fine = get_or (pos 33000) e.good_min in
    record {
      good_min = fine;
      warn_min = get_or fine e.warning_min;
      crit_min = get_or (pos 29000) e.critical_min;
    }
