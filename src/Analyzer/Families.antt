-- ===== src/Analyzer/Families.antt =====
-- app/analyzer.py: the summary of a signal family with the channel that explains it
-- (`_family_summary`, `_family_health_driver`, `_build_signal_family_summary`). `none` as a health is
-- `missing`. The rounded statistics of powers and ratios are left out.
pub mod Groups
mod Explains
pub mod Driver
pub mod Counts
use docsight.Prelude.{
  ℕ, suc, ◌+◌, Bool, true, false, not, ◌&&◌, ◌||◌, Option, none, some, List, [], ◌∷◌, ◌++◌, map,
  keep, length, ltb, leb, ◌==◌, if◌then◌else◌,
}
use docsight.Prelude.Int.{ℤ}
use docsight.Docsis.{same_codes, parse_qam_order}
use docsight.Docsis.Family.{Family, sc_qam, ofdm, ofdma, unknown, Direction, ds, us}
use docsight.Analyzer.{
  Health, good, bad, Level, tolerated, warning, critical, health_rank, is_critical,
}
use docsight.Analyzer.Channel.{or_text}
use docsight.Analyzer.Summary.{Channel}

abbrev pub worse : Health → Health → Health
worse h k = if ltb (health_rank h) (health_rank k) then k else h

-- `_worst_health`
unfoldable pub worst_health : List (Option Health) → Option Health
worst_health [] = none
worst_health (none ∷ hs) = worst_health hs
worst_health (some h ∷ hs) = elim (worst_health hs) [ none ↦ some h | some k ↦ some (worse h k) ]

-- `_channel_modulation_value`
abbrev pub modulation_value : Bool → Channel → List ℕ
modulation_value true ch = or_text ch.profile_name ch.modulation_name
modulation_value false ch = or_text ch.modulation_name ch.profile_name

abbrev pub is_empty : List ℕ → Bool
is_empty [] = true
is_empty (c ∷ s) = false

-- A modulation with the worst health of its channels, into the entries of the others.
unfoldable pub add_value : List ℕ → Health → List (List ℕ × Health) → List (List ℕ × Health)
add_value v h [] = (v, h) ∷ []
add_value v h ((w, k) ∷ es) =
    if same_codes w v then (w, worse k h) ∷ es else (w, k) ∷ add_value v h es

unfoldable pub values_by_health :
    Bool → List Channel → List (List ℕ × Health) → List (List ℕ × Health)
values_by_health prefer [] es = es
values_by_health prefer (ch ∷ chs) es = values_by_health prefer chs (
    if is_empty (modulation_value prefer ch)
    then es
    else add_value (modulation_value prefer ch) ch.modulation_health es)

abbrev pub text_le : List ℕ → List ℕ → Bool
text_le [] t = true
text_le (c ∷ s) [] = false
text_le (c ∷ s) (d ∷ t) = ltb c d || c == d && text_le s t

abbrev pub order_or_zero : List ℕ → ℕ
order_or_zero s = elim (parse_qam_order s) [ none ↦ 0 | some n ↦ n ]

-- `_modulation_sort_key`, compared
abbrev pub key_le : List ℕ → List ℕ → Bool
key_le v w =
    ltb (order_or_zero v) (order_or_zero w) || order_or_zero v == order_or_zero w && text_le v w

unfoldable pub insert_value : List ℕ × Health → List (List ℕ × Health) → List (List ℕ × Health)
insert_value e [] = e ∷ []
insert_value (v, h) ((w, k) ∷ es) =
    if key_le v w then (v, h) ∷ (w, k) ∷ es else (w, k) ∷ insert_value (v, h) es

unfoldable pub sort_values : List (List ℕ × Health) → List (List ℕ × Health)
sort_values [] = []
sort_values (e ∷ es) = insert_value e (sort_values es)

-- `_distinct_modulation_healths`
unfoldable pub distinct_modulation_healths : Bool → List Channel → List (List ℕ × Health)
distinct_modulation_healths prefer chs = sort_values (values_by_health prefer chs [])

pub data Cause : Type 0 where
  modulation_cause power_cause snr_cause mer_cause : Cause

pub data DriverValue : Type 0 where
  number : ℤ → DriverValue
  name : List ℕ → DriverValue

pub record HealthDriver : Type 0 where
  pub channel_id : ℕ
  pub dimension : Cause
  pub family : Family
  pub health : Health
  pub value : DriverValue

abbrev pub number_of : Option ℤ → Option DriverValue
number_of none = none
number_of (some n) = some (number n)

-- `_driver_value`
abbrev pub driver_value : Bool → Cause → Channel → Option DriverValue
driver_value prefer power_cause ch = number_of ch.power_level
driver_value prefer snr_cause ch = number_of ch.snr_level
driver_value prefer mer_cause ch = number_of ch.snr_level
driver_value prefer modulation_cause ch =
    if is_empty (modulation_value prefer ch) then none else some (name (modulation_value prefer ch))

abbrev pub if_known : Option ℤ → Health → Option Health
if_known none h = none
if_known (some n) h = some h

-- `_driver_health`
abbrev pub driver_health : Cause → Channel → Option Health
driver_health power_cause ch = if_known ch.power_level ch.power_health
driver_health snr_cause ch = if_known ch.snr_level ch.snr_health
driver_health mer_cause ch = if_known ch.snr_level ch.snr_health
driver_health modulation_cause ch = some ch.modulation_health

abbrev pub candidate :
    Family → Cause → ℕ → Option DriverValue → Option Health → List HealthDriver → List HealthDriver
candidate f c id none h rest = rest
candidate f c id (some v) none rest = rest
candidate f c id (some v) (some h) rest =
    record { channel_id = id; dimension = c; family = f; health = h; value = v } ∷ rest

-- The channels with a value and a health of the cause.
unfoldable pub candidates : Bool → Family → Cause → List Channel → List HealthDriver
candidates prefer f cause [] = []
candidates prefer f cause (ch ∷ chs) =
    candidate f cause ch.channel_id (driver_value prefer cause ch) (driver_health cause ch)
      (candidates prefer f cause chs)

abbrev pub same_health : Health → Health → Bool
same_health h k = health_rank h == health_rank k

abbrev pub first? {ℓ} : {A : Type ℓ} → List A → Option A
first? [] = none
first? (x ∷ xs) = some x

-- The first of the candidates with the worst health.
unfoldable pub worst_driver : List HealthDriver → Option HealthDriver
worst_driver [] = none
worst_driver (d ∷ rest) = elim (worst_driver rest) [
  | none ↦ some d
  | some e ↦ if ltb (health_rank d.health) (health_rank e.health) then some e else some d
]

-- `_family_health_driver`; without a cause there is none.
unfoldable pub family_health_driver :
    Bool → Family → List Channel → Option Cause → Option Health → Option HealthDriver
family_health_driver prefer family chs none health = none
family_health_driver prefer family chs (some cause) none = none
family_health_driver prefer family chs (some cause) (some good) = none
family_health_driver prefer family chs (some cause) (some (bad l)) =
    let all = candidates prefer family cause chs in
    elim (first? (keep (λ d. same_health d.health (bad l)) all)) [
      | some d ↦ some d
      | none ↦ worst_driver all
    ]
