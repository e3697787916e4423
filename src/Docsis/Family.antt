-- ===== src/Docsis/Family.antt =====
-- app/docsis_utils.py: the signal family of a channel, and the key of its thresholds.
pub mod Directions
use docsight.Prelude.{
  ℕ, zero, suc, Bool, true, false, not, ◌&&◌, ◌||◌, Option, none, some, List, [], ◌∷◌, ◌++◌, map,
  keep, leb, ◌==◌, if◌then◌else◌, String, any,
}
use docsight.Values.{codes}
use docsight.Docsis.{upper, no_separator, clean, same_codes, qam, parse_qam_order}

pub data Direction : Type 0 where
  ds us : Direction

pub data Family : Type 0 where
  sc_qam ofdm ofdma unknown : Family

-- The fields that a family is read from; a text is empty where the value is missing.
pub record Carrier : Type 0 where
  pub kind : List ℕ
  pub channel_type : List ℕ
  pub multiplex : List ℕ
  pub modulation : List ℕ
  pub profile_modulation : List ℕ
  pub profile_modulation_alias : List ℕ
  pub docsis_version : List ℕ

-- `part in text`
unfoldable pub starts_with : List ℕ → List ℕ → Bool
starts_with [] s = true
starts_with (c ∷ p) [] = false
starts_with (c ∷ p) (d ∷ s) = c == d && starts_with p s

unfoldable pub contains : List ℕ → List ℕ → Bool
unfolding starts_with
contains p [] = starts_with p []
contains p (c ∷ s) = starts_with p (c ∷ s) || contains p s

-- `" ".join(...)` of the values that are not empty
unfoldable pub join : List (List ℕ) → List ℕ
join [] = []
join ([] ∷ vs) = join vs
join ((c ∷ s) ∷ vs) = elim (join vs) [ [] ↦ c ∷ s | d ∷ t ↦ (c ∷ s) ++ b' ' ∷ d ∷ t ]

-- `_compact_text`
unfoldable pub compact : List (List ℕ) → List ℕ
unfolding join
compact vs = keep no_separator (map upper (join vs))

abbrev pub is_empty : List ℕ → Bool
is_empty [] = true
is_empty (c ∷ s) = false

-- `3.1` or `4.0` in the version
unfoldable pub is_docsis31_plus : List ℕ → Bool
is_docsis31_plus v = contains (codes "3.1") v || contains (codes "4.0") v

abbrev pub positive_order : List ℕ → Bool
positive_order s = elim (parse_qam_order s) [ none ↦ false | some n ↦ leb 1 n ]

abbrev pub high_order : List ℕ → Bool
high_order s = elim (parse_qam_order s) [ none ↦ false | some n ↦ leb 1024 n ]

unfoldable pub classify_ds : Carrier → Family
unfolding compact contains is_docsis31_plus
classify_ds ch =
    let type_text = compact (ch.kind ∷ ch.channel_type ∷ []) in
    let modulation_text = compact (ch.modulation ∷ []) in
    let profile_text = compact (ch.profile_modulation ∷ ch.profile_modulation_alias ∷ []) in
    let plus = is_docsis31_plus ch.docsis_version in
    if contains (codes "OFDM") type_text || contains (codes "OFDMA") type_text
    then ofdm
    else if contains (codes "SCQAM") type_text || same_codes type_text qam
    then sc_qam
    else if contains (codes "OFDM") modulation_text || contains (codes "OFDMA") modulation_text
    then ofdm
    else if positive_order modulation_text
    then (if high_order modulation_text && plus then ofdm else sc_qam)
    else if not (is_empty profile_text) && plus
    then ofdm
    else if positive_order profile_text
    then sc_qam
    else if plus
    then ofdm
    else if contains (codes "3.0") ch.docsis_version
    then sc_qam
    else unknown

unfoldable pub classify_us : Carrier → Family
unfolding compact contains is_docsis31_plus
classify_us ch =
    let type_text = compact (ch.kind ∷ ch.channel_type ∷ []) in
    let multiplex_text = compact (ch.multiplex ∷ []) in
    let modulation_text = compact (ch.modulation ∷ []) in
    let profile_text = compact (ch.profile_modulation ∷ ch.profile_modulation_alias ∷ []) in
    let plus = is_docsis31_plus ch.docsis_version in
    let both = type_text ++ b' ' ∷ multiplex_text in
    if contains (codes "OFDMA") type_text || contains (codes "OFDMA") multiplex_text
    then ofdma
    else if contains (codes "ATDMA") both
        || contains (codes "SCQAM") both
        || contains (codes "TDMA") both
    then sc_qam
    else if contains (codes "OFDMA") modulation_text
    then ofdma
    else if not (is_empty profile_text) && plus
    then ofdma
    else if plus
    then ofdma
    else if positive_order modulation_text
    then sc_qam
    else if contains (codes "3.0") ch.docsis_version
    then sc_qam
    else unknown

-- `classify_channel_family`
unfoldable pub classify_channel_family : Direction → Carrier → Family
unfolding classify_ds classify_us
classify_channel_family ds ch = classify_ds ch
classify_channel_family us ch = classify_us ch

-- A value of the channel, or else of the fallback.
abbrev pub filled : List ℕ → List ℕ → List ℕ
filled [] t = t
filled (c ∷ s) t = c ∷ s

abbrev pub merged : Carrier → Carrier → Carrier
merged ch fallback = record {
  kind = filled ch.kind fallback.kind;
  channel_type = filled ch.channel_type fallback.channel_type;
  multiplex = filled ch.multiplex fallback.multiplex;
  modulation = filled ch.modulation fallback.modulation;
  profile_modulation = filled ch.profile_modulation fallback.profile_modulation;
  profile_modulation_alias = filled ch.profile_modulation_alias fallback.profile_modulation_alias;
  docsis_version = filled ch.docsis_version fallback.docsis_version;
}

abbrev pub label_of : Family → List ℕ
label_of sc_qam = codes "SC-QAM"
label_of ofdm = codes "OFDM"
label_of ofdma = codes "OFDMA"
label_of unknown = []

-- `channel_type_label`
abbrev pub channel_type_label : Direction → Carrier → Carrier → List ℕ
channel_type_label dir ch fallback = label_of (classify_channel_family dir (merged ch fallback))

-- `sc_qam_capacity_family`: whether the formula of the capacity applies.
abbrev pub sc_qam_capacity : Direction → Carrier → Bool
sc_qam_capacity dir ch = elim (classify_channel_family dir ch) [
  | sc_qam ↦ true
  | ofdm ↦ false
  | ofdma ↦ false
  | unknown ↦ false
]

-- A section of thresholds: the entries by key, and the key of the default.
pub record Section (A : Type 0) : Type 0 where
  pub default_key : Option (List ℕ)
  pub entries : List (List ℕ × A)

abbrev pub find {ℓ} : {A : Type ℓ} → List ℕ → List (List ℕ × A) → Option A
find k [] = none
find k ((j, a) ∷ es) = if same_codes j k then some a else find k es

abbrev pub or_default : Option (List ℕ) → List ℕ
or_default none = codes "256QAM"
or_default (some []) = codes "256QAM"
or_default (some (c ∷ k)) = c ∷ k

-- `modulation_threshold_key`
unfoldable pub modulation_threshold_key : {A : Type 0} → List ℕ → Section A → List ℕ
modulation_threshold_key modulation s =
    let value = clean modulation in
    elim (find value s.entries) [
      | some a ↦ value
      | none ↦
          if same_codes value (codes "OFDM") || same_codes value (codes "OFDMA")
          then codes "4096QAM"
          else or_default s.default_key
    ]
