-- ===== src/Analyzer/Families/Explains.antt =====
-- app/analyzer.py: every health of a family's summary is that of one of its channels.
use docsight.Prelude.{
  ℕ, ◌≡◌, refl, sym, ap, ◌∙◌, Bool, true, false, ◌||◌, Option, none, some, List, [], ◌∷◌, any,
  arith, Bool-cases, Option-cases, inl, inr,
}
use docsight.Docsis.Family.{Family, sc_qam, ofdm, ofdma, unknown}
use docsight.Analyzer.{Health}
use docsight.Analyzer.Summary.{Channel}
use docsight.Analyzer.Families.{
  worst_health, modulation_value, is_empty, add_value, values_by_health, insert_value, sort_values,
  distinct_modulation_healths, Cause, modulation_cause, power_cause, snr_cause, mer_cause, if_known,
  DriverValue, number_of, driver_value, driver_health, same_health,
}
use docsight.Analyzer.Families.Groups.{
  is_health, value_healths, power_healths, quality_healths, quality_cause,
}

abbrev pub has_health : Health → List (Option Health) → Bool
has_health h hs = any (λ x. is_health x h) hs

pub worst_health_attained :
    (h : Health) (hs : List (Option Health))
    → is_health (worst_health hs) h ≡ true
    → has_health h hs ≡ true
unfolding worst_health
worst_health_attained h [] e = cc
worst_health_attained h (none ∷ hs) e = worst_health_attained h hs e
worst_health_attained h (some k ∷ hs) e = elim (Option-cases (worst_health hs)) [
  | inl w ↦ ground (arith, w)
  | inr (x, w) ↦ let rest = worst_health_attained h hs in ground (arith, w, rest)
]

abbrev pub known : Option DriverValue → Option Health → Health → Bool
known none k h = false
known (some v) k h = is_health k h

-- A channel that explains a health by a cause.
abbrev pub explains : Bool → Cause → Health → Channel → Bool
explains prefer cause h ch = known (driver_value prefer cause ch) (driver_health cause ch) h

pub power_explained :
    (prefer : Bool) (h : Health) (chs : List Channel)
    → has_health h (power_healths chs) ≡ true
    → any (explains prefer power_cause h) chs ≡ true
power_explained prefer h [] e = e
power_explained prefer h (ch ∷ chs) e =
    let rest = power_explained prefer h chs in
    elim (Option-cases ch.power_level) [
      | inl p ↦ ground (arith, p, rest)
      | inr (x, p) ↦ ground (arith, p, rest)
    ]

add_value_attained :
    (h k : Health) (v : List ℕ) (es : List (List ℕ × Health))
    → has_health h (value_healths (add_value v k es)) ≡ true
    → (has_health h (value_healths es) || same_health k h) ≡ true
unfolding add_value
add_value_attained h k v [] e = ground (arith)
add_value_attained h k v ((w, g) ∷ es) e =
    let rest = add_value_attained h k v es in ground (arith, rest)

pub values_explained :
    (prefer : Bool) (h : Health) (chs : List Channel) (es : List (List ℕ × Health))
    → has_health h (value_healths (values_by_health prefer chs es)) ≡ true
    → (has_health h (value_healths es) || any (explains prefer modulation_cause h) chs) ≡ true
unfolding values_by_health
values_explained prefer h [] es e = ground (arith)
values_explained prefer h (ch ∷ chs) es e =
    elim (Bool-cases (is_empty (modulation_value prefer ch))) [
      | inl s ↦ let rest = values_explained prefer h chs es in ground (arith, s, rest)
      | inr s ↦
          let rest =
            values_explained prefer h chs
              (add_value (modulation_value prefer ch) ch.modulation_health es) in
          let add = add_value_attained h ch.modulation_health (modulation_value prefer ch) es in
          ground (arith, s, rest, add)
    ]

insert_value_has :
    (h : Health) (v : List ℕ) (k : Health) (es : List (List ℕ × Health))
    → has_health h (value_healths (insert_value (v, k) es))
      ≡ (same_health k h || has_health h (value_healths es))
unfolding insert_value
insert_value_has h v k [] = refl
insert_value_has h v k ((w, g) ∷ es) = let rest = insert_value_has h v k es in ground (arith, rest)

pub sort_values_has :
    (h : Health) (es : List (List ℕ × Health))
    → has_health h (value_healths (sort_values es)) ≡ has_health h (value_healths es)
unfolding sort_values
sort_values_has h [] = refl
sort_values_has h ((v, k) ∷ es) =
    insert_value_has h v k (sort_values es) ∙ ap (λ b. same_health k h || b) (sort_values_has h es)

ratio_explained :
    (prefer : Bool) (h : Health) (c : Cause) (chs : List Channel)
    → ((ch : Channel)
        → explains prefer c h ch
          ≡ known (number_of ch.snr_level) (if_known ch.snr_level ch.snr_health) h)
    → has_health h (quality_healths chs) ≡ true
    → any (explains prefer c h) chs ≡ true
ratio_explained prefer h c [] q e = e
ratio_explained prefer h c (ch ∷ chs) q e =
    let rest = ratio_explained prefer h c chs q in
    let here = q ch in
    elim (Option-cases ch.snr_level) [
      | inl p ↦ ground (arith, p, here, rest)
      | inr (x, p) ↦ ground (arith, p, here, rest)
    ]

pub quality_explained :
    (prefer : Bool) (h : Health) (f : Family) (chs : List Channel)
    → has_health h (quality_healths chs) ≡ true
    → any (explains prefer (quality_cause f) h) chs ≡ true
quality_explained prefer h ofdm chs e = ratio_explained prefer h mer_cause chs (λ ch. refl) e
quality_explained prefer h ofdma chs e = ratio_explained prefer h snr_cause chs (λ ch. refl) e
quality_explained prefer h sc_qam chs e = ratio_explained prefer h snr_cause chs (λ ch. refl) e
quality_explained prefer h unknown chs e = ratio_explained prefer h snr_cause chs (λ ch. refl) e

-- The modulations of a summary come from its channels.
pub modulation_explained :
    (prefer : Bool) (h : Health) (chs : List Channel)
    → has_health h (value_healths (distinct_modulation_healths prefer chs)) ≡ true
    → any (explains prefer modulation_cause h) chs ≡ true
unfolding distinct_modulation_healths
modulation_explained prefer h chs e =
    values_explained prefer h chs [] (sym (sort_values_has h (values_by_health prefer chs [])) ∙ e)
