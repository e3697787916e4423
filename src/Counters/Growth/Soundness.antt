-- ===== src/Counters/Growth/Soundness.antt =====
-- app/error_counters.py: the growth that is reported is sound.
use docsight.Prelude.{
  ◌&&◌, eq_iff, List, [], ◌∷◌, String, str_eq, Bool-cases, ◌⊎◌, inl, inr, ◌≡◌, refl, sym, Bool,
  true, false, ◌||◌, Option, none, some, arith,
}
use docsight.Prelude.Int.{ℤ, pos, ◌+ℤ◌, ◌-ℤ◌, ◌≤ℤ◌, eq_of_parts, int_laws}
use docsight.Counters.{ErrorCounterAggregate}
use docsight.Counters.Growth.{
  Baseline, Growth, calculate_error_counter_growth, delta, is_drop, same_keys, or_else, growth,
  baseline_keys, cohort_changed, comparable_reset, raw_reset,
}

-- Each delta that is known is not negative, and the baseline plus the delta is the current value.
abbrev pub Sound : Option ℤ → Growth → Type 0
Sound current g =
    ((d : ℤ) → g.recent_delta ≡ some d → pos 0 ≤ℤ d)
    × ((d : ℤ) → g.total_delta ≡ some d → pos 0 ≤ℤ d)
    × ((n b d : ℤ) → current ≡ some n → g.baseline ≡ some b → g.total_delta ≡ some d → b +ℤ d ≡ n)

add_sub : (c p : ℤ) → p +ℤ (c -ℤ p) ≡ c
add_sub c p = eq_of_parts (p +ℤ (c -ℤ p)) c (omega int_laws)

fresh_sum : (c n b d : ℤ) → some c ≡ some n → some c ≡ some b → some (pos 0) ≡ some d → b +ℤ d ≡ n
fresh_sum c n b d e f g =
    let ec : c ≡ n = ground arith in
    let eb : c ≡ b = ground arith in
    let ed : pos 0 ≡ d = ground arith in
    rw (sym ec, sym eb, sym ed) (eq_of_parts (c +ℤ pos 0) c (omega int_laws))

delta-NonNegative : (o : Option ℤ) → is_drop o ≡ false → (d : ℤ) → o ≡ some d → pos 0 ≤ℤ d
delta-NonNegative none h d e = ground arith
delta-NonNegative (some c) h d e = ground arith

sum_delta : (c p : Option ℤ) (n b d : ℤ) → c ≡ some n → p ≡ some b → delta c p ≡ some d → b +ℤ d ≡ n
sum_delta none p n b d e f g = ground arith
sum_delta (some c) none n b d e f g = ground arith
sum_delta (some c) (some p) n b d e f g =
    let same : c -ℤ p ≡ d = ground arith in
    let ec : c ≡ n = ground arith in
    let ep : p ≡ b = ground arith in rw (sym same, sym ec, sym ep) (add_sub c p)

growth-Sound :
    (fresh : Bool) (current previous base : Option ℤ)
    → (fresh ≡ false → is_drop (delta current previous) ≡ false)
    → (fresh ≡ false → is_drop (delta current base) ≡ false)
    → Sound current (growth fresh current previous base)
unfolding growth
growth-Sound true none previous base h k =
    (λ d e. ground arith, λ d e. ground arith, λ n b d e f g. ground arith)
growth-Sound true (some c) previous base h k =
    (λ d e. ground arith, λ d e. ground arith, λ n b d e f g. fresh_sum c n b d e f g)
growth-Sound false current previous base h k = (
  delta-NonNegative (delta current previous) (h refl),
  delta-NonNegative (delta current base) (k refl),
  sum_delta current base,
)

same_cohort :
    (current previous : ErrorCounterAggregate) (b : Baseline) (force : Bool)
    → (force || comparable_reset current previous b) ≡ false
    → (force ≡ false)
      × (same_keys current.comparable_channel_keys previous.comparable_channel_keys ≡ true)
      × (same_keys current.comparable_channel_keys (baseline_keys b previous) ≡ true)
unfolding comparable_reset cohort_changed
same_cohort current previous b force h = (ground arith, ground arith, ground arith)

and_true : (a b : Bool) → (a && b) ≡ true → (a ≡ true) × (b ≡ true)
and_true a b h = (ground (arith, h), ground (arith, h))

same_keys_eq : (js ks : List String) → same_keys js ks ≡ true → js ≡ ks
same_keys_eq [] [] h = refl
same_keys_eq [] (k ∷ ks) h = ground (arith, h)
same_keys_eq (j ∷ js) [] h = ground (arith, h)
same_keys_eq (j ∷ js) (k ∷ ks) h =
    let both = and_true (str_eq j k) (same_keys js ks) h in
    let first : j ≡ k = (eq_iff j k).0 both.0 in rw (first, same_keys_eq js ks both.1) refl

-- A delta that is not known or 0.
abbrev pub NoGrowth : Option ℤ → Type 0
NoGrowth d = (d ≡ none) ⊎ (d ≡ some (pos 0))

-- A counter starts anew: its value is the baseline and there is no growth.
abbrev pub StartsAnew : Option ℤ → Growth → Type 0
StartsAnew current g = (g.baseline ≡ current) × NoGrowth g.recent_delta × NoGrowth g.total_delta

growth-StartsAnew :
    (fresh : Bool) (current previous base : Option ℤ)
    → fresh ≡ true
    → StartsAnew current (growth fresh current previous base)
unfolding growth
growth-StartsAnew false current previous base h = ground (arith, h)
growth-StartsAnew true none previous base h = (refl, inl refl, inl refl)
growth-StartsAnew true (some c) previous base h = (refl, inr refl, inr refl)

-- The comparable channels are those of the earlier snapshot and those of the stored baseline.
abbrev pub SameChannels : ErrorCounterAggregate → ErrorCounterAggregate → Baseline → Type 0
SameChannels current previous b =
    (current.comparable_channel_keys ≡ previous.comparable_channel_keys)
    × (current.comparable_channel_keys ≡ baseline_keys b previous)

comparable_cohort :
    (current previous : ErrorCounterAggregate) (b : Baseline) (force : Bool)
    → let g = calculate_error_counter_growth current previous b force in
      ((force ≡ false) × SameChannels current previous b)
      ⊎ (StartsAnew current.comparable_correctable g.comparable_correctable
          × StartsAnew current.comparable_uncorrectable g.comparable_uncorrectable)
unfolding calculate_error_counter_growth
comparable_cohort current previous b force =
    let fresh = force || comparable_reset current previous b in
    elim (Bool-cases fresh) [
      | inl e ↦ inr (
        growth-StartsAnew fresh current.comparable_correctable previous.comparable_correctable
            (or_else b.corr previous.comparable_correctable) e,
        growth-StartsAnew fresh current.comparable_uncorrectable previous.comparable_uncorrectable
            (or_else b.uncorr previous.comparable_uncorrectable) e,
      )
      | inr e ↦
          let c = same_cohort current previous b force e in
          inl (c.0, (same_keys_eq _ _ c.1, same_keys_eq _ _ c.2))
    ]

raw_forced :
    (current previous : ErrorCounterAggregate) (b : Baseline) (force : Bool)
    → let g = calculate_error_counter_growth current previous b force in
      (force ≡ false) ⊎ StartsAnew current.raw_uncorrectable g.raw_uncorrectable
unfolding calculate_error_counter_growth
raw_forced current previous b false = inl refl
raw_forced current previous b true = inr (
    growth-StartsAnew true current.raw_uncorrectable previous.raw_uncorrectable
      (or_else b.raw_uncorr previous.raw_uncorrectable) refl)

-- The signs and the sums of all three counters.
all-Sound :
    (current previous : ErrorCounterAggregate) (b : Baseline) (force : Bool)
    → Sound current.comparable_correctable (
        growth
          (force || comparable_reset current previous b)
          current.comparable_correctable
          previous.comparable_correctable
          (or_else b.corr previous.comparable_correctable))
      × Sound current.comparable_uncorrectable (
          growth
            (force || comparable_reset current previous b)
            current.comparable_uncorrectable
            previous.comparable_uncorrectable
            (or_else b.uncorr previous.comparable_uncorrectable))
      × Sound current.raw_uncorrectable (
          growth
            (force || raw_reset current previous b)
            current.raw_uncorrectable
            previous.raw_uncorrectable
            (or_else b.raw_uncorr previous.raw_uncorrectable))
unfolding comparable_reset raw_reset
all-Sound current previous b force = (
  growth-Sound (force || comparable_reset current previous b) _ _ _ (λ h. ground arith)
      (λ h. ground arith),
  growth-Sound (force || comparable_reset current previous b) _ _ _ (λ h. ground arith)
      (λ h. ground arith),
  growth-Sound (force || raw_reset current previous b) _ _ _ (λ h. ground arith)
      (λ h. ground arith),
)

-- The deltas of every counter that are known are not negative, whatever the two aggregates, the stored
-- baseline and the force flag are, and a baseline plus the delta since it is the current value. Either
-- no fresh baseline is forced and the comparable channels are those of the earlier snapshot and those
-- of the baseline, or both comparable counters start anew, with their value as the baseline and no
-- growth: a drop of a counter, or a change of the comparable channels, never
-- shows as negative growth or as growth between different sets of channels. The raw counter starts anew
-- when a fresh baseline is forced.
pub calculate_error_counter_growth-Sound :
    (current previous : ErrorCounterAggregate) (b : Baseline) (force : Bool)
    → let g = calculate_error_counter_growth current previous b force in
      Sound current.comparable_correctable g.comparable_correctable
      × Sound current.comparable_uncorrectable g.comparable_uncorrectable
      × Sound current.raw_uncorrectable g.raw_uncorrectable
      × (((force ≡ false) × SameChannels current previous b)
          ⊎ (StartsAnew current.comparable_correctable g.comparable_correctable
              × StartsAnew current.comparable_uncorrectable g.comparable_uncorrectable))
      × ((force ≡ false) ⊎ StartsAnew current.raw_uncorrectable g.raw_uncorrectable)
unfolding calculate_error_counter_growth
calculate_error_counter_growth-Sound current previous b force =
    let s = all-Sound current previous b force in
    (s.0, s.1, s.2, comparable_cohort current previous b force, raw_forced current previous b force)
