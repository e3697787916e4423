-- ===== src/Counters/Growth.antt =====
-- app/error_counters.py: the growth of the counters between two aggregates
-- (`calculate_error_counter_growth`).
pub mod Soundness
use docsight.Prelude.{
  ◌≢◌, ◌⊎◌, inl, inr, ◌≡◌, refl, sym, String, str_eq, Bool, true, false, not, ◌&&◌, ◌||◌, Option,
  none, some, List, [], ◌∷◌, if◌then◌else◌, arith,
}
use docsight.Prelude.Int.{ℤ, pos, ◌+ℤ◌, ◌-ℤ◌, ◌≤ℤ◌, ltb_ℤ, eq_of_parts, int_laws}
use docsight.Counters.{ErrorCounterAggregate}

-- The baseline that is stored with the earlier snapshot; its values are read by `_counter`.
pub record Baseline : Type 0 where
  pub corr : Option ℤ
  pub uncorr : Option ℤ
  pub raw_uncorr : Option ℤ
  pub channel_keys : Option (List String)

-- What the growth of one counter is: the baseline, the recent delta and the delta since the baseline.
pub record Growth : Type 0 where
  pub baseline : Option ℤ
  pub recent_delta : Option ℤ
  pub total_delta : Option ℤ

pub record ErrorCounterGrowth : Type 0 where
  pub comparable_correctable : Growth
  pub comparable_uncorrectable : Growth
  pub raw_uncorrectable : Growth
  pub comparable_channel_keys : List String
  pub comparable_counter_reset : Bool
  pub raw_uncorrectable_counter_reset : Bool
  pub schema_baseline : Bool

-- `_delta`
abbrev pub delta : Option ℤ → Option ℤ → Option ℤ
delta (some c) (some p) = some (c -ℤ p)
delta (some c) none = none
delta none p = none

-- `delta is not None and delta < 0`
abbrev pub is_drop : Option ℤ → Bool
is_drop none = false
is_drop (some d) = ltb_ℤ d (pos 0)

abbrev pub same_keys : List String → List String → Bool
same_keys [] [] = true
same_keys [] (k ∷ ks) = false
same_keys (j ∷ js) [] = false
same_keys (j ∷ js) (k ∷ ks) = str_eq j k && same_keys js ks

-- `base if base is not None else previous`
abbrev pub or_else : Option ℤ → Option ℤ → Option ℤ
or_else none p = p
or_else (some b) p = some b

abbrev pub zero_if_known : Option ℤ → Option ℤ
zero_if_known none = none
zero_if_known (some n) = some (pos 0)

-- The two branches of a counter: a fresh baseline, or the deltas.
unfoldable pub growth : Bool → Option ℤ → Option ℤ → Option ℤ → Growth
growth fresh current previous base =
    if fresh
    then record {
      baseline = current;
      recent_delta = zero_if_known current;
      total_delta = zero_if_known current;
    }
    else record {
      baseline = base;
      recent_delta = delta current previous;
      total_delta = delta current base;
    }

abbrev pub baseline_keys : Baseline → ErrorCounterAggregate → List String
baseline_keys b previous = elim b.channel_keys [
  | none ↦ previous.comparable_channel_keys
  | some ks ↦ ks
]

-- `cohort_changed`
unfoldable pub cohort_changed : ErrorCounterAggregate → ErrorCounterAggregate → Baseline → Bool
cohort_changed current previous b =
    not (same_keys current.comparable_channel_keys previous.comparable_channel_keys)
    || not (same_keys current.comparable_channel_keys (baseline_keys b previous))

-- `comparable_reset`
unfoldable pub comparable_reset : ErrorCounterAggregate → ErrorCounterAggregate → Baseline → Bool
unfolding cohort_changed
comparable_reset current previous b =
    cohort_changed current previous b
    || is_drop (delta current.comparable_correctable previous.comparable_correctable)
    || is_drop (delta current.comparable_uncorrectable previous.comparable_uncorrectable)
    || is_drop
        (delta current.comparable_correctable (or_else b.corr previous.comparable_correctable))
    || is_drop (
        delta current.comparable_uncorrectable (or_else b.uncorr previous.comparable_uncorrectable))

-- `raw_reset`
unfoldable pub raw_reset : ErrorCounterAggregate → ErrorCounterAggregate → Baseline → Bool
raw_reset current previous b =
    is_drop (delta current.raw_uncorrectable previous.raw_uncorrectable)
    || is_drop (delta current.raw_uncorrectable (or_else b.raw_uncorr previous.raw_uncorrectable))

-- `calculate_error_counter_growth`
unfoldable pub calculate_error_counter_growth :
    ErrorCounterAggregate → ErrorCounterAggregate → Baseline → Bool → ErrorCounterGrowth
unfolding comparable_reset raw_reset growth
calculate_error_counter_growth current previous b force =
    let reset = comparable_reset current previous b in
    let raw = raw_reset current previous b in
    record {
      comparable_correctable =
          growth (force || reset) current.comparable_correctable previous.comparable_correctable
            (or_else b.corr previous.comparable_correctable);
      comparable_uncorrectable =
          growth (force || reset) current.comparable_uncorrectable previous.comparable_uncorrectable
            (or_else b.uncorr previous.comparable_uncorrectable);
      raw_uncorrectable =
          growth (force || raw) current.raw_uncorrectable previous.raw_uncorrectable
            (or_else b.raw_uncorr previous.raw_uncorrectable);
      comparable_channel_keys = current.comparable_channel_keys;
      comparable_counter_reset = reset && not force;
      raw_uncorrectable_counter_reset = raw && not force;
      schema_baseline = force;
    }
