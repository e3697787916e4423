-- ===== src/Counters/Tests.antt =====
-- app/error_counters.py, app/storage/error_counters.py: runs at concrete inputs.
use docsight.Prelude.{
  ◌⊎◌, ◌<◌, ◌+◌, ◌≡◌, refl, ℕ, true, false, Option, none, some, List, [], ◌∷◌, arith, ◌≢◌, All,
}
use docsight.Prelude.Dict.{insert, lookup}
use docsight.Prelude.Int.{◌-ℤ◌, ◌+ℤ◌, ℤ, pos}
use docsight.Counters.{
  Channel, channel_key, ErrorCounterAggregate, aggregate, aggregate_error_counters, read_each,
  sorted, insert_sorted,
}
use docsight.Values.{null, int, written, infinite, counter, int_of_text}
use docsight.Counters.Coverage.{aggregate-Partition, Partition, sum_totals}
use docsight.Counters.Growth.{Baseline, calculate_error_counter_growth}
use docsight.Counters.Growth.Soundness.{
  calculate_error_counter_growth-Sound, Sound, SameChannels, StartsAnew,
}
use docsight.Counters.Wrap.{
  unwrap, start, offset_at, after, next_offset, looks_like_wrap, raise_offset,
}
use docsight.Counters.Wrap.Recovery.{unwrap_recovers}
use docsight.Counters.Wrap.Climbing.{raise_offset_ends, Climbs, unwrap-Climbs}
use docsight.Counters.Observed.{
  values_from, observed, increase, deltas, key_delta, observed_counter_values,
  observed_counter_increase, same_key_set,
}
use docsight.Counters.Observed.Increase.{observed_increase_is_growth, total_grown}

abbrev channel_1 : Channel
channel_1 = record {
  docsis_version = "3.0";
  channel_family = "sc_qam";
  channel_id = "1";
  frequency = "602 MHz";
  correctable_errors = int (pos 40);
  uncorrectable_errors = written " 4_294_967_290 ";
}

abbrev channel_2 : Channel
channel_2 = record channel_1 {
  channel_id = "2";
  correctable_errors = null;
  uncorrectable_errors = int (pos 3);
}

abbrev channel_1_later : Channel
channel_1_later = record channel_1 { uncorrectable_errors = int (pos 4) }

abbrev channels : List Channel
channels = channel_1 ∷ channel_2 ∷ []

int_of_text_test : int_of_text " 4_294 " ≡ some (pos 4294)
unfolding int_of_text
int_of_text_test = refl

overflow_test :
    aggregate_error_counters (record channel_1 { uncorrectable_errors = infinite } ∷ []) ≡ none
unfolding aggregate_error_counters read_each counter int_of_text
overflow_test = refl

abbrev readings : List (Channel × Option ℤ × Option ℤ)
readings = (channel_1, some (pos 40), some (pos 4294967290)) ∷ (channel_2, none, some (pos 3)) ∷ []

abbrev agg : ErrorCounterAggregate
unfolding aggregate
agg = aggregate readings

aggregate-Partition_example :
    (agg.counter_coverage.total_channels ≡ 2)
    × Partition agg.counter_coverage
    × All (λ kc. Partition kc.1) agg.family_coverage
    × (sum_totals agg.family_coverage ≡ 2)
unfolding aggregate_error_counters read_each counter int_of_text
aggregate-Partition_example = aggregate-Partition channels {agg = agg} refl

abbrev baseline : Baseline
baseline = record { corr = none; uncorr = none; raw_uncorr = some (pos 2); channel_keys = none }

-- One more channel and a higher counter.
abbrev wider_agg : ErrorCounterAggregate
wider_agg = record agg {
  comparable_correctable = some (pos 47);
  comparable_channel_keys = "3" ∷ agg.comparable_channel_keys;
}

calculate_error_counter_growth-Sound_example :
    let g = calculate_error_counter_growth wider_agg agg baseline false in
    Sound wider_agg.comparable_correctable g.comparable_correctable
    × Sound wider_agg.comparable_uncorrectable g.comparable_uncorrectable
    × Sound wider_agg.raw_uncorrectable g.raw_uncorrectable
    × (((false ≡ false) × SameChannels wider_agg agg baseline)
        ⊎ (StartsAnew wider_agg.comparable_correctable g.comparable_correctable
            × StartsAnew wider_agg.comparable_uncorrectable g.comparable_uncorrectable))
    × ((false ≡ false) ⊎ StartsAnew wider_agg.raw_uncorrectable g.raw_uncorrectable)
calculate_error_counter_growth-Sound_example =
    calculate_error_counter_growth-Sound wider_agg agg baseline false

wider_test :
    (calculate_error_counter_growth wider_agg agg baseline false).comparable_correctable.total_delta
    ≡ some (pos 0)
unfolding agg calculate_error_counter_growth sorted insert_sorted channel_key ◌-ℤ◌ ◌+ℤ◌
wider_test = refl

abbrev later_agg : ErrorCounterAggregate
later_agg = record agg { comparable_correctable = some (pos 47) }

later_test :
    (calculate_error_counter_growth later_agg agg baseline false).comparable_correctable.total_delta
    ≡ some (pos 7)
unfolding agg calculate_error_counter_growth sorted insert_sorted channel_key ◌-ℤ◌ ◌+ℤ◌
later_test = refl

abbrev true_series : List (Option ℕ)
true_series = some 4294967000 ∷ none ∷ some 4294967400 ∷ some 5000000000 ∷ []

unwrap_recovers_example :
    unwrap false start (some 4294967000 ∷ none ∷ some 104 ∷ some 705032704 ∷ []) ≡ true_series
unwrap_recovers_example =
    unwrap_recovers false true_series
      (omega arith, (omega arith, omega arith, (omega arith, omega arith, tt)))

abbrev reset_series : List (Option ℕ)
reset_series = some 4294967000 ∷ none ∷ some 104 ∷ some 7 ∷ []

unwrap-Climbs_example : Climbs false none reset_series (unwrap false start reset_series)
unwrap-Climbs_example = unwrap-Climbs false reset_series

reset_test :
    unwrap false start reset_series ≡ some 4294967000 ∷ none ∷ some 4294967400 ∷ some 7 ∷ []
unfolding unwrap offset_at after next_offset looks_like_wrap raise_offset
reset_test = refl

observed_test :
    observed_counter_increase
      (channel_1 ∷ [])
      (channel_1_later ∷ [])
      (λ ch. ch.uncorrectable_errors)
    ≡ some (pos 10)
unfolding observed_counter_increase increase deltas key_delta observed_counter_values values_from
    observed counter int_of_text insert lookup offset_at after next_offset looks_like_wrap
    raise_offset ◌+ℤ◌ channel_key
observed_test = refl

observed_increase_is_growth_example :
    let before = observed_counter_values (channel_1 ∷ []) (λ ch. ch.uncorrectable_errors) in
    let later = observed_counter_values (channel_1_later ∷ []) (λ ch. ch.uncorrectable_errors) in
    (before ≢ []) × (same_key_set before later ≡ true) × (pos 10 ≡ pos (total_grown before later))
unfolding observed_counter_values values_from observed counter int_of_text insert lookup
observed_increase_is_growth_example =
    observed_increase_is_growth (channel_1 ∷ []) (channel_1_later ∷ [])
      (λ ch. ch.uncorrectable_errors) {n = pos 10} (omega arith, tt) (omega arith, tt) observed_test

raise_offset_ends_example :
    (8589934595 < 4 + raise_offset 3 4 8589934595 4294967296)
    × (raise_offset 100 4 8589934595 4294967296 ≡ raise_offset 3 4 8589934595 4294967296)
raise_offset_ends_example = raise_offset_ends 100 4 8589934595 4294967296 (omega arith)
