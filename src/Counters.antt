-- ===== src/Counters.antt =====
-- app/error_counters.py: the channels, their coverage and their totals. `none` of the aggregation is the
-- `OverflowError` of `_counter`.
pub mod Wrap
pub mod Growth
pub mod Coverage
pub mod Observed
mod Tests
use Prim.Native.Char.{code}
use Prim.Native.String.{compare, ◌++◌ as str_append}
use text.Mathlib.Text.{is_le}
use docsight.Prelude.{
  ℕ, zero, suc, ◌+◌, ◌-◌, ◌*◌, String, str_eq, Bool, true, false, not, ◌&&◌, ◌||◌, Option, none,
  some, List, [], ◌∷◌, ◌++◌, map, length, count_if, keep, any, ◌>>=◌, ltb, leb, ◌==◌, if◌then◌else◌,
}
use docsight.Prelude.Dict.{Dict, lookup, insert}
use docsight.Prelude.Int.{ℤ, pos, negsuc, ◌+ℤ◌, ◌-ℤ◌, ltb_ℤ, sub_ℕ}
use docsight.Values.{Value, counter}

-- A channel; the identifying fields are their texts, empty where the value is missing or false.
pub record Channel : Type 0 where
  pub docsis_version : String
  pub channel_family : String
  pub channel_id : String
  pub frequency : String
  pub correctable_errors : Value
  pub uncorrectable_errors : Value

-- `_channel_key`
pub channel_key : Channel → String
channel_key ch = str_append ch.docsis_version (
    str_append "|" (
      str_append ch.channel_family
        (str_append "|" (str_append ch.channel_id (str_append "|" ch.frequency)))))

pub record CounterCoverage : Type 0 where
  pub total_channels : ℕ
  pub correctable_channels : ℕ
  pub uncorrectable_channels : ℕ
  pub comparable_channels : ℕ
  pub partial_channels : ℕ
  pub unsupported_channels : ℕ

-- A channel with its two counters read.
abbrev pub Reading : Type 0
Reading = Channel × Option ℤ × Option ℤ

abbrev pub known : Option ℤ → Bool
known none = false
known (some n) = true

abbrev pub has_corr : Reading → Bool
has_corr (ch, corr, uncorr) = known corr

abbrev pub has_uncorr : Reading → Bool
has_uncorr (ch, corr, uncorr) = known uncorr

abbrev pub is_comparable : Reading → Bool
is_comparable (ch, corr, uncorr) = known corr && known uncorr

abbrev pub is_unsupported : Reading → Bool
is_unsupported (ch, corr, uncorr) = not (known corr) && not (known uncorr)

-- The counters of every channel, read; `none` is the `OverflowError`.
unfoldable pub read_each : List Channel → Option (List Reading)
read_each [] = some []
read_each (ch ∷ chs) = do
  corr ← counter ch.correctable_errors
  uncorr ← counter ch.uncorrectable_errors
  rest ← read_each chs
  some ((ch, corr, uncorr) ∷ rest)

-- `_coverage`
unfoldable pub coverage : List Reading → CounterCoverage
coverage rs = record {
  total_channels = length rs;
  correctable_channels = count_if has_corr rs;
  uncorrectable_channels = count_if has_uncorr rs;
  comparable_channels = count_if is_comparable rs;
  partial_channels = length rs - count_if is_comparable rs - count_if is_unsupported rs;
  unsupported_channels = count_if is_unsupported rs;
}

-- `families.setdefault(family, []).append(channel)`
unfoldable pub add_to : String → Reading → Dict (List Reading) → Dict (List Reading)
add_to k r [] = (k, r ∷ []) ∷ []
add_to k r ((j, rs) ∷ d) = if str_eq j k then (j, rs ++ r ∷ []) ∷ d else (j, rs) ∷ add_to k r d

abbrev pub family_of : Reading → String
family_of (ch, corr, uncorr) = if str_eq ch.channel_family "" then "unknown" else ch.channel_family

unfoldable pub group : List Reading → Dict (List Reading) → Dict (List Reading)
group [] d = d
group (r ∷ rs) d = group rs (add_to (family_of r) r d)

-- The values that are not missing.
abbrev pub available : List (Option ℤ) → List ℤ
available [] = []
available (none ∷ os) = available os
available (some n ∷ os) = n ∷ available os

abbrev pub sum : List ℤ → ℤ
sum [] = pos 0
sum (n ∷ ns) = n +ℤ sum ns

-- `sum(values) if values else None`
abbrev pub sum? : List ℤ → Option ℤ
sum? [] = none
sum? (n ∷ ns) = some (sum (n ∷ ns))

abbrev pub corr_of : Reading → Option ℤ
corr_of (ch, corr, uncorr) = corr

abbrev pub uncorr_of : Reading → Option ℤ
uncorr_of (ch, corr, uncorr) = uncorr

abbrev pub key_of : Reading → String
key_of (ch, corr, uncorr) = channel_key ch

pub insert_sorted : String → List String → List String
insert_sorted k [] = k ∷ []
insert_sorted k (j ∷ js) = if is_le (compare k j) then k ∷ j ∷ js else j ∷ insert_sorted k js

-- `sorted(keys)`
pub sorted : List String → List String
sorted [] = []
sorted (k ∷ ks) = insert_sorted k (sorted ks)

pub record ErrorCounterAggregate : Type 0 where
  pub raw_correctable : Option ℤ
  pub raw_uncorrectable : Option ℤ
  pub comparable_correctable : Option ℤ
  pub comparable_uncorrectable : Option ℤ
  pub counter_coverage : CounterCoverage
  pub family_coverage : Dict CounterCoverage
  pub comparable_channel_keys : List String

abbrev pub cover_group : String × List Reading → String × CounterCoverage
cover_group (k, rs) = (k, coverage rs)

pub aggregate : List Reading → ErrorCounterAggregate
aggregate rs =
    let comparable = keep is_comparable rs in
    record {
      raw_correctable = sum? (available (map corr_of rs));
      raw_uncorrectable = sum? (available (map uncorr_of rs));
      comparable_correctable = sum? (available (map corr_of comparable));
      comparable_uncorrectable = sum? (available (map uncorr_of comparable));
      counter_coverage = coverage rs;
      family_coverage = map cover_group (group rs []);
      comparable_channel_keys = sorted (map key_of comparable);
    }

-- `aggregate_error_counters`
unfoldable pub aggregate_error_counters : List Channel → Option ErrorCounterAggregate
unfolding aggregate
aggregate_error_counters chs = elim (read_each chs) [ none ↦ none | some rs ↦ some (aggregate rs) ]
