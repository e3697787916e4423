-- ===== src/Counters/Observed.antt =====
-- app/error_counters.py: the growth between two observations of the same channels
-- (`observed_counter_values`, `observed_counter_increase`).
pub mod Increase
use docsight.Prelude.{
  ℕ, zero, suc, ◌+◌, ◌-◌, ◌%◌, ◌≤◌, ◌<◌, ◌≡◌, refl, sym, ap, ◌∙◌, ◌≢◌, String, Bool, true, false,
  not, ◌&&◌, ◌||◌, Option, none, some, List, [], ◌∷◌, map, all, All, if◌then◌else◌, arith,
  Bool-cases, Option-cases, inl, inr, ltb, ◌⊎◌,
}
use docsight.Prelude.Dict.{Dict, lookup, insert}
use docsight.Prelude.Int.{ℤ, pos, negsuc, ◌+ℤ◌, sub_ℕ, ltb_ℤ}
use docsight.Counters.{Channel, channel_key, sum}
use docsight.Values.{Value, flag, real, counter, null, int, nan, infinite, written, other}
use docsight.Counters.Wrap.{
  uint32_counter_size, wrap_previous_min, wrap_current_max, looks_like_wrap, start, offset_at,
  after, next_offset,
}
use docsight.Counters.Wrap.Recovery.{ℕ-cases, rising, wrapping}

-- `isinstance(raw, bool) or isinstance(raw, float) and raw != value`; a value that is no number is no
-- float's either.
abbrev pub is_refused : Value → Bool
is_refused (flag b) = true
is_refused (real n exact) = not exact
is_refused nan = true
is_refused infinite = true
is_refused v = false

abbrev pub non_negative : Option ℤ → Option ℕ
non_negative none = none
non_negative (some (pos n)) = some n
non_negative (some (negsuc n)) = none

-- The value of a channel, if it is valid.
unfoldable pub observed : Value → Option ℕ
unfolding counter
observed v =
    if is_refused v then none else elim (counter v) [ none ↦ none | some o ↦ non_negative o ]

unfoldable pub values_from : (Channel → Value) → List Channel → Dict ℕ → Dict ℕ
unfolding observed
values_from field [] d = d
values_from field (ch ∷ chs) d = elim (observed (field ch)) [
  | none ↦ values_from field chs d
  | some n ↦ elim (lookup (channel_key ch) d) [
    | none ↦ values_from field chs (insert (channel_key ch) n d)
    | some m ↦ []
  ]
]

-- `observed_counter_values`
unfoldable pub observed_counter_values : List Channel → (Channel → Value) → Dict ℕ
observed_counter_values chs field = values_from field chs []

abbrev pub has_key : Dict ℕ → String → Bool
has_key d k = elim (lookup k d) [ none ↦ false | some n ↦ true ]

abbrev pub keys : Dict ℕ → List String
keys [] = []
keys ((k, n) ∷ d) = k ∷ keys d

abbrev pub same_key_set : Dict ℕ → Dict ℕ → Bool
same_key_set d e = all (has_key e) (keys d) && all (has_key d) (keys e)

-- The second of the two rows of a key, unwrapped, less the first.
unfoldable pub key_delta : ℕ → ℕ → ℤ
key_delta previous current =
    let st = after false start previous in
    sub_ℕ (current + offset_at false st current) (previous + offset_at false start previous)

abbrev pub value_at : Dict ℕ → String → ℕ
value_at d k = elim (lookup k d) [ none ↦ 0 | some n ↦ n ]

unfoldable pub deltas : Dict ℕ → Dict ℕ → List ℤ
deltas [] later = []
deltas ((k, n) ∷ before) later = key_delta n (value_at later k) ∷ deltas before later

abbrev pub is_non_negative : ℤ → Bool
is_non_negative (pos n) = true
is_non_negative (negsuc n) = false

unfoldable pub increase : Dict ℕ → Dict ℕ → Option ℤ
increase [] later = none
increase (e ∷ before) later =
    let ds = deltas (e ∷ before) later in
    if not (same_key_set (e ∷ before) later)
    then none
    else if all is_non_negative ds
    then some (sum ds)
    else none

-- `observed_counter_increase`
unfoldable pub observed_counter_increase :
    List Channel → List Channel → (Channel → Value) → Option ℤ
unfolding increase observed_counter_values
observed_counter_increase previous current field =
    increase (observed_counter_values previous field) (observed_counter_values current field)
