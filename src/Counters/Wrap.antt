-- ===== src/Counters/Wrap.antt =====
-- app/storage/error_counters.py: the unwrapping of 32-bit counters (`unwrap_uint32_counter_series`).
-- The keys have states of their own, so a series is the values of one key, oldest first, with `none`
-- where a row does not have the key or its value is no number. The values are not negative.
pub mod Recovery
pub mod Climbing
use docsight.Prelude.{
  ℕ, zero, suc, ◌+◌, ◌-◌, ◌*◌, ◌/◌, ◌%◌, ◌≤◌, ◌<◌, ◌≡◌, refl, ap, subst, ◌∙◌, Bool, true, false,
  ◌&&◌, Option, none, some, List, [], ◌∷◌, map, ltb, leb, if◌then◌else◌, arith, ◌⊎◌, inl, inr,
}

abbrev pub uint32_counter_size : ℕ
uint32_counter_size = 4294967296

abbrev pub wrap_previous_min : ℕ
wrap_previous_min = 3221225472

abbrev pub wrap_current_max : ℕ
wrap_current_max = 1073741824

-- `_looks_like_uint32_wrap`
unfoldable pub looks_like_wrap : Bool → ℕ → ℕ → Bool
looks_like_wrap allow previous current =
    if leb previous current
    then false
    else if leb wrap_previous_min (previous % uint32_counter_size)
        && leb (current % uint32_counter_size) wrap_current_max
    then true
    else allow && leb wrap_previous_min ((previous - current) % uint32_counter_size)

-- The state of a key; the two previous values are set together.
pub record State : Type 0 where
  pub offset : ℕ
  pub previous : Option (ℕ × ℕ)

abbrev pub start : State
start = record { offset = 0; previous = none }

-- The `while` loop, on fuel.
unfoldable pub raise_offset : ℕ → ℕ → ℕ → ℕ → ℕ
raise_offset zero raw unwrapped offset = offset
raise_offset (suc fuel) raw unwrapped offset =
    let rest = raise_offset fuel raw unwrapped (offset + uint32_counter_size) in
    if leb (raw + offset) unwrapped then rest else offset

abbrev pub fuel_for : ℕ → ℕ
fuel_for unwrapped = unwrapped / uint32_counter_size + 1

-- The offset for a value behind an earlier one.
unfoldable pub next_offset : Bool → ℕ → ℕ × ℕ → ℕ → ℕ
next_offset allow offset (raw, unwrapped) current =
    if looks_like_wrap allow raw current
    then raise_offset (fuel_for unwrapped) current unwrapped (offset + uint32_counter_size)
    else if ltb current raw
    then 0
    else offset

unfoldable pub offset_at : Bool → State → ℕ → ℕ
offset_at allow st current = elim st.previous [
  | none ↦ st.offset
  | some p ↦ next_offset allow st.offset p current
]

unfoldable pub after : Bool → State → ℕ → State
after allow st current =
    let o = offset_at allow st current in
    record { offset = o; previous = some (current, current + o) }

-- `unwrap_uint32_counter_series`, for one key.
unfoldable pub unwrap : Bool → State → List (Option ℕ) → List (Option ℕ)
unwrap allow st [] = []
unwrap allow st (none ∷ rows) = none ∷ unwrap allow st rows
unwrap allow st (some current ∷ rows) =
    some (current + offset_at allow st current) ∷ unwrap allow (after allow st current) rows
