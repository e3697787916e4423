-- ===== src/Counters/Wrap/Climbing.antt =====
-- app/storage/error_counters.py: unwrapped values climb between resets; the loop ends.
use docsight.Prelude.{
  ℕ, zero, suc, ◌+◌, ◌*◌, ◌%◌, ◌≤◌, ◌<◌, ◌≡◌, refl, Bool, true, false, Option, none, some, List, [],
  ◌∷◌, ltb, arith, ◌⊎◌, Bool-cases, inl, inr,
}
use docsight.Counters.Wrap.{
  uint32_counter_size, looks_like_wrap, State, start, raise_offset, fuel_for, next_offset,
  offset_at, after, unwrap,
}

raise_offset_above :
    (fuel raw unwrapped offset : ℕ)
    → unwrapped < raw + offset + fuel * uint32_counter_size
    → unwrapped < raw + raise_offset fuel raw unwrapped offset
unfolding raise_offset
raise_offset_above zero raw unwrapped offset h = omega arith
raise_offset_above (suc fuel) raw unwrapped offset h =
    ground (arith, raise_offset_above fuel raw unwrapped (offset + uint32_counter_size))

-- The fuel of the loop is enough: after a rollover the unwrapped value is above the previous one.
pub wrap_grows :
    (allow : Bool) (offset raw unwrapped current : ℕ)
    → looks_like_wrap allow raw current ≡ true
    → unwrapped < current + next_offset allow offset (raw, unwrapped) current
unfolding next_offset
wrap_grows allow offset raw unwrapped current h = rw h (
    raise_offset_above (fuel_for unwrapped) current unwrapped (offset + uint32_counter_size)
      (omega arith))

raise_offset_stops :
    (fuel raw unwrapped offset : ℕ)
    → unwrapped < raw + offset
    → raise_offset fuel raw unwrapped offset ≡ offset
unfolding raise_offset
raise_offset_stops zero raw unwrapped offset h = refl
raise_offset_stops (suc fuel) raw unwrapped offset h = ground (arith, h)

raise_offset_more :
    (fuel more raw unwrapped offset : ℕ)
    → fuel ≤ more
    → unwrapped < raw + offset + fuel * uint32_counter_size
    → raise_offset more raw unwrapped offset ≡ raise_offset fuel raw unwrapped offset
unfolding raise_offset
raise_offset_more zero more raw unwrapped offset l h =
    raise_offset_stops more raw unwrapped offset (omega (arith, h))
raise_offset_more (suc fuel) zero raw unwrapped offset l h = omega (arith, l)
raise_offset_more (suc fuel) (suc more) raw unwrapped offset l h =
    let ih =
      raise_offset_more fuel more raw unwrapped (offset + uint32_counter_size) (omega (arith, l))
        (omega (arith, h)) in
    rw ih refl

-- The loop ends: its condition fails after at most as many rounds as the fuel is, one more than the
-- quotient of the earlier value by 2 ^ 32, and no greater fuel changes the offset that it leaves.
pub raise_offset_ends :
    (more raw unwrapped offset : ℕ)
    → fuel_for unwrapped ≤ more
    → (unwrapped < raw + raise_offset (fuel_for unwrapped) raw unwrapped offset)
      × (raise_offset more raw unwrapped offset
          ≡ raise_offset (fuel_for unwrapped) raw unwrapped offset)
raise_offset_ends more raw unwrapped offset l = (
  raise_offset_above (fuel_for unwrapped) raw unwrapped offset (omega arith),
  raise_offset_more (fuel_for unwrapped) more raw unwrapped offset l (omega arith),
)

raise_offset-multiple :
    (fuel raw unwrapped offset : ℕ)
    → offset % uint32_counter_size ≡ 0
    → raise_offset fuel raw unwrapped offset % uint32_counter_size ≡ 0
unfolding raise_offset
raise_offset-multiple zero raw unwrapped offset h = h
raise_offset-multiple (suc fuel) raw unwrapped offset h = ground (
  arith,
  raise_offset-multiple fuel raw unwrapped (offset + uint32_counter_size) (omega (arith, h)),
)

-- How an unwrapped value goes on from the raw and the unwrapped value before it: it is not below that
-- one, or the raw value fell without the look of a rollover and stands as it is.
abbrev pub GoesOn : Bool → ℕ × ℕ → ℕ → ℕ → Type 0
GoesOn allow (raw, unwrapped) current result =
    (unwrapped ≤ result)
    ⊎ ((current < raw) × (looks_like_wrap allow raw current ≡ false) × (result ≡ current))

abbrev pub Climbs : Bool → Option (ℕ × ℕ) → List (Option ℕ) → List (Option ℕ) → Type 0
Climbs allow p [] [] = Unit
Climbs allow p [] (o ∷ os) = ⊥
Climbs allow p (r ∷ rs) [] = ⊥
Climbs allow p (none ∷ rs) (none ∷ os) = Climbs allow p rs os
Climbs allow p (none ∷ rs) (some o ∷ os) = ⊥
Climbs allow p (some r ∷ rs) (none ∷ os) = ⊥
Climbs allow none (some r ∷ rs) (some o ∷ os) =
    (o % uint32_counter_size ≡ r % uint32_counter_size) × Climbs allow (some (r, o)) rs os
Climbs allow (some p) (some r ∷ rs) (some o ∷ os) =
    (o % uint32_counter_size ≡ r % uint32_counter_size)
    × GoesOn allow p r o
    × Climbs allow (some (r, o)) rs os

ltb_cases : (a b : ℕ) → ((ltb a b ≡ true) × (a < b)) ⊎ ((ltb a b ≡ false) × (b ≤ a))
ltb_cases a b = ground arith

next_offset_lem :
    (allow : Bool) (offset raw unwrapped current : ℕ)
    → unwrapped ≡ raw + offset
    → offset % uint32_counter_size ≡ 0
    → (next_offset allow offset (raw, unwrapped) current % uint32_counter_size ≡ 0)
      × GoesOn allow
          (raw, unwrapped)
          current
          (current + next_offset allow offset (raw, unwrapped) current)
unfolding next_offset
next_offset_lem allow offset raw unwrapped current k h =
    elim (Bool-cases (looks_like_wrap allow raw current)) [
      | inl e ↦
          let grows = wrap_grows allow offset raw unwrapped current e in
          let multiple =
            raise_offset-multiple (fuel_for unwrapped) current unwrapped
              (offset + uint32_counter_size) (omega (arith, h)) in
          (rw e multiple, inl (omega (arith, grows)))
      | inr e ↦ elim (ltb_cases current raw) [
        | inl l ↦ (rw (e, l.0) refl, inr (l.1, e, rw (e, l.0) (omega arith)))
        | inr l ↦ (rw (e, l.0) h, rw (e, l.0) (inl (omega (arith, l.1, k))))
      ]
    ]

state_at : Option (ℕ × ℕ) → ℕ → State
state_at p o = record { offset = o; previous = p }

-- The offset of a state, by the previous values.
abbrev Offset : Option (ℕ × ℕ) → ℕ → Type 0
Offset none o = o ≡ 0
Offset (some (raw, unwrapped)) o = (unwrapped ≡ raw + o) × (o % uint32_counter_size ≡ 0)

add_multiple :
    (r o : ℕ)
    → o % uint32_counter_size ≡ 0
    → (r + o) % uint32_counter_size ≡ r % uint32_counter_size
add_multiple r o h = omega (arith, h)

unwrap-Climbs_from :
    (allow : Bool) (p : Option (ℕ × ℕ)) (o : ℕ) (rs : List (Option ℕ))
    → Offset p o
    → Climbs allow p rs (unwrap allow (state_at p o) rs)
unfolding unwrap offset_at after state_at
unwrap-Climbs_from allow p o [] h = tt
unwrap-Climbs_from allow none o (none ∷ rs) h = unwrap-Climbs_from allow none o rs h
unwrap-Climbs_from allow (some p) o (none ∷ rs) h = unwrap-Climbs_from allow (some p) o rs h
unwrap-Climbs_from allow none o (some r ∷ rs) h = (
  add_multiple r o (omega (arith, h)),
  unwrap-Climbs_from allow (some (r, r + o)) o rs (refl, omega (arith, h)),
)
unwrap-Climbs_from allow (some (raw, unwrapped)) o (some r ∷ rs) h =
    let step = next_offset_lem allow o raw unwrapped r h.0 h.1 in
    (
      add_multiple r (next_offset allow o (raw, unwrapped) r) step.0,
      step.1,
      unwrap-Climbs_from allow (some (r, r + next_offset allow o (raw, unwrapped) r))
          (next_offset allow o (raw, unwrapped) r) rs (refl, step.0),
    )

-- Whatever the values of a series are, the unwrapped series is missing where the series is, agrees with
-- it modulo 2 ^ 32, and never falls, except where the raw value fell without the look of a rollover:
-- there it starts again at the raw value.
pub unwrap-Climbs :
    (allow : Bool) (rs : List (Option ℕ)) → Climbs allow none rs (unwrap allow start rs)
unfolding state_at
unwrap-Climbs allow rs = unwrap-Climbs_from allow none 0 rs refl
