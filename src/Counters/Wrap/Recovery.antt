-- ===== src/Counters/Wrap/Recovery.antt =====
-- app/storage/error_counters.py: a slow counter is recovered from its 32-bit values.
use docsight.Prelude.{
  ℕ, zero, suc, ◌+◌, ◌*◌, ◌/◌, ◌%◌, ◌≤◌, ◌<◌, ◌≡◌, refl, ap, subst, ◌∙◌, Bool, true, Option, none,
  some, List, [], ◌∷◌, map, arith, ◌⊎◌, inl, inr,
}
use docsight.Counters.Wrap.{
  uint32_counter_size, wrap_previous_min, wrap_current_max, looks_like_wrap, State, start,
  raise_offset, fuel_for, next_offset, offset_at, after, unwrap,
}

-- The counter itself, which a device reports modulo 2 ^ 32: it starts below 2 ^ 32, does not fall, and
-- grows by at most a quarter of 2 ^ 32 between two values that are present.
abbrev pub GrowsSlowly : Option ℕ → List (Option ℕ) → Type 0
GrowsSlowly p [] = Unit
GrowsSlowly p (none ∷ ts) = GrowsSlowly p ts
GrowsSlowly none (some t ∷ ts) = (t < uint32_counter_size) × GrowsSlowly (some t) ts
GrowsSlowly (some p) (some t ∷ ts) = (p ≤ t) × (t ≤ p + wrap_current_max) × GrowsSlowly (some t) ts

abbrev pub reported : Option ℕ → Option ℕ
reported none = none
reported (some t) = some (t % uint32_counter_size)

pub ℕ-cases : (a b : ℕ) → (a ≤ b) ⊎ (b < a)
ℕ-cases a b = omega arith

raise_offset_done :
    (fuel raw unwrapped offset : ℕ)
    → unwrapped < raw + offset
    → raise_offset fuel raw unwrapped offset ≡ offset
unfolding raise_offset
raise_offset_done zero raw unwrapped offset h = refl
raise_offset_done (suc fuel) raw unwrapped offset h = ground arith

-- The quotients by 2 ^ 32, by whether the remainder falls.
quotient_lem :
    (p t : ℕ)
    → p ≤ t
    → t ≤ p + wrap_current_max
    → (p % uint32_counter_size ≤ t % uint32_counter_size
        → p / uint32_counter_size ≡ t / uint32_counter_size)
      × (t % uint32_counter_size < p % uint32_counter_size
          → (p / uint32_counter_size + 1 ≡ t / uint32_counter_size)
            × (wrap_previous_min ≤ p % uint32_counter_size)
            × (t % uint32_counter_size ≤ wrap_current_max))
quotient_lem p t h k = (λ l. omega arith, λ l. (omega arith, omega arith, omega arith))

pub rising : (allow : Bool) (offset r c u : ℕ) → r ≤ c → next_offset allow offset (r, u) c ≡ offset
unfolding next_offset looks_like_wrap
rising allow offset r c u h = ground arith

wraps :
    (allow : Bool) (r c : ℕ)
    → c < r
    → wrap_previous_min ≤ r
    → r < uint32_counter_size
    → c ≤ wrap_current_max
    → looks_like_wrap allow r c ≡ true
unfolding looks_like_wrap
wraps allow r c h k l m =
    let same : r % uint32_counter_size ≡ r = omega arith in
    let same' : c % uint32_counter_size ≡ c = omega arith in rw (same, same') (ground arith)

pub wrapping :
    (allow : Bool) (offset r c u : ℕ)
    → looks_like_wrap allow r c ≡ true
    → u < c + (offset + uint32_counter_size)
    → next_offset allow offset (r, u) c ≡ offset + uint32_counter_size
unfolding next_offset
wrapping allow offset r c u h k =
    rw h (raise_offset_done (fuel_for u) c u (offset + uint32_counter_size) k)

next_offset_lem :
    (allow : Bool) (p t : ℕ)
    → p ≤ t
    → t ≤ p + wrap_current_max
    → next_offset allow
        (p / uint32_counter_size * uint32_counter_size)
        (p % uint32_counter_size, p)
        (t % uint32_counter_size)
      ≡ t / uint32_counter_size * uint32_counter_size
next_offset_lem allow p t h k =
    let q = quotient_lem p t h k in
    let o = p / uint32_counter_size * uint32_counter_size in
    let r = p % uint32_counter_size in
    let c = t % uint32_counter_size in
    elim (ℕ-cases r c) [
      | inl e ↦ rising allow o r c p e ∙ ap (λ x. x * uint32_counter_size) (q.0 e)
      | inr e ↦
          let f = q.1 e in
          wrapping allow o r c p (wraps allow r c e f.1 (omega arith) f.2) (omega arith)
          ∙ omega (arith, f.0)
    ]

known_state : ℕ → State
known_state p = record {
  offset = p / uint32_counter_size * uint32_counter_size;
  previous = some (p % uint32_counter_size, p);
}

state_of : Option ℕ → State
unfolding known_state
state_of none = start
state_of (some p) = known_state p

split_lem : (t : ℕ) → t % uint32_counter_size + t / uint32_counter_size * uint32_counter_size ≡ t
split_lem t = omega arith

unwrap-reported :
    (allow : Bool) (p : Option ℕ) (ts : List (Option ℕ))
    → GrowsSlowly p ts
    → unwrap allow (state_of p) (map reported ts) ≡ ts
unfolding unwrap after offset_at state_of known_state
unwrap-reported allow p [] h = refl
unwrap-reported allow p (none ∷ ts) h = ap (λ xs. none ∷ xs) (unwrap-reported allow p ts h)
unwrap-reported allow none (some t ∷ ts) h =
    let first : t % uint32_counter_size + 0 ≡ t = omega (arith, h.0) in
    let zeroth : t / uint32_counter_size * uint32_counter_size ≡ 0 = omega (arith, h.0) in
    let rest =
      subst
        (λ o.
          unwrap allow (record { offset = o; previous = some (t % uint32_counter_size, t) })
            (map reported ts)
          ≡ ts)
        zeroth (unwrap-reported allow (some t) ts h.1) in
    rw first (ap (λ xs. some t ∷ xs) rest)
unwrap-reported allow (some p) (some t ∷ ts) h =
    rw (next_offset_lem allow p t h.0 h.1, split_lem t)
      (ap (λ xs. some t ∷ xs) (unwrap-reported allow (some t) ts h.2))

-- A counter that starts below 2 ^ 32, never falls, and grows by at most a quarter of 2 ^ 32 between two
-- values that are present, is recovered exactly from the values modulo 2 ^ 32 that the device reports,
-- over any number of rollovers and gaps, with and without the rule for aggregates.
pub unwrap_recovers :
    (allow : Bool) (ts : List (Option ℕ))
    → GrowsSlowly none ts
    → unwrap allow start (map reported ts) ≡ ts
unfolding state_of
unwrap_recovers allow ts h = unwrap-reported allow none ts h
