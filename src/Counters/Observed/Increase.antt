-- ===== src/Counters/Observed/Increase.antt =====
-- app/error_counters.py: what an observed increase says.
use docsight.Prelude.{
  ℕ, ◌+◌, ◌-◌, ◌%◌, ◌≤◌, ◌<◌, ◌≡◌, refl, sym, ap, ◌∙◌, ◌≢◌, String, true, false, some, List, [],
  ◌∷◌, all, All, arith, Bool-cases, inl, inr, ◌⊎◌,
}
use docsight.Prelude.Dict.{Dict, lookup}
use docsight.Prelude.Int.{ℤ, pos, ◌+ℤ◌, sub_ℕ}
use docsight.Counters.{Channel, sum}
use docsight.Values.{Value}
use docsight.Counters.Wrap.{uint32_counter_size, looks_like_wrap, offset_at, after, next_offset}
use docsight.Counters.Wrap.Recovery.{ℕ-cases, rising, wrapping}
use docsight.Counters.Observed.{
  is_non_negative, value_at, key_delta, deltas, increase, same_key_set, observed_counter_values,
  observed_counter_increase,
}

-- The growth of a 32-bit counter that rolled over at most once.
abbrev pub grown : ℕ → ℕ → ℕ
grown previous current = (current + uint32_counter_size - previous) % uint32_counter_size

abbrev pub total_grown : Dict ℕ → Dict ℕ → ℕ
total_grown [] later = 0
total_grown ((k, n) ∷ before) later = grown n (value_at later k) + total_grown before later

offset_cases :
    (p c : ℕ)
    → p < uint32_counter_size
    → c < uint32_counter_size
    → ((p ≤ c) × (next_offset false 0 (p, p + 0) c ≡ 0))
      ⊎ ((c < p) × (next_offset false 0 (p, p + 0) c ≡ 0))
      ⊎ ((c < p) × (next_offset false 0 (p, p + 0) c ≡ 0 + uint32_counter_size))
unfolding next_offset
offset_cases p c h k = elim (ℕ-cases p c) [
  | inl l ↦ inl (l, rising false 0 p c (p + 0) l)
  | inr l ↦ elim (Bool-cases (looks_like_wrap false p c)) [
    | inl e ↦ inr (inr (l, wrapping false 0 p c (p + 0) e (omega (arith, h))))
    | inr e ↦ inr (inl (l, rw e (ground arith)))
  ]
]

key_delta_at :
    (p c o : ℕ) → next_offset false 0 (p, p + 0) c ≡ o → key_delta p c ≡ sub_ℕ (c + o) (p + 0)
unfolding key_delta offset_at after
key_delta_at p c o h = rw h refl

sub_ℕ-grown :
    (p c o : ℕ)
    → p < uint32_counter_size
    → c < uint32_counter_size
    → ((p ≤ c) × (o ≡ 0)) ⊎ ((c < p) × (o ≡ uint32_counter_size))
    → sub_ℕ (c + o) (p + 0) ≡ pos (grown p c)
sub_ℕ-grown p c o h k (inl l) =
    let e : c - p ≡ grown p c = omega (arith, h, k, l.0) in ground (arith, l.0, l.1, e)
sub_ℕ-grown p c o h k (inr l) =
    let e : c + o - p ≡ grown p c = omega (arith, h, k, l.0, l.1) in ground (arith, l.0, l.1, h, e)

sub_ℕ-negative : (p c : ℕ) → c < p → is_non_negative (sub_ℕ (c + 0) (p + 0)) ≡ false
sub_ℕ-negative p c h = ground arith

key_delta_lem :
    (p c : ℕ)
    → p < uint32_counter_size
    → c < uint32_counter_size
    → is_non_negative (key_delta p c) ≡ true
    → key_delta p c ≡ pos (grown p c)
key_delta_lem p c h k e = elim (offset_cases p c h k) [
  | inl l ↦ key_delta_at p c 0 l.1 ∙ sub_ℕ-grown p c 0 h k (inl (l.0, refl))
  | inr (inl l) ↦
      let clash : true ≡ false =
        sym e ∙ ap is_non_negative (key_delta_at p c 0 l.1) ∙ sub_ℕ-negative p c l.0 in
      cc
  | inr (inr l) ↦
      key_delta_at p c uint32_counter_size l.1
      ∙ sub_ℕ-grown p c uint32_counter_size h k (inr (l.0, refl))
]

abbrev pub Below : Dict ℕ → Type 0
Below d = All (λ kn. kn.1 < uint32_counter_size) d

value_at-Below : (d : Dict ℕ) → Below d → (k : String) → value_at d k < uint32_counter_size
unfolding lookup
value_at-Below [] h k = omega arith
value_at-Below ((j, n) ∷ d) h k = let rest = value_at-Below d h.1 k in ground (arith, h.0, rest)

add_pos : (a b : ℕ) → pos a +ℤ pos b ≡ pos (a + b)
unfolding ◌+ℤ◌
add_pos a b = ground arith

sum-deltas :
    (before later : Dict ℕ)
    → Below before
    → Below later
    → all is_non_negative (deltas before later) ≡ true
    → sum (deltas before later) ≡ pos (total_grown before later)
unfolding deltas
sum-deltas [] later h k e = refl
sum-deltas ((j, n) ∷ before) later h k e =
    let first = key_delta_lem n (value_at later j) h.0 (value_at-Below later k j) (ground arith) in
    let rest = sum-deltas before later h.1 k (ground arith) in
    rw (first, rest) (add_pos (grown n (value_at later j)) (total_grown before later))

increase_lem :
    (before later : Dict ℕ) {n : ℤ}
    → Below before
    → Below later
    → increase before later ≡ some n
    → (before ≢ []) × (same_key_set before later ≡ true) × (n ≡ pos (total_grown before later))
unfolding increase
increase_lem [] later h k e = ground arith
increase_lem (b ∷ before) later {n} h k e = elim (Bool-cases (same_key_set (b ∷ before) later)) [
  | inr s ↦ ground (arith, s)
  | inl s ↦ elim (Bool-cases (all is_non_negative (deltas (b ∷ before) later))) [
    | inr a ↦ ground (arith, s, a)
    | inl a ↦
        let total = sum-deltas (b ∷ before) later h k a in
        let same : sum (deltas (b ∷ before) later) ≡ n = ground (arith, s, a) in
        (λ z. cc, s, sym same ∙ total)
  ]
]

-- When the observed values of two observations are below 2 ^ 32 and there is an increase, both have the
-- same channels, at least one, and the increase is the sum over the channels of the growth modulo
-- 2 ^ 32.
pub observed_increase_is_growth :
    (previous current : List Channel) (field : Channel → Value) {n : ℤ}
    → Below (observed_counter_values previous field)
    → Below (observed_counter_values current field)
    → observed_counter_increase previous current field ≡ some n
    → let before = observed_counter_values previous field in
      let later = observed_counter_values current field in
      (before ≢ []) × (same_key_set before later ≡ true) × (n ≡ pos (total_grown before later))
unfolding observed_counter_increase increase
observed_increase_is_growth previous current field h k e =
    increase_lem (observed_counter_values previous field) (observed_counter_values current field) h
      k e
