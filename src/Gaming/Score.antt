-- ===== src/Gaming/Score.antt =====
-- app/gaming_index.py: the index is its worst component, and falls as the values rise.
use docsight.Prelude.{
  ℕ, ◌≤◌, ◌<◌, ◌≡◌, min, ap, sym, ◌∙◌, true, false, ◌⊎◌, inl, inr, Option, none, some, arith,
  Option-cases, subst, ◌↔◌,
}
use docsight.Gaming.{
  Measure, Reading, Speedtest, number, grade_a, score_latency, score_jitter, score_packet_loss,
  grade, Index, usable, index_of, compute_gaming_index,
}

infix 50 ◌≤m◌
-- m is not above n.
abbrev pub ◌≤m◌ : Measure → Measure → Type 0
m ≤m n =
    (m.hundredths < n.hundredths)
    ⊎ ((m.hundredths ≡ n.hundredths) × (m.has_rest ≡ true → n.has_rest ≡ true))

latency_falls : (m n : Measure) → m ≤m n → score_latency n ≤ score_latency m
unfolding score_latency
latency_falls m n h = ground arith

jitter_falls : (m n : Measure) → m ≤m n → score_jitter n ≤ score_jitter m
unfolding score_jitter
jitter_falls m n h = ground arith

loss_falls : (m n : Measure) → m ≤m n → score_packet_loss n ≤ score_packet_loss m
unfolding score_packet_loss
loss_falls m n h = ground arith

usable_number :
    (r : Reading) (bound : Option ℕ) {m : Measure} → usable r bound ≡ some m → r ≡ number m
unfolding usable
usable_number r bound h = ground arith

usable_bound : (r : Reading) (n : ℕ) {m : Measure} → usable r (some n) ≡ some m → m.hundredths ≤ n
unfolding usable
usable_bound r n h = ground arith

-- The measures behind a result.
compute_cases :
    (s : Speedtest) {i : Index}
    → compute_gaming_index (some s) ≡ some i
    → (p j l : Measure) × (s.ping_ms ≡ number p)
      × (s.jitter_ms ≡ number j)
      × (s.packet_loss_pct ≡ number l)
      × (l.hundredths ≤ 10000)
      × (index_of p j l ≡ i)
unfolding compute_gaming_index
compute_cases s {i} h = elim (Option-cases (usable s.ping_ms none)) [
  | inl e ↦ ground (arith, e)
  | inr (p, ep) ↦ elim (Option-cases (usable s.jitter_ms none)) [
    | inl e ↦ ground (arith, ep, e)
    | inr (j, ej) ↦ elim (Option-cases (usable s.packet_loss_pct (some 10000))) [
      | inl e ↦ ground (arith, ep, ej, e)
      | inr (l, el) ↦ (
        p,
        j,
        l,
        usable_number s.ping_ms none ep,
        usable_number s.jitter_ms none ej,
        usable_number s.packet_loss_pct (some 10000) el,
        usable_bound s.packet_loss_pct 10000 el,
        ground (arith, ep, ej, el),
      )
    ]
  ]
]

index_falls_of :
    (p j l p' j' l' : Measure)
    → p ≤m p'
    → j ≤m j'
    → l ≤m l'
    → (index_of p' j' l').score ≤ (index_of p j l).score
unfolding index_of
index_falls_of p j l p' j' l' hp hj hl =
    let a = latency_falls p p' hp in
    let b = jitter_falls j j' hj in let c = loss_falls l l' hl in omega (arith, a, b, c)

-- A reading is no better than another: where both are numbers, it is not the smaller one.
abbrev pub NoBetter : Reading → Reading → Type 0
NoBetter worse better = (m n : Measure) → worse ≡ number m → better ≡ number n → n ≤m m

-- When two speedtests both have an index and none of the three values of the second is better than that
-- of the first, the second score is not above the first.
pub index_falls :
    (s t : Speedtest) {i k : Index}
    → compute_gaming_index (some s) ≡ some i
    → compute_gaming_index (some t) ≡ some k
    → NoBetter t.ping_ms s.ping_ms
    → NoBetter t.jitter_ms s.jitter_ms
    → NoBetter t.packet_loss_pct s.packet_loss_pct
    → k.score ≤ i.score
index_falls s t {i} {k} h g np nj nl =
    let a = compute_cases s h in
    let b = compute_cases t g in
    let m =
      index_falls_of a.0 a.1 a.2 b.0 b.1 b.2 (np b.0 a.0 b.3 a.3) (nj b.1 a.1 b.4 a.4)
        (nl b.2 a.2 b.5 a.5) in
    subst (λ z. z.score ≤ i.score) b.7 (subst (λ z. (index_of b.0 b.1 b.2).score ≤ z.score) a.7 m)

grade_a_iff : (n : ℕ) → (grade n ≡ grade_a) ↔ (90 ≤ n)
unfolding grade
grade_a_iff n = ground arith

latency_a : (m : Measure) → (90 ≤ score_latency m) ↔ (m.hundredths < 2000)
unfolding score_latency
latency_a m = ground arith

jitter_a : (m : Measure) → (90 ≤ score_jitter m) ↔ (m.hundredths < 500)
unfolding score_jitter
jitter_a m = ground arith

loss_a : (m : Measure) → (90 ≤ score_packet_loss m) ↔ ((m.hundredths ≡ 0) × (m.has_rest ≡ false))
unfolding score_packet_loss
loss_a m = ground arith

pub number_injective : {m n : Measure} → number m ≡ number n → m ≡ n
number_injective {m} h = ap (λ r. elim r [ number k ↦ k | _ ↦ m ]) h

high_min : (a b c : ℕ) → 90 ≤ a → 90 ≤ b → 90 ≤ c → 90 ≤ min (min a b) c
high_min a b c h k l = omega arith

index_of_a :
    (p j l : Measure)
    → ((index_of p j l).letter ≡ grade_a)
      ↔ ((p.hundredths < 2000) × (j.hundredths < 500) × (l.hundredths ≡ 0) × (l.has_rest ≡ false))
unfolding index_of
index_of_a p j l =
    let score = min (min (score_latency p) (score_jitter j)) (score_packet_loss l) in
    let g = grade_a_iff score in
    let a = latency_a p in
    let b = jitter_a j in
    let c = loss_a l in
    (
      λ e.
          let high = g.0 e in
          (
            a.0 (omega (arith, high)),
            b.0 (omega (arith, high)),
            (c.0 (omega (arith, high))).0,
            (c.0 (omega (arith, high))).1,
          ),
      λ h. g.1 (high_min _ _ _ (a.1 h.0) (b.1 h.1) (c.1 (h.2, h.3))),
    )

-- An index of three numbers has the grade A exactly when the ping is below 20 ms, the jitter below 5 ms
-- and the packet loss 0.
pub grade_a_lem :
    (s : Speedtest) (p j l : Measure) {i : Index}
    → s.ping_ms ≡ number p
    → s.jitter_ms ≡ number j
    → s.packet_loss_pct ≡ number l
    → compute_gaming_index (some s) ≡ some i
    → (i.letter ≡ grade_a)
      ↔ ((p.hundredths < 2000) × (j.hundredths < 500) × (l.hundredths ≡ 0) × (l.has_rest ≡ false))
grade_a_lem s p j l {i} hp hj hl h =
    let c = compute_cases s h in
    let ep : c.0 ≡ p = number_injective (sym c.3 ∙ hp) in
    let ej : c.1 ≡ j = number_injective (sym c.4 ∙ hj) in
    let el : c.2 ≡ l = number_injective (sym c.5 ∙ hl) in
    let same : index_of p j l ≡ i =
      ap (λ x. index_of x j l) (sym ep)
      ∙ ap (λ x. index_of c.0 x l) (sym ej)
      ∙ ap (λ x. index_of c.0 c.1 x) (sym el)
      ∙ c.7 in
    subst
      (λ k. (k.letter ≡ grade_a) ↔ (
        (p.hundredths < 2000) × (j.hundredths < 500) × (l.hundredths ≡ 0) × (l.has_rest ≡ false)))
      same (index_of_a p j l)
