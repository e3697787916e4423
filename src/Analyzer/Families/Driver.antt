-- ===== src/Analyzer/Families/Driver.antt =====
-- app/analyzer.py: the channel that a family's summary names for its health.
use docsight.Prelude.{
  ◌≡◌, refl, sym, ap, Bool, true, ◌&&◌, Option, none, some, List, [], ◌∷◌, keep, any, ◌==◌, arith,
  Bool-cases, inl, inr, ◌⊎◌,
}
use docsight.Docsis.Family.{Family, Direction, ds, us}
use docsight.Analyzer.{Health, good, bad, Level, health_rank}
use docsight.Analyzer.Summary.{Channel}
use docsight.Analyzer.Families.{
  worst_health, distinct_modulation_healths, Cause, modulation_cause, power_cause, HealthDriver,
  DriverValue, driver_value, driver_health, candidate, candidates, same_health, first?,
  family_health_driver,
}
use docsight.Analyzer.Families.Explains.{
  worst_health_attained, known, explains, power_explained, modulation_explained, quality_explained,
}
use docsight.Analyzer.Families.Groups.{
  is_health, value_healths, power_healths, quality_healths, health_cause_of, quality_of,
  quality_cause, prefers_profile, family_summary,
}

-- A driver tells the channel and its health by the cause.
abbrev pub tells : HealthDriver → Channel → Bool
tells d ch = d.channel_id == ch.channel_id && is_health (driver_health d.dimension ch) d.health

abbrev Found : Health → Cause → List Channel → Option HealthDriver → Type 0
Found h c chs driver =
    (d : HealthDriver) × (driver ≡ some d)
    × (health_rank d.health ≡ health_rank h)
    × (d.dimension ≡ c)
    × (any (tells d) chs ≡ true)

-- What a family's summary owes its reader. Only a health that is not good has a cause and a driver.
abbrev pub Explained : List Channel → Option Health → Option Cause → Option HealthDriver → Type 0
Explained chs none cause driver = (cause ≡ none) × (driver ≡ none)
Explained chs (some good) cause driver = (cause ≡ none) × (driver ≡ none)
Explained chs (some (bad l)) cause driver =
    (d : HealthDriver) × (driver ≡ some d)
    × (health_rank d.health ≡ health_rank (bad l))
    × (cause ≡ some d.dimension)
    × (any (tells d) chs ≡ true)

rank_eq : (h k : Health) → same_health h k ≡ true → health_rank h ≡ health_rank k
rank_eq h k e = ground (arith, e)

same_self : (h : Health) → same_health h h ≡ true
same_self h = ground arith

abbrev first_of : Health → List HealthDriver → Option HealthDriver
first_of h all = first? (keep (λ d. same_health d.health h) all)

candidate-Found :
    (f : Family) (c : Cause) (ch : Channel) (v : Option DriverValue) (k : Option Health)
    (h : Health) (rest : List HealthDriver) (chs : List Channel)
    → driver_health c ch ≡ k
    → (known v k h ≡ true) ⊎ Found h c chs (first_of h rest)
    → Found h c (ch ∷ chs) (first_of h (candidate f c ch.channel_id v k rest))
candidate-Found f c ch none k h rest chs dk (inl e) = cc
candidate-Found f c ch none k h rest chs dk (inr (d, e, r, m, t)) = (d, e, r, m, ground (arith, t))
candidate-Found f c ch (some v) none h rest chs dk (inl e) = cc
candidate-Found f c ch (some v) none h rest chs dk (inr (d, e, r, m, t)) =
    (d, e, r, m, ground (arith, t))
candidate-Found f c ch (some v) (some k) h rest chs dk p = elim (Bool-cases (same_health k h)) [
  | inl s ↦
      let q = rank_eq k h s in let o = same_self k in rw s (_, refl, q, refl, ground (arith, dk, o))
  | inr s ↦ elim p [ inl e ↦ cc | inr (d, e, r, m, t) ↦ rw s (d, e, r, m, ground (arith, t)) ]
]

candidates-Found :
    (prefer : Bool) (f : Family) (c : Cause) (h : Health) (chs : List Channel)
    → any (explains prefer c h) chs ≡ true
    → Found h c chs (first_of h (candidates prefer f c chs))
unfolding candidates
candidates-Found prefer f c h [] e = cc
candidates-Found prefer f c h (ch ∷ chs) e =
    candidate-Found f c ch (driver_value prefer c ch) (driver_health c ch) h
      (candidates prefer f c chs) chs refl
      (elim (Bool-cases (explains prefer c h ch)) [
        | inl s ↦ inl s
        | inr s ↦ inr (candidates-Found prefer f c h chs (ground (arith, s)))
      ])

first_is_driver :
    (prefer : Bool) (f : Family) (c : Cause) (l : Level) (chs : List Channel) (d : HealthDriver)
    → first_of (bad l) (candidates prefer f c chs) ≡ some d
    → family_health_driver prefer f chs (some c) (some (bad l)) ≡ some d
unfolding family_health_driver
first_is_driver prefer f c l chs d e = ground (arith, e)

driver_explains :
    (prefer : Bool) (f : Family) (l : Level) (c : Cause) (chs : List Channel)
    → any (explains prefer c (bad l)) chs ≡ true
    → Explained chs
        (some (bad l))
        (some c)
        (family_health_driver prefer f chs (some c) (some (bad l)))
driver_explains prefer f l c chs e =
    let (d, fd, r, m, t) = candidates-Found prefer f c (bad l) chs e in
    (d, first_is_driver prefer f c l chs d fd, r, ap some (sym m), t)

-- The three healths, of which one is the family's.
summary_explains :
    (prefer : Bool) (f : Family) (chs : List Channel)
    (power modulation quality health : Option Health)
    → (health ≡ worst_health (power ∷ modulation ∷ quality ∷ []))
    → ((h : Health) → is_health power h ≡ true → any (explains prefer power_cause h) chs ≡ true)
    → ((h : Health)
        → is_health modulation h ≡ true
        → any (explains prefer modulation_cause h) chs ≡ true)
    → ((h : Health)
        → is_health quality h ≡ true
        → any (explains prefer (quality_cause f) h) chs ≡ true)
    → Explained chs health (health_cause_of health power modulation quality (quality_cause f)) (
        family_health_driver prefer f chs
          (health_cause_of health power modulation quality (quality_cause f))
          health)
unfolding health_cause_of family_health_driver
summary_explains prefer f chs power modulation quality none w p m q = (refl, refl)
summary_explains prefer f chs power modulation quality (some good) w p m q = (refl, refl)
summary_explains prefer f chs power modulation quality (some (bad l)) w p m q =
    elim (Bool-cases (is_health modulation (bad l))) [
      | inl a ↦ rw a (driver_explains prefer f l modulation_cause chs (m (bad l) a))
      | inr a ↦ elim (Bool-cases (is_health power (bad l))) [
        | inl b ↦ rw (a, b) (driver_explains prefer f l power_cause chs (p (bad l) b))
        | inr b ↦ elim (Bool-cases (is_health quality (bad l))) [
          | inl c ↦ rw (a, b, c) (driver_explains prefer f l (quality_cause f) chs (q (bad l) c))
          | inr c ↦
              let some_of = worst_health_attained (bad l) (power ∷ modulation ∷ quality ∷ []) in
              ground (arith, a, b, c, sym w, some_of)
        ]
      ]
    ]

quality_of_explained :
    (dir : Direction) (prefer : Bool) (h : Health) (f : Family) (chs : List Channel)
    → is_health (quality_of dir chs) h ≡ true
    → any (explains prefer (quality_cause f) h) chs ≡ true
quality_of_explained ds prefer h f chs e =
    quality_explained prefer h f chs (worst_health_attained h (quality_healths chs) e)
quality_of_explained us prefer h f chs e = cc

-- For any channels of a family: where its health is tolerated or worse, the summary names a cause, and
-- a driver of that cause whose health is the family's; a channel of the family has the driver's id and,
-- by the cause's measurement, the driver's health. Where the health is good or missing it names neither.
pub family_summary-Explained :
    (dir : Direction) (f : Family) (chs : List Channel)
    → Explained chs
        (family_summary dir f chs).health
        (family_summary dir f chs).health_cause
        (family_summary dir f chs).health_driver
unfolding family_summary
family_summary-Explained dir f chs =
    let prefer : Bool = prefers_profile f in
    let values = distinct_modulation_healths prefer chs in
    summary_explains prefer f chs (worst_health (power_healths chs))
      (worst_health (value_healths values)) (quality_of dir chs) _ refl
      (λ h e. power_explained prefer h chs (worst_health_attained h (power_healths chs) e))
      (λ h e. modulation_explained prefer h chs (worst_health_attained h (value_healths values) e))
      (λ h e. quality_of_explained dir prefer h f chs e)
