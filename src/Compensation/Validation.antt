-- ===== src/Compensation/Validation.antt =====
-- app/modules/de_tkg_compensation/rules.py: what the checks make sure of.
use docsight.Prelude.{
  ℕ, ◌≤◌, ◌≡◌, refl, sym, subst, ◌∙◌, Bool, true, false, Option, none, some, List, [], ◌∷◌, arith,
  Bool-cases, Option-cases, inl, inr, ◌⊎◌, All, all, ◌==◌,
}
use docsight.Prelude.Int.{pos}
use docsight.Compensation.{
  Error, Result, raised, returned, Claim, Fee, cents, CompensationBreakdown, member, sorted_set,
  validate_monthly_fee, check_dates, check_claim_window, check_days, check_replacement, last_day,
  outside_claim_window, outside_window, is_subset,
}
use docsight.Compensation.Outage.{breakdown, check, compute_for, compute_outage_compensation}
use docsight.Compensation.Partition.{member-sorted_set}

pub ℕ_eq_cases : (a b : ℕ) → (a ≡ b) ⊎ ((a == b) ≡ false)
ℕ_eq_cases a b = ground arith

pub Result-cases {ℓ} :
    {A : Type ℓ} (r : Result A) → ((e : Error) × (r ≡ raised e)) ⊎ ((a : A) × (r ≡ returned a))
Result-cases (raised e) = inl (e, refl)
Result-cases (returned a) = inr (a, refl)

-- A result comes from a fee, checks without an error, and the loop.
pub returned_cases :
    (c : Claim) {b : CompensationBreakdown}
    → compute_outage_compensation c ≡ returned b
    → (fee : ℕ) × (validate_monthly_fee c.monthly_fee_cents ≡ returned fee)
      × (check c (sorted_set c.confirmed_full_outage_days) ≡ none)
      × (breakdown c fee (sorted_set c.confirmed_full_outage_days) ≡ b)
unfolding compute_outage_compensation compute_for
returned_cases c {b} h = elim (Result-cases (validate_monthly_fee c.monthly_fee_cents)) [
  | inl (e, v) ↦ ground (arith, v)
  | inr (fee, v) ↦ elim (Option-cases (check c (sorted_set c.confirmed_full_outage_days))) [
    | inl k ↦ (fee, v, k, ground (arith, v, k))
    | inr (e, k) ↦ ground (arith, v, k)
  ]
]

check_cases :
    (c : Claim) (confirmed : List ℕ)
    → check c confirmed ≡ none
    → (check_dates c ≡ none)
      × (check_claim_window c.claim_window_start c.claim_window_end ≡ none)
      × (check_days c confirmed ≡ none)
      × (check_replacement c confirmed ≡ none)
unfolding check
check_cases c confirmed h = ground arith

-- The fault, the restoration and the review date are in order.
abbrev pub InOrder : Claim → Type 0
InOrder c =
    (c.fault_report_received ≤ c.today)
    × (c.fault_report_received ≤ last_day c)
    × (last_day c ≤ c.today)

dates-InOrder : (c : Claim) → check_dates c ≡ none → InOrder c
unfolding check_dates
dates-InOrder c h = ground arith

-- A day of the outage, in the claim window if there is one.
abbrev pub Confirmable : Claim → ℕ → Type 0
Confirmable c day =
    (c.fault_report_received ≤ day)
    × (day ≤ last_day c)
    × ((a b : ℕ)
        → c.claim_window_start ≡ some a
        → c.claim_window_end ≡ some b
        → (a ≤ day) × (day ≤ b))

inside_claim_window :
    (s e : Option ℕ) (day : ℕ)
    → outside_claim_window s e day ≡ false
    → (a b : ℕ) → s ≡ some a
    → e ≡ some b
    → (a ≤ day) × (day ≤ b)
inside_claim_window s e day h a b p q = ground arith

days-Confirmable : (c : Claim) (days : List ℕ) → check_days c days ≡ none → All (Confirmable c) days
unfolding check_days
days-Confirmable c [] h = tt
days-Confirmable c (day ∷ days) h =
    elim (Bool-cases (outside_claim_window c.claim_window_start c.claim_window_end day)) [
      | inl e ↦ ground (arith, e)
      | inr e ↦ elim (Bool-cases (outside_window c day)) [
        | inl f ↦ ground (arith, e, f)
        | inr f ↦
            let rest = days-Confirmable c days (ground (arith, e, f)) in
            let inside = inside_claim_window c.claim_window_start c.claim_window_end day e in
            ((ground (arith, f), ground (arith, f), inside), rest)
      ]
    ]

All-member {ℓ} : (P : ℕ → Type ℓ) (d : ℕ) (xs : List ℕ) → All P xs → member d xs ≡ true → P d
unfolding member
All-member P d [] h k = ground arith
All-member P d (x ∷ xs) h k = elim (ℕ_eq_cases d x) [
  | inl e ↦ subst P (sym e) h.0
  | inr e ↦ All-member P d xs h.1 (ground (arith, e))
]

all-member :
    (p : ℕ → Bool) (d : ℕ) (xs : List ℕ) → all p xs ≡ true → member d xs ≡ true → p d ≡ true
unfolding member
all-member p d [] h k = ground arith
all-member p d (x ∷ xs) h k = elim (ℕ_eq_cases d x) [
  | inl e ↦ subst (λ y. p y ≡ true) (sym e) (ground (arith, h))
  | inr e ↦ all-member p d xs (ground (arith, h)) (ground (arith, e))
]

pub fee_lem : (f : Fee) (n : ℕ) → validate_monthly_fee f ≡ returned n → f ≡ cents (pos n)
unfolding validate_monthly_fee
fee_lem f n h = ground arith

replacement_confirmed :
    (c : Claim) (confirmed : List ℕ)
    → check_replacement c confirmed ≡ none
    → is_subset c.replacement_solution_days confirmed ≡ true
unfolding check_replacement
replacement_confirmed c confirmed h = ground arith

-- A result is only returned for a fee that is an integer from 0, for dates in order, for confirmed days
-- that all lie in the outage and in the claim window (if both its bounds are given), and for
-- replacement days that are all confirmed.
pub compute_checks_claim :
    (c : Claim) {b : CompensationBreakdown}
    → compute_outage_compensation c ≡ returned b
    → ((n : ℕ) × (c.monthly_fee_cents ≡ cents (pos n)))
      × InOrder c
      × ((d : ℕ) → member d c.confirmed_full_outage_days ≡ true → Confirmable c d)
      × ((d : ℕ)
          → member d c.replacement_solution_days ≡ true
          → member d c.confirmed_full_outage_days ≡ true)
compute_checks_claim c h =
    let r = returned_cases c h in
    let days = sorted_set c.confirmed_full_outage_days in
    let k = check_cases c days r.2 in
    let inside = days-Confirmable c days k.2 in
    let subset = replacement_confirmed c days k.3 in
    (
      (r.0, fee_lem c.monthly_fee_cents r.0 r.1),
      dates-InOrder c k.0,
      λ d m.
          All-member (Confirmable c) d days inside
            (member-sorted_set d c.confirmed_full_outage_days ∙ m),
      λ d m.
          sym (member-sorted_set d c.confirmed_full_outage_days)
          ∙ all-member (λ x. member x days) d c.replacement_solution_days subset m,
    )
