-- ===== src/Compensation/Amounts.antt =====
-- app/modules/de_tkg_compensation/rules.py: the days and the amounts of a result.
use docsight.Prelude.{
  ℕ, ◌+◌, ◌-◌, ◌*◌, ◌/◌, ◌≤◌, max, ◌≡◌, String, refl, sym, ap, subst, ◌∙◌, false, some, List, [],
  ◌∷◌, if◌then◌else◌, arith, Bool-cases, inl, inr, All, ltb,
}
use docsight.Prelude.Int.{pos}
use docsight.Compensation.{
  returned, Claim, cents, CompensationBreakdown, DailyEntitlement, member, sorted_set,
  percentage_amount, entitlement, entitlement_for_index,
}
use docsight.Compensation.Outage.{
  outcome, outcomes, entitlements_of, total, breakdown, compute_outage_compensation,
}
use docsight.Compensation.Partition.{
  decided, decided_outcomes, count_once, sorted_set-Ascending, member-sorted_set,
}
use docsight.Compensation.Validation.{returned_cases, fee_lem}

-- Each day of the input stands once in the result, as an entitlement or as an exclusion, however often
-- and in whatever order the input names it; no other day stands there.
pub day_decided_once :
    (c : Claim) {b : CompensationBreakdown} (d : ℕ)
    → compute_outage_compensation c ≡ returned b
    → decided d b ≡ (if member d c.confirmed_full_outage_days then 1 else 0)
day_decided_once c d h =
    let r = returned_cases c h in
    let days = sorted_set c.confirmed_full_outage_days in
    ap (decided d) (sym r.3)
    ∙ decided_outcomes d r.0 c days
    ∙ count_once d days (sorted_set-Ascending c.confirmed_full_outage_days)
    ∙ ap (λ b. if b then 1 else 0) (member-sorted_set d c.confirmed_full_outage_days)

-- What § 58 gives for a day, by its index: the larger of a flat amount and a share of the monthly fee,
-- with half a cent rounded up.
abbrev pub statutory_cents : ℕ → ℕ → ℕ
statutory_cents fee index =
    if ltb index 5 then max 500 ((fee * 10 + 50) / 100) else max 1000 ((fee * 20 + 50) / 100)

-- An entitlement of a claim: the third day after the receipt or later, not a replacement day.
abbrev pub IsEntitled : Claim → ℕ → DailyEntitlement → Type 0
IsEntitled c fee e =
    (d : ℕ) × (e.date ≡ some d)
    × (e.day_index ≡ d - c.fault_report_received)
    × (3 ≤ e.day_index)
    × (member d c.replacement_solution_days ≡ false)
    × (e.amount_cents ≡ statutory_cents fee e.day_index)

cents_injective : {m n : ℕ} → cents (pos m) ≡ cents (pos n) → m ≡ n
cents_injective h = ground arith

index_lem :
    (day index fee : ℕ) (ref : String)
    → 3 ≤ index
    → let e = entitlement_for_index day index fee ref in
      (e.date ≡ some day) × (e.day_index ≡ index) × (e.amount_cents ≡ statutory_cents fee index)
unfolding entitlement_for_index entitlement percentage_amount
index_lem day index fee ref h = (ground arith, ground arith, ground arith)

entitlements-IsEntitled :
    (c : Claim) (fee : ℕ) (days : List ℕ)
    → All (IsEntitled c fee) (entitlements_of (outcomes c fee days))
unfolding outcomes entitlements_of outcome
entitlements-IsEntitled c fee [] = tt
entitlements-IsEntitled c fee (d ∷ days) =
    let rest = entitlements-IsEntitled c fee days in
    let index = d - c.fault_report_received in
    elim (Bool-cases (ltb index 3)) [
      | inl e ↦ rw e rest
      | inr e ↦ elim (Bool-cases (member d c.replacement_solution_days)) [
        | inl m ↦ rw (e, m) rest
        | inr m ↦
            let late : 3 ≤ index = ground (arith, e) in
            let f = index_lem d index fee "TKG §58 Abs.3" late in
            let first : IsEntitled c fee (entitlement_for_index d index fee "TKG §58 Abs.3") =
              (d, f.0, f.1, rw (f.1) late, m, rw (f.1) f.2) in
            rw (e, m) (first, rest)
      ]
    ]

-- What a claim owes over a list of days.
abbrev pub owed : Claim → ℕ → List ℕ → ℕ
owed c fee [] = 0
owed c fee (d ∷ days) =
    let index = d - c.fault_report_received in
    let rest = owed c fee days in
    if ltb index 3
    then rest
    else if member d c.replacement_solution_days
    then rest
    else statutory_cents fee index + rest

total-owed :
    (c : Claim) (fee : ℕ) (days : List ℕ)
    → total (entitlements_of (outcomes c fee days)) ≡ owed c fee days
unfolding outcomes entitlements_of outcome total
total-owed c fee [] = refl
total-owed c fee (d ∷ days) =
    let rest = total-owed c fee days in
    let index = d - c.fault_report_received in
    elim (Bool-cases (ltb index 3)) [
      | inl e ↦ rw e rest
      | inr e ↦ elim (Bool-cases (member d c.replacement_solution_days)) [
        | inl m ↦ rw (e, m) rest
        | inr m ↦
            let f = index_lem d index fee "TKG §58 Abs.3" (ground (arith, e)) in
            rw (e, m, f.2, rest) refl
      ]
    ]

-- For a monthly fee of n cents, each entitlement of a result is for a day from the third one after the
-- receipt of the report that has no replacement solution, and gives the larger of 5 euros and 10 % of
-- the fee on the days 3 and 4, of 10 euros and 20 % later, with half a cent rounded up; the total is
-- the sum of these amounts over the confirmed days, each taken once.
pub compute_amounts :
    (c : Claim) {b : CompensationBreakdown} (n : ℕ)
    → c.monthly_fee_cents ≡ cents (pos n)
    → compute_outage_compensation c ≡ returned b
    → All (IsEntitled c n) b.days
      × (b.total_cents ≡ owed c n (sorted_set c.confirmed_full_outage_days))
unfolding breakdown
compute_amounts c {b} n f h =
    let r = returned_cases c h in
    let same : r.0 ≡ n = cents_injective (sym (fee_lem c.monthly_fee_cents r.0 r.1) ∙ f) in
    let days = sorted_set c.confirmed_full_outage_days in
    subst (λ x. All (IsEntitled c n) x.days × (x.total_cents ≡ owed c n days)) r.3
      (subst
        (λ m.
          All (IsEntitled c n) (breakdown c m days).days
          × ((breakdown c m days).total_cents ≡ owed c n days))
        (sym same) (entitlements-IsEntitled c n days, total-owed c n days))
