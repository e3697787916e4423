-- ===== src/Compensation/Outage.antt =====
-- app/modules/de_tkg_compensation/rules.py: `compute_outage_compensation` and
-- `compute_missed_appointment`.
use docsight.Prelude.{ℕ, ◌+◌, ◌-◌, Option, none, some, List, [], ◌∷◌, any, ltb, if◌then◌else◌}
use docsight.Compensation.{
  Error, Result, raised, returned, Claim, Fee, DailyEntitlement, ExcludedDay,
  statutory_waiting_period, provider_replacement_solution_confirmed, CompensationBreakdown,
  missed_appointment, validate_monthly_fee, entitlement, entitlement_for_index, member, sorted_set,
  check_dates, check_claim_window, check_days, check_replacement,
}

-- What the loop makes of a day.
pub data Outcome : Type 0 where
  excluded : ExcludedDay → Outcome
  entitled : DailyEntitlement → Outcome

unfoldable pub outcome : Claim → ℕ → ℕ → Outcome
outcome c fee day =
    let index = day - c.fault_report_received in
    if ltb index 3
    then excluded (record { date = day; day_index = index; reason = statutory_waiting_period })
    else if member day c.replacement_solution_days
    then excluded
        (record { date = day; day_index = index; reason = provider_replacement_solution_confirmed })
    else entitled (entitlement_for_index day index fee "TKG §58 Abs.3")

-- The two lists that the loop fills.
unfoldable pub entitlements_of : List Outcome → List DailyEntitlement
entitlements_of [] = []
entitlements_of (excluded e ∷ os) = entitlements_of os
entitlements_of (entitled e ∷ os) = e ∷ entitlements_of os

unfoldable pub exclusions_of : List Outcome → List ExcludedDay
exclusions_of [] = []
exclusions_of (excluded e ∷ os) = e ∷ exclusions_of os
exclusions_of (entitled e ∷ os) = exclusions_of os

unfoldable pub outcomes : Claim → ℕ → List ℕ → List Outcome
outcomes c fee [] = []
outcomes c fee (day ∷ days) = outcome c fee day ∷ outcomes c fee days

unfoldable pub total : List DailyEntitlement → ℕ
total [] = 0
total (e ∷ es) = e.amount_cents + total es

unfoldable pub breakdown : Claim → ℕ → List ℕ → CompensationBreakdown
breakdown c fee confirmed =
    let os = outcomes c fee confirmed in
    let es = entitlements_of os in
    record {
      days = es;
      exclusions = exclusions_of os;
      total_cents = total es;
      is_rounded = any (λ e. e.rounding_applied) es;
    }

-- The checks behind the fee, which end at the first error.
abbrev pub first_error : List (Option Error) → Option Error
first_error [] = none
first_error (none ∷ os) = first_error os
first_error (some e ∷ os) = some e

unfoldable pub check : Claim → List ℕ → Option Error
check c confirmed = first_error (
    check_dates c
    ∷ check_claim_window c.claim_window_start c.claim_window_end
    ∷ check_days c confirmed
    ∷ check_replacement c confirmed
    ∷ [])

abbrev pub unless_error : {A : Type 0} → Option Error → A → Result A
unless_error none a = returned a
unless_error (some e) a = raised e

-- The calculation, from the sorted days.
unfoldable pub compute_for : Claim → List ℕ → Result CompensationBreakdown
compute_for c confirmed = elim (validate_monthly_fee c.monthly_fee_cents) [
  | raised e ↦ raised e
  | returned fee ↦ unless_error (check c confirmed) (breakdown c fee confirmed)
]

-- `compute_outage_compensation`
unfoldable pub compute_outage_compensation : Claim → Result CompensationBreakdown
compute_outage_compensation c = compute_for c (sorted_set c.confirmed_full_outage_days)

-- `compute_missed_appointment`
unfoldable pub compute_missed_appointment : Fee → Result DailyEntitlement
compute_missed_appointment fee = elim (validate_monthly_fee fee) [
  | raised e ↦ raised e
  | returned n ↦ returned (entitlement none 0 n missed_appointment 1000 20 "TKG §58 Abs.4")
]
