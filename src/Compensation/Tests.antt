-- ===== src/Compensation/Tests.antt =====
-- app/modules/de_tkg_compensation/rules.py: runs at a concrete claim.
use docsight.Prelude.{ℕ, ◌≡◌, refl, true, some, [], ◌∷◌, All, arith}
use docsight.Prelude.Int.{pos}
use docsight.Compensation.{
  Claim, cents, raised, returned, CompensationBreakdown, replacement_day_unconfirmed,
  validate_monthly_fee, percentage_amount, entitlement, entitlement_for_index, member, insert_day,
  sorted_set, check_dates, check_claim_window, check_days, check_replacement,
}
use docsight.Compensation.Outage.{
  outcome, outcomes, entitlements_of, exclusions_of, total, breakdown, check, compute_for,
  compute_outage_compensation,
}
use docsight.Compensation.Partition.{decided}
use docsight.Compensation.Amounts.{day_decided_once, compute_amounts, IsEntitled, owed}
use docsight.Compensation.Validation.{compute_checks_claim, InOrder, Confirmable}
use docsight.Compensation.Order.{compute_ignores_order}

abbrev claim : Claim
claim = record {
  fault_report_received = 100;
  restored = some 106;
  confirmed_full_outage_days = 106 ∷ 102 ∷ 103 ∷ 104 ∷ 103 ∷ [];
  monthly_fee_cents = cents (pos 5999);
  replacement_solution_days = 104 ∷ [];
  claim_window_start = some 101;
  claim_window_end = some 120;
  today = 110;
}

abbrev result : CompensationBreakdown
unfolding breakdown outcomes outcome entitlements_of exclusions_of total entitlement_for_index
    entitlement percentage_amount member
result = breakdown claim 5999 (102 ∷ 103 ∷ 104 ∷ 106 ∷ [])

total_test : result.total_cents ≡ 1800
unfolding result
total_test = refl

compute_test : compute_outage_compensation claim ≡ returned result
unfolding compute_outage_compensation compute_for check sorted_set insert_day validate_monthly_fee
    check_dates check_claim_window check_days check_replacement member result breakdown
compute_test = refl

unconfirmed_test :
    compute_outage_compensation (record claim { replacement_solution_days = 105 ∷ [] })
    ≡ raised replacement_day_unconfirmed
unfolding compute_outage_compensation compute_for check sorted_set insert_day validate_monthly_fee
    check_dates check_claim_window check_days check_replacement member
unconfirmed_test = refl

day_decided_once_test : decided 103 result ≡ 1
unfolding member
day_decided_once_test = day_decided_once claim {b = result} 103 compute_test

compute_amounts_example :
    All (IsEntitled claim 5999) result.days
    × (result.total_cents ≡ owed claim 5999 (sorted_set claim.confirmed_full_outage_days))
compute_amounts_example = compute_amounts claim {b = result} 5999 refl compute_test

compute_checks_claim_example :
    ((n : ℕ) × (claim.monthly_fee_cents ≡ cents (pos n)))
    × InOrder claim
    × ((d : ℕ) → member d claim.confirmed_full_outage_days ≡ true → Confirmable claim d)
    × ((d : ℕ)
        → member d claim.replacement_solution_days ≡ true
        → member d claim.confirmed_full_outage_days ≡ true)
compute_checks_claim_example = compute_checks_claim claim {b = result} compute_test

same_days_test :
    (d : ℕ) → member d (102 ∷ 103 ∷ 104 ∷ 106 ∷ []) ≡ member d claim.confirmed_full_outage_days
unfolding member
same_days_test d = ground arith

compute_ignores_order_test :
    compute_outage_compensation
      (record claim { confirmed_full_outage_days = 102 ∷ 103 ∷ 104 ∷ 106 ∷ [] })
    ≡ compute_outage_compensation claim
compute_ignores_order_test = compute_ignores_order claim (102 ∷ 103 ∷ 104 ∷ 106 ∷ []) same_days_test
