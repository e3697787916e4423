-- ===== src/Compensation/Order.antt =====
-- app/modules/de_tkg_compensation/rules.py: the order of the confirmed days does not matter.
use docsight.Prelude.{
  ℕ, ◌<◌, ◌≡◌, refl, sym, ap, ◌∙◌, subst, true, false, Option, List, [], ◌∷◌, arith, inl, inr, ◌⊎◌,
  All,
}
use docsight.Compensation.{
  Claim, Error, CompensationBreakdown, member, validate_monthly_fee, check_days, check_claim_window,
  check_dates, check_replacement, sorted_set,
}
use docsight.Compensation.Outage.{
  first_error, unless_error, compute_outage_compensation, check, breakdown, compute_for, outcomes,
  outcome,
}
use docsight.Compensation.Partition.{All_below, Ascending, sorted_set-Ascending, member-sorted_set}
use docsight.Compensation.Validation.{Result-cases, ℕ_eq_cases}

ℕ_order : (a b : ℕ) → (a < b) ⊎ (b < a) ⊎ (a ≡ b)
ℕ_order a b = omega arith

not_member : (a : ℕ) (xs : List ℕ) → All (λ y. a < y) xs → member a xs ≡ false
unfolding member
not_member a [] h = refl
not_member a (x ∷ xs) h = let rest = not_member a xs h.1 in ground (arith, h.0, rest)

below_head : (a y : ℕ) (ys : List ℕ) → a < y → Ascending (y ∷ ys) → member a (y ∷ ys) ≡ false
unfolding member
below_head a y ys h k =
    let rest = not_member a ys (All_below a y ys h k.0) in ground (arith, h, rest)

member_nil : (d : ℕ) → member d [] ≡ false
unfolding member
member_nil d = refl

member_head : (x : ℕ) (xs : List ℕ) → member x (x ∷ xs) ≡ true
unfolding member
member_head x xs = ground arith

tail_members :
    (x : ℕ) (xs ys : List ℕ)
    → All (λ y. x < y) xs
    → All (λ y. x < y) ys
    → ((d : ℕ) → member d (x ∷ xs) ≡ member d (x ∷ ys))
    → (d : ℕ) → member d xs ≡ member d ys
unfolding member
tail_members x xs ys h k m d = elim (ℕ_eq_cases d x) [
  | inl e ↦
      subst (λ z. member z xs ≡ member z ys) (sym e) (not_member x xs h ∙ sym (not_member x ys k))
  | inr e ↦ let md = m d in ground (arith, e, md)
]

-- A set has one ascending list.
Ascending-unique :
    (xs ys : List ℕ) → Ascending xs → Ascending ys → ((d : ℕ) → member d xs ≡ member d ys) → xs ≡ ys
Ascending-unique [] [] h k m = refl
Ascending-unique [] (y ∷ ys) h k m =
    let clash : false ≡ true = sym (member_nil y) ∙ m y ∙ member_head y ys in cc
Ascending-unique (x ∷ xs) [] h k m =
    let clash : true ≡ false = sym (member_head x xs) ∙ m x ∙ member_nil x in cc
Ascending-unique (x ∷ xs) (y ∷ ys) h k m = elim (ℕ_order x y) [
  | inl l ↦ let clash : true ≡ false = sym (member_head x xs) ∙ m x ∙ below_head x y ys l k in cc
  | inr (inl l) ↦
      let clash : true ≡ false = sym (member_head y ys) ∙ sym (m y) ∙ below_head y x xs l h in cc
  | inr (inr e) ↦
      let k' = subst (λ z. Ascending (z ∷ ys)) (sym e) k in
      let m' = subst (λ z. (d : ℕ) → member d (x ∷ xs) ≡ member d (z ∷ ys)) (sym e) m in
      let rest = Ascending-unique xs ys h.1 k.1 (tail_members x xs ys h.0 k'.0 m') in
      ap (λ zs. x ∷ zs) rest ∙ ap (λ z. z ∷ ys) e
]

-- The checks and the loop read the confirmed days only through their sorted list.
with_days : Claim → List ℕ → Claim
with_days c days = record c { confirmed_full_outage_days = days }

check_days-with : (c : Claim) (ds xs : List ℕ) → check_days (with_days c ds) xs ≡ check_days c xs
unfolding check_days with_days
check_days-with c ds [] = refl
check_days-with c ds (x ∷ xs) = rw (check_days-with c ds xs) refl

check-with : (c : Claim) (ds xs : List ℕ) → check (with_days c ds) xs ≡ check c xs
unfolding check check_dates check_replacement with_days
check-with c ds xs =
    ap
      (λ o. first_error (
        check_dates c
        ∷ check_claim_window c.claim_window_start c.claim_window_end
        ∷ o
        ∷ check_replacement c xs
        ∷ []))
      (check_days-with c ds xs)

outcomes-with :
    (c : Claim) (fee : ℕ) (ds xs : List ℕ) → outcomes (with_days c ds) fee xs ≡ outcomes c fee xs
unfolding outcomes outcome with_days
outcomes-with c fee ds [] = refl
outcomes-with c fee ds (x ∷ xs) = rw (outcomes-with c fee ds xs) refl

breakdown-with :
    (c : Claim) (fee : ℕ) (ds xs : List ℕ) → breakdown (with_days c ds) fee xs ≡ breakdown c fee xs
unfolding breakdown
breakdown-with c fee ds xs = rw (outcomes-with c fee ds xs) refl

unless_error_cong :
    {e f : Option Error} {a b : CompensationBreakdown}
    → e ≡ f
    → a ≡ b
    → unless_error e a ≡ unless_error f b
unless_error_cong h k = rw (h, k) refl

compute_for-with : (c : Claim) (ds xs : List ℕ) → compute_for (with_days c ds) xs ≡ compute_for c xs
unfolding compute_for with_days
compute_for-with c ds xs = elim (Result-cases (validate_monthly_fee c.monthly_fee_cents)) [
  | inl (e, v) ↦ rw (v, compute_for) refl
  | inr (fee, v) ↦
      rw (v, compute_for) (unless_error_cong (check-with c ds xs) (breakdown-with c fee ds xs))
]

-- Two claims that differ only in the order and the repetitions of the confirmed days have the same
-- result, errors included.
pub compute_ignores_order :
    (c : Claim) (days : List ℕ)
    → ((d : ℕ) → member d days ≡ member d c.confirmed_full_outage_days)
    → compute_outage_compensation (record c { confirmed_full_outage_days = days })
      ≡ compute_outage_compensation c
unfolding compute_outage_compensation with_days
compute_ignores_order c days m =
    let old = sorted_set c.confirmed_full_outage_days in
    let same : sorted_set days ≡ old =
      Ascending-unique (sorted_set days) old (sorted_set-Ascending days)
        (sorted_set-Ascending c.confirmed_full_outage_days)
        (λ d.
          member-sorted_set d days
          ∙ m d
          ∙ sym (member-sorted_set d c.confirmed_full_outage_days)) in
    compute_for-with c days (sorted_set days) ∙ ap (compute_for c) same
