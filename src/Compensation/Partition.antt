-- ===== src/Compensation/Partition.antt =====
-- app/modules/de_tkg_compensation/rules.py: each confirmed day is decided once.
use docsight.Prelude.{
  ℕ, ◌+◌, ◌<◌, ◌≡◌, refl, subst, ◌⊎◌, ap, ◌∙◌, sym, true, false, ◌||◌, ◌==◌, none, some, List, [],
  ◌∷◌, if◌then◌else◌, arith, inl, inr, All, count_if, ltb,
}
use docsight.Compensation.{
  Claim, CompensationBreakdown, entitlement_for_index, entitlement, member, insert_day, sorted_set,
}
use docsight.Compensation.Outage.{outcome, entitlements_of, exclusions_of, outcomes, breakdown}

-- Ascending, without repetition.
abbrev pub Ascending : List ℕ → Type 0
Ascending [] = Unit
Ascending (x ∷ xs) = All (λ y. x < y) xs × Ascending xs

All-insert_day :
    (d b : ℕ) (xs : List ℕ) → b < d → All (λ y. b < y) xs → All (λ y. b < y) (insert_day d xs)
unfolding insert_day
All-insert_day d b [] h k = (h, tt)
All-insert_day d b (x ∷ xs) h k =
    let rest = All-insert_day d b xs h k.1 in ground (arith, h, k, rest)

pub All_below : (a b : ℕ) (xs : List ℕ) → a < b → All (λ y. b < y) xs → All (λ y. a < y) xs
All_below a b [] h k = tt
All_below a b (x ∷ xs) h k = (omega (arith, h, k.0), All_below a b xs h k.1)

order_cases :
    (a b : ℕ)
    → ((ltb a b ≡ true) × (a < b))
      ⊎ ((ltb a b ≡ false) × ((a == b) ≡ true))
      ⊎ ((ltb a b ≡ false) × ((a == b) ≡ false) × (b < a))
order_cases a b = ground arith

pub insert_day-Ascending : (d : ℕ) (xs : List ℕ) → Ascending xs → Ascending (insert_day d xs)
unfolding insert_day
insert_day-Ascending d [] h = (tt, tt)
insert_day-Ascending d (x ∷ xs) h = elim (order_cases d x) [
  | inl l ↦ rw l.0 ((l.1, All_below d x xs l.1 h.0), h)
  | inr (inl l) ↦ rw (l.0, l.1) h
  | inr (inr l) ↦ rw (l.0, l.1) (All-insert_day d x xs l.2 h.0, insert_day-Ascending d xs h.1)
]

pub sorted_set-Ascending : (ds : List ℕ) → Ascending (sorted_set ds)
unfolding sorted_set
sorted_set-Ascending [] = tt
sorted_set-Ascending (d ∷ ds) = insert_day-Ascending d (sorted_set ds) (sorted_set-Ascending ds)

member-insert_day : (a d : ℕ) (xs : List ℕ) → member a (insert_day d xs) ≡ (a == d || member a xs)
unfolding member insert_day
member-insert_day a d [] = refl
member-insert_day a d (x ∷ xs) = let rest = member-insert_day a d xs in ground (arith, rest)

pub member-sorted_set : (a : ℕ) (ds : List ℕ) → member a (sorted_set ds) ≡ member a ds
unfolding member sorted_set
member-sorted_set a [] = refl
member-sorted_set a (d ∷ ds) =
    member-insert_day a d (sorted_set ds) ∙ ap (λ b. a == d || b) (member-sorted_set a ds)

count_none : (a : ℕ) (xs : List ℕ) → All (λ y. a < y) xs → count_if (λ x. a == x) xs ≡ 0
count_none a [] h = refl
count_none a (x ∷ xs) h = let rest = count_none a xs h.1 in ground (arith, h.0, rest)

-- An ascending list holds each of its members once.
pub count_once :
    (a : ℕ) (xs : List ℕ)
    → Ascending xs
    → count_if (λ x. a == x) xs ≡ (if member a xs then 1 else 0)
unfolding member
count_once a [] h = refl
count_once a (x ∷ xs) h =
    let rest = count_once a xs h.1 in
    let none_left : a ≡ x → count_if (λ y. a == y) xs ≡ 0 =
      λ e. count_none a xs (subst (λ b. All (λ y. b < y) xs) (sym e) h.0) in
    ground (arith, rest, none_left)

-- How often a day stands in the two lists of a result.
abbrev pub decided : ℕ → CompensationBreakdown → ℕ
decided a b =
    count_if (λ e. elim e.date [ none ↦ false | some d ↦ a == d ]) b.days
    + count_if (λ e. a == e.date) b.exclusions

pub decided_outcomes :
    (a fee : ℕ) (c : Claim) (days : List ℕ)
    → decided a (breakdown c fee days) ≡ count_if (λ x. a == x) days
unfolding breakdown outcomes outcome entitlements_of exclusions_of entitlement_for_index entitlement
decided_outcomes a fee c [] = refl
decided_outcomes a fee c (day ∷ days) =
    let rest = decided_outcomes a fee c days in ground (arith, rest)
