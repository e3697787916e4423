-- ===== src/Compensation.antt =====
-- app/modules/de_tkg_compensation/rules.py: the compensation for days without service.
-- A date is its number of days from a fixed day. The parts of a rule set that are only passed on to the
-- result (versions, sources, notes), the explanations and the messages of errors are left out.
-- `Decimal` is exact here, as it is for fees below 10 ^ 25 cents.
pub mod Outage
pub mod Partition
pub mod Amounts
pub mod Validation
pub mod Order
mod Tests
use docsight.Prelude.{
  ℕ, ◌+◌, ◌-◌, ◌*◌, ◌/◌, ◌%◌, max, String, Bool, true, false, not, ◌&&◌, ◌||◌, Option, none, some,
  List, [], ◌∷◌, map, all, any, ltb, leb, ◌==◌, if◌then◌else◌,
}
use docsight.Prelude.Int.{ℤ, pos, negsuc}

-- `monthly_fee_cents`: `None` or a Boolean, another value that is no integer, or an integer.
pub data Fee : Type 0 where
  missing no_integer : Fee
  cents : ℤ → Fee

pub data Error : Type 0 where
  monthly_fee_required monthly_fee_invalid monthly_fee_negative : Error
  report_in_future restored_before_report restored_in_future : Error
  claim_window_required claim_window_reversed : Error
  confirmed_day_outside_claim_window confirmed_day_outside_window : Error
  replacement_day_unconfirmed : Error

pub data Result {ℓ} (A : Type ℓ) : Type ℓ where
  raised : Error → Result A
  returned : A → Result A

pub data Category : Type 0 where
  day_3_4 day_5_plus missed_appointment : Category

pub data Basis : Type 0 where
  percent flat : Basis

pub record DailyEntitlement : Type 0 where
  pub date : Option ℕ
  pub day_index : ℕ
  pub category : Category
  pub basis : Basis
  pub flat_cents : ℕ
  pub percentage : ℕ
  pub percentage_cents : ℕ
  pub amount_cents : ℕ
  pub rounding_applied : Bool
  pub rule_ref : String

pub data Exclusion : Type 0 where
  statutory_waiting_period provider_replacement_solution_confirmed : Exclusion

pub record ExcludedDay : Type 0 where
  pub date : ℕ
  pub day_index : ℕ
  pub reason : Exclusion

pub record CompensationBreakdown : Type 0 where
  pub days : List DailyEntitlement
  pub exclusions : List ExcludedDay
  pub total_cents : ℕ
  pub is_rounded : Bool

pub record Claim : Type 0 where
  pub fault_report_received : ℕ
  pub restored : Option ℕ
  pub confirmed_full_outage_days : List ℕ
  pub monthly_fee_cents : Fee
  pub replacement_solution_days : List ℕ
  pub claim_window_start : Option ℕ
  pub claim_window_end : Option ℕ
  pub today : ℕ

-- `_validate_monthly_fee`
unfoldable pub validate_monthly_fee : Fee → Result ℕ
validate_monthly_fee missing = raised monthly_fee_required
validate_monthly_fee no_integer = raised monthly_fee_invalid
validate_monthly_fee (cents (negsuc n)) = raised monthly_fee_negative
validate_monthly_fee (cents (pos n)) = returned n

-- `_percentage_amount`: the cents, half a cent rounded up, and whether that rounds.
unfoldable pub percentage_amount : ℕ → ℕ → ℕ × Bool
percentage_amount fee percentage =
    ((fee * percentage + 50) / 100, not (fee * percentage % 100 == 0))

-- The entitlement of a category, from its flat amount and its percentage.
unfoldable pub entitlement : Option ℕ → ℕ → ℕ → Category → ℕ → ℕ → String → DailyEntitlement
unfolding percentage_amount
entitlement day index fee category flat_amount percentage ref =
    let p = percentage_amount fee percentage in
    record {
      date = day;
      day_index = index;
      category = category;
      basis = if ltb flat_amount p.0 then percent else flat;
      flat_cents = flat_amount;
      percentage = percentage;
      percentage_cents = p.0;
      amount_cents = max flat_amount p.0;
      rounding_applied = p.1;
      rule_ref = ref;
    }

-- `_entitlement_for_index`
unfoldable pub entitlement_for_index : ℕ → ℕ → ℕ → String → DailyEntitlement
entitlement_for_index day index fee ref =
    if index == 3 || index == 4
    then entitlement (some day) index fee day_3_4 500 10 ref
    else entitlement (some day) index fee day_5_plus 1000 20 ref

unfoldable pub member : ℕ → List ℕ → Bool
member d [] = false
member d (x ∷ xs) = d == x || member d xs

-- `sorted(set(days))`
unfoldable pub insert_day : ℕ → List ℕ → List ℕ
insert_day d [] = d ∷ []
insert_day d (x ∷ xs) =
    if ltb d x then d ∷ x ∷ xs else if d == x then x ∷ xs else x ∷ insert_day d xs

unfoldable pub sorted_set : List ℕ → List ℕ
sorted_set [] = []
sorted_set (d ∷ ds) = insert_day d (sorted_set ds)

-- The checks of the dates, in the order of the code.
unfoldable pub check_dates : Claim → Option Error
check_dates c =
    if ltb c.today c.fault_report_received then some report_in_future else elim c.restored [
      | some r ↦
          if ltb r c.fault_report_received
          then some restored_before_report
          else if ltb c.today r
          then some restored_in_future
          else none
      | none ↦ none
    ]

unfoldable pub check_claim_window : Option ℕ → Option ℕ → Option Error
check_claim_window none none = none
check_claim_window none (some b) = some claim_window_required
check_claim_window (some a) none = some claim_window_required
check_claim_window (some a) (some b) = if ltb b a then some claim_window_reversed else none

abbrev pub outside_claim_window : Option ℕ → Option ℕ → ℕ → Bool
outside_claim_window (some a) (some b) day = not (leb a day && leb day b)
outside_claim_window (some a) none day = false
outside_claim_window none b day = false

abbrev pub last_day : Claim → ℕ
last_day c = elim c.restored [ none ↦ c.today | some r ↦ r ]

abbrev pub outside_window : Claim → ℕ → Bool
outside_window c day = ltb day c.fault_report_received || ltb (last_day c) day || ltb c.today day

-- The loop over the confirmed days.
unfoldable pub check_days : Claim → List ℕ → Option Error
check_days c [] = none
check_days c (day ∷ days) =
    if outside_claim_window c.claim_window_start c.claim_window_end day
    then some confirmed_day_outside_claim_window
    else if outside_window c day
    then some confirmed_day_outside_window
    else check_days c days

abbrev pub is_subset : List ℕ → List ℕ → Bool
is_subset xs ys = all (λ d. member d ys) xs

unfoldable pub check_replacement : Claim → List ℕ → Option Error
check_replacement c confirmed =
    if is_subset c.replacement_solution_days confirmed
    then none
    else some replacement_day_unconfirmed
