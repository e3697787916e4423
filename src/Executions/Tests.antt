-- ===== src/Executions/Tests.antt =====
-- A life of two captures, and the theorems at concrete inputs.
use docsight.Prelude.{true, false, none, some, [], ◌∷◌, ◌≡◌, ◌≢◌, inl, refl, All, arith}
use docsight.Executions.{
  pending, fired, completed, Execution, Store, save_execution, claim_execution, expire_stale_fired,
  expire_stale_pending,
}
use docsight.Executions.Lifecycle.{
  IsSound, IsValid, Advances, expiry_and_claim_advance, save_execution-IsValid,
}

abbrev waiting : Execution
waiting = record {
  id = 1;
  trigger_type = "snr_change";
  trigger_event_id = none;
  trigger_timestamp = some 5;
  status = pending;
  fired_at = none;
  completed_at = none;
  linked_result_id = none;
  suppression_reason = none;
  last_error = none;
  attempt_count = 0;
  created_at = 5;
}

abbrev running : Execution
running = record waiting { id = 2; status = fired; fired_at = some 6; attempt_count = 1 }

abbrev table : Store
table = record { rows = waiting ∷ running ∷ []; next_id = 3; events = [] }

pub waiting-IsSound : IsSound waiting
waiting-IsSound = ground arith

pub running-IsSound : IsSound running
running-IsSound = ground arith

table-IsValid : IsValid table
table-IsValid = record {
  sound = (waiting-IsSound, (running-IsSound, tt));
  given_out = omega arith;
  distinct = omega arith;
}

-- A claim completes the fired row and no other.
claims : (claim_execution 2 fired completed 9 77 table).0 ≡ true
unfolding claim_execution
claims = refl

claims_nothing : (claim_execution 1 fired completed 9 77 table).0 ≡ false
unfolding claim_execution
claims_nothing = refl

expiry_and_claim_advance_test :
    Advances table.rows (expire_stale_fired 8 table).1.rows
    × Advances table.rows (expire_stale_pending 8 table).1.rows
    × Advances table.rows (claim_execution 2 fired completed 9 77 table).1.rows
expiry_and_claim_advance_test =
    expiry_and_claim_advance 8 2 9 77 table (waiting-IsSound, (running-IsSound, tt))

save_execution-IsValid_test :
    IsValid (save_execution 10 "error_spike" pending none (some 10) none table).1
    × All
        (λ row. row.id ≢ (save_execution 10 "error_spike" pending none (some 10) none table).0)
        table.rows
save_execution-IsValid_test =
    save_execution-IsValid 10 "error_spike" pending none (some 10) none table (inl refl)
      table-IsValid
