-- ===== src/Adapter/Tests.antt =====
-- Calls of the adapter, and the theorems at concrete inputs.
use docsight.Prelude.{
  second, ℕ, ◌+◌, ◌*◌, ◌≤◌, true, none, some, [], ◌∷◌, ◌≡◌, ◌⊎◌, refl, All, arith,
}
use docsight.Executions.{pending, fired, Execution, Store, count_fires_since, get_latest_fire}
use docsight.Executions.Lifecycle.{IsSound, Advances}
use docsight.Adapter.{
  Settings, World, answered, cutoff_day, execute, best_result, on_results_imported,
}
use docsight.Adapter.Preflight.{execute-Advances, execute_keeps_interval}
use docsight.Adapter.DailyCap.{execute_daily_cap}
use docsight.Adapter.Matching.{
  IsNearest, AllSettled, best_result-IsNearest, on_results_imported-AllSettled,
}

abbrev waiting : Execution
waiting = record {
  id = 2;
  trigger_type = "snr_change";
  trigger_event_id = none;
  trigger_timestamp = none;
  status = pending;
  fired_at = none;
  completed_at = none;
  linked_result_id = none;
  suppression_reason = none;
  last_error = none;
  attempt_count = 0;
  created_at = 5;
}

abbrev running : Execution
running = record waiting { id = 1; status = fired; fired_at = some (100 * second) }

abbrev table : Store
table = record { rows = running ∷ waiting ∷ []; next_id = 3; events = [] }

abbrev settings : Settings
settings = record { min_interval = 14400; max_actions_per_day = 4; match_window = 900 }

abbrev world : World
world = record {
  now = 20000 * second;
  cached_result = some (200 * second);
  remote_result = none;
  post = answered 201;
  fired_now = 20001 * second;
}

rows-IsSound : All IsSound table.rows
rows-IsSound = (ground arith, (ground arith, tt))

started : (execute settings world 2 "snr_change" none table).0 ≡ true
unfolding execute get_latest_fire count_fires_since
started = refl

execute-Advances_test :
    Advances table.rows (execute settings world 2 "snr_change" none table).1.rows
execute-Advances_test =
    execute-Advances settings world 2 "snr_change" none table rows-IsSound
      (λ e. absurd (omega arith), (λ e. refl, tt))

execute_keeps_interval_test :
    ((t : ℕ)
      → (some (200 * second) ≡ some t) ⊎ (none ≡ some t)
      → t + 14400 * second ≤ 20000 * second)
    × All (λ row. (t : ℕ) → row.fired_at ≡ some t → t + 14400 * second ≤ 20000 * second) table.rows
execute_keeps_interval_test =
    execute_keeps_interval settings world 2 "snr_change" none table (omega arith) started

execute_daily_cap_example :
    count_fires_since
      (cutoff_day (20000 * second))
      (execute settings world 2 "snr_change" none table).1.rows
    ≤ 4
execute_daily_cap_example =
    execute_daily_cap settings world 2 "snr_change" none table (omega arith) (omega arith) started

best_result-IsNearest_example :
    IsNearest 100 900
      (7 ∷ [])
      none
      ((7, 110) ∷ (8, 300) ∷ (9, 150) ∷ [])
      (best_result 100 900 (7 ∷ []) none ((7, 110) ∷ (8, 300) ∷ (9, 150) ∷ []))
best_result-IsNearest_example =
    best_result-IsNearest 100 900 (7 ∷ []) ((7, 110) ∷ (8, 300) ∷ (9, 150) ∷ [])

nearest_unused :
    best_result 100 900 (7 ∷ []) none ((7, 110) ∷ (8, 300) ∷ (9, 150) ∷ []) ≡ some (9, 150)
unfolding best_result
nearest_unused = refl

on_results_imported-AllSettled_example :
    AllSettled
      ((5, 150 * second) ∷ [])
      table.rows
      (on_results_imported settings 200 ((5, some (150 * second)) ∷ (6, none) ∷ []) table).rows
on_results_imported-AllSettled_example =
    on_results_imported-AllSettled settings 200 ((5, some (150 * second)) ∷ (6, none) ∷ []) table
