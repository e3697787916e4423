-- ===== src/Engine/Tests.antt =====
-- Runs of the engine, and the theorems at concrete inputs.
use docsight.Prelude.{
  second, ◌+◌, ◌*◌, true, false, none, some, List, [], ◌∷◌, ◌++◌, map, ◌≡◌, refl, AllPairs, length,
}
use docsight.Prelude.Dict.{lookup, insert}
use docsight.Guardrails.{Chain, new, check_batch}
use docsight.Executions.{
  Status, fired, suppressed, Execution, Store, save_execution, update_execution, get_latest_fire,
  count_fires_since,
}
use docsight.Executions.Lifecycle.{IsValid}
use docsight.Adapter
use docsight.Adapter.{Settings, World, answered}
use docsight.Engine.{
  Event, Trigger, text, is_enabled, Surroundings, same_trigger, register_trigger, selected,
  evaluate_event, evaluate,
}
use docsight.Engine.Records.{evaluate_event-IsValid, evaluate-IsValid}
use docsight.Engine.Triggers.{register_trigger-AllPairs}

abbrev downgrade : Trigger
downgrade = record {
  event_type = "modulation_change";
  config_key = some "sc_trigger_modulation";
  min_severity = some "warning";
  require_details = ("direction", "downgrade") ∷ [];
  sub_filter = none;
}

abbrev drop_event : Event
drop_event = record {
  event_type = "modulation_change";
  severity = some "critical";
  id = none;
  timestamp = some (20000 * second);
  details = ("direction", "downgrade") ∷ [];
}

abbrev world : World
world = record {
  now = 20000 * second;
  cached_result = none;
  remote_result = none;
  post = answered 201;
  fired_now = 20001 * second;
}

abbrev surroundings : Surroundings
surroundings = record {
  trigger_setting = λ k. true;
  limits = record {
    global_cooldown = 300;
    flapping_window = 3600;
    flapping_threshold = 3;
    trigger_cooldown = 900;
    max_actions_per_hour = 4;
  };
  now = 20000 * second;
  monotonic = 50 * second;
  adapter =
      some
        (record { min_interval = 14400; max_actions_per_day = 4; match_window = 900 }, λ id. world);
}

abbrev empty : Store
empty = record { rows = []; next_id = 1; events = [] }

empty-IsValid : IsValid empty
empty-IsValid = record { sound = tt; given_out = tt; distinct = tt }

abbrev statuses : Chain × Store → List Status
statuses st = map (λ (row : Execution). row.status) st.1.rows

-- The first event fires a speedtest; the second comes too soon for the guardrails.
two_events :
    statuses (
      evaluate
        (text "On")
        (downgrade ∷ [])
        ((surroundings, drop_event) ∷ (surroundings, drop_event) ∷ [])
        (new, empty))
    ≡ fired ∷ suppressed ∷ []
unfolding evaluate check_batch lookup insert save_execution Adapter.execute update_execution
    get_latest_fire count_fires_since
two_events = refl

evaluate_event-IsValid_test :
    let s' = (evaluate_event surroundings (downgrade ∷ []) drop_event (new, empty)).1 in
    IsValid s' × (length s'.rows ≡ 0 + length (selected surroundings (downgrade ∷ []) drop_event))
evaluate_event-IsValid_test =
    evaluate_event-IsValid surroundings (downgrade ∷ []) drop_event new empty empty-IsValid

evaluate-IsValid_example :
    IsValid (evaluate (text "On") (downgrade ∷ []) ((surroundings, drop_event) ∷ []) (new, empty)).1
    × (is_enabled (text "On") ≡ false
        → evaluate (text "On") (downgrade ∷ []) ((surroundings, drop_event) ∷ []) (new, empty)
          ≡ (new, empty))
evaluate-IsValid_example =
    evaluate-IsValid (text "On") (downgrade ∷ []) ((surroundings, drop_event) ∷ []) new empty
      empty-IsValid

register_trigger-AllPairs_test :
    AllPairs (λ a b. same_trigger a b ≡ false) (register_trigger downgrade (downgrade ∷ []))
    × (more : List Trigger) × (register_trigger downgrade (downgrade ∷ [])
        ≡ (downgrade ∷ []) ++ more)
register_trigger-AllPairs_test = register_trigger-AllPairs downgrade (downgrade ∷ []) (tt, tt)
