-- ===== src/Engine.antt =====
-- app/smart_capture/engine.py and `Trigger` of app/smart_capture/types.py: which events lead to which
-- executions. A detail of an event that a trigger can require is a text. A sub-filter has read its
-- configuration; the `sc_trigger_*` settings are a Boolean function.
pub mod Records
pub mod Triggers
mod Tests
use Prim.Native.Char.{code}
use docsight.Prelude.{
  ℕ, ◌+◌, String, str_eq, Bool, true, false, ◌&&◌, ◌||◌, Option, none, some, List, [], ◌∷◌, ◌++◌,
  map, keep, all, any, length, ltb, leb, ◌==◌, if◌then◌else◌,
}
use docsight.Prelude.Dict.{Dict, lookup}
use docsight.Guardrails.{Config, Chain, Verdict, is_allowed, check_batch}
use docsight.Executions.{Status, pending, suppressed, Reason, guardrail, Store, save_execution}
use docsight.Adapter
use docsight.Adapter.{Settings, World}

pub record Event : Type 0 where
  pub event_type : String
  pub severity : Option String
  pub id : Option ℕ
  pub timestamp : Option ℕ
  pub details : Dict String

pub record Trigger : Type 0 where
  pub event_type : String
  pub config_key : Option String
  pub min_severity : Option String
  pub require_details : Dict String
  pub sub_filter : Option (Event → Bool)

-- `SEVERITY_RANK.get(severity, 0)`
abbrev pub severity_rank : String → ℕ
severity_rank s =
    if str_eq s "info"
    then 0
    else if str_eq s "warning"
    then 1
    else if str_eq s "critical"
    then 2
    else 0

abbrev pub severity_of : Event → String
severity_of ev = elim ev.severity [ none ↦ "info" | some s ↦ s ]

abbrev pub severe_enough : Option String → Event → Bool
severe_enough none ev = true
severe_enough (some least) ev = leb (severity_rank least) (severity_rank (severity_of ev))

abbrev pub has_detail : Event → String × String → Bool
has_detail ev (k, v) = elim (lookup k ev.details) [ none ↦ false | some w ↦ str_eq w v ]

-- `Trigger.matches`
pub matches : Trigger → Event → Bool
matches t ev =
    str_eq ev.event_type t.event_type
    && severe_enough t.min_severity ev
    && all (has_detail ev) t.require_details

abbrev pub same_text : Option String → Option String → Bool
same_text none none = true
same_text none (some b) = false
same_text (some a) none = false
same_text (some a) (some b) = str_eq a b

abbrev pub has_entry : Dict String → String × String → Bool
has_entry d (k, v) = elim (lookup k d) [ none ↦ false | some w ↦ str_eq w v ]

-- Equality of the dataclass, which does not compare the sub-filter.
abbrev pub same_trigger : Trigger → Trigger → Bool
same_trigger a b =
    str_eq a.event_type b.event_type
    && same_text a.config_key b.config_key
    && same_text a.min_severity b.min_severity
    && length a.require_details == length b.require_details
    && all (has_entry b.require_details) a.require_details

-- `register_trigger`
pub register_trigger : Trigger → List Trigger → List Trigger
register_trigger t triggers =
    if any (λ a. same_trigger a t) triggers then triggers else triggers ++ t ∷ []

-- What the setting `sc_enabled` holds.
pub data Setting : Type 0 where
  absent : Setting
  text : String → Setting
  flag : Bool → Setting

abbrev pub codes : String → List ℕ
codes String.[] = []
codes (String.◌∷◌ c s) = code c ∷ codes s

-- `lower` of one character of an ASCII text
abbrev pub lower : ℕ → ℕ
lower c = if leb b'A' c && leb c b'Z' then c + 32 else c

abbrev pub same_codes : List ℕ → List ℕ → Bool
same_codes [] [] = true
same_codes [] (b ∷ bs) = false
same_codes (a ∷ as_) [] = false
same_codes (a ∷ as_) (b ∷ bs) = a == b && same_codes as_ bs

-- `_is_enabled`
pub is_enabled : Setting → Bool
is_enabled absent = false
is_enabled (flag b) = b
is_enabled (text s) =
    let l = map lower (codes s) in
    same_codes l (codes "true")
    || same_codes l (codes "1")
    || same_codes l (codes "yes")
    || same_codes l (codes "on")

-- What one evaluation reads from outside: the settings of the triggers, the two clocks, and the
-- adapter, if it is wired, with what each of its calls reads.
pub record Surroundings : Type 0 where
  pub trigger_setting : String → Bool
  pub limits : Config
  pub now : ℕ
  pub monotonic : ℕ
  pub adapter : Option (Settings × (ℕ → World))

abbrev pub switched_on : Surroundings → Trigger → Bool
switched_on w t = elim t.config_key [ none ↦ true | some k ↦ w.trigger_setting k ]

abbrev pub passes_filter : Event → Trigger → Bool
passes_filter ev t = elim t.sub_filter [ none ↦ true | some f ↦ f ev ]

-- The three filters of `_evaluate_event`.
pub selected : Surroundings → List Trigger → Event → List Trigger
unfolding matches
selected w triggers ev =
    keep (passes_filter ev) (keep (switched_on w) (keep (λ t. matches t ev) triggers))

-- `self._speedtest_adapter.execute`, whose exceptions are caught.
abbrev pub run_adapter : Surroundings → ℕ → Event → Store → Store
run_adapter w id ev s = elim w.adapter [
  | none ↦ s
  | some (cfg, world) ↦ (Adapter.execute cfg (world id) id ev.event_type ev.timestamp s).1
]

-- The row for one verdict, and the adapter's call for a pending one.
pub record_verdict : Surroundings → Event → Verdict → Store → Store
record_verdict w ev v s =
    if is_allowed v
    then (let (id, s') = save_execution w.now ev.event_type pending ev.id ev.timestamp none s in
        run_adapter w id ev s')
    else (save_execution w.now ev.event_type suppressed ev.id ev.timestamp (some (guardrail v)) s).1

pub record_each : Surroundings → Event → List (Trigger × Verdict) → Store → Store
unfolding record_verdict
record_each w ev [] s = s
record_each w ev ((t, v) ∷ results) s = record_each w ev results (record_verdict w ev v s)

abbrev pub event_key : Trigger → String
event_key t = t.event_type

-- `_evaluate_event`
pub evaluate_event : Surroundings → List Trigger → Event → Chain × Store → Chain × Store
unfolding selected record_each
evaluate_event w triggers ev (c, s) =
    let (results, c') = check_batch event_key w.limits w.monotonic (selected w triggers ev) c in
    (c', record_each w ev results s)

-- The loop of `evaluate`; each event has surroundings of its own.
pub evaluate_each : List Trigger → List (Surroundings × Event) → Chain × Store → Chain × Store
unfolding evaluate_event
evaluate_each triggers [] st = st
evaluate_each triggers ((w, ev) ∷ events) st =
    evaluate_each triggers events (evaluate_event w triggers ev st)

abbrev pub is_empty : List Trigger → Bool
is_empty [] = true
is_empty (t ∷ triggers) = false

-- `evaluate`; without events the loop does nothing.
pub evaluate : Setting → List Trigger → List (Surroundings × Event) → Chain × Store → Chain × Store
unfolding is_enabled evaluate_each
evaluate enabled triggers events st =
    if is_enabled enabled
    then (if is_empty triggers then st else evaluate_each triggers events st)
    else st
