-- ===== src/Guardrails.antt =====
-- app/smart_capture/guardrails.py: `GuardrailChain`, which allows or suppresses captures.
-- Time is counted in microseconds and the settings in seconds; `now - t < w` is written
-- `now < t + w`. `float("-inf")` is `none`. The settings are numbers from 0, read once for a batch:
-- a negative setting, which no form of the program offers, is not modelled. The lock makes a batch
-- one step.
pub mod Steps
pub mod RateLimit
pub mod TriggerCooldown
pub mod GlobalCooldown
pub mod Flapping
mod Tests
use docsight.Prelude.{
  second, ℕ, ◌+◌, ◌-◌, ◌*◌, ◌/◌, String, Bool, true, false, ◌&&◌, Option, none, some, List, [], ◌∷◌,
  ◌++◌, length, keep, ltb, leb, if◌then◌else◌,
}
use docsight.Prelude.Dict.{Dict, lookup, insert}

pub record Config : Type 0 where
  pub global_cooldown : ℕ
  pub flapping_window : ℕ
  pub flapping_threshold : ℕ
  pub trigger_cooldown : ℕ
  pub max_actions_per_hour : ℕ

pub record Chain : Type 0 where
  pub last_global_fire : Option ℕ
  pub last_trigger_fire : Dict ℕ
  pub hourly_fires : List ℕ
  pub trigger_match_history : Dict (List ℕ)

abbrev pub new : Chain
new = record {
  last_global_fire = none;
  last_trigger_fire = [];
  hourly_fires = [];
  trigger_match_history = [];
}

-- The flag of a result with the numbers of its reason.
pub data Verdict : Type 0 where
  allowed : Verdict
  flapping : ℕ → ℕ → Verdict
  global_cooldown : ℕ → Verdict
  trigger_cooldown : ℕ → Verdict
  max_actions_per_hour : ℕ → ℕ → Verdict

abbrev pub is_allowed : Verdict → Bool
is_allowed allowed = true
is_allowed _ = false

-- `cd > 0 and (now - last) < cd`, with the whole seconds that remain.
abbrev pub cooling : ℕ → ℕ → Option ℕ → Option ℕ
cooling cd now none = none
cooling cd now (some last) =
    if ltb 0 cd && ltb now (last + cd * second)
    then some ((last + cd * second - now) / second)
    else none

-- The history of a key with this match recorded.
abbrev pub history : Config → ℕ → String → Chain → List ℕ
history cfg now key c =
    keep (λ t. ltb now (t + cfg.flapping_window * second))
      (elim (lookup key c.trigger_match_history) [ none ↦ [] | some h ↦ h ])
    ++ now ∷ []

-- The fires of the last hour.
abbrev pub recent : ℕ → ℕ → Bool
recent now t = ltb now (t + 3600 * second)

-- The last checks of the loop body: the trigger's own cooldown, then the hourly limit.
pub check_limits : Config → ℕ → String → Chain → Verdict × Chain
check_limits cfg now key c =
    elim (cooling cfg.trigger_cooldown now (lookup key c.last_trigger_fire)) [
      | some remaining ↦ (trigger_cooldown remaining, c)
      | none ↦
          let hourly = keep (recent now) c.hourly_fires in
          let c' : Chain = record c { hourly_fires = hourly } in
          if ltb 0 cfg.max_actions_per_hour && leb cfg.max_actions_per_hour (length hourly)
          then (max_actions_per_hour (length hourly) cfg.max_actions_per_hour, c')
          else (
            allowed,
            record c' {
              last_trigger_fire = insert key now c'.last_trigger_fire;
              hourly_fires = hourly ++ now ∷ [];
            },
          )
    ]

-- The loop body of `check_batch`.
pub check_one : Config → ℕ → Option ℕ → String → Chain → Verdict × Chain
unfolding check_limits
check_one cfg now blocked key c =
    let h = history cfg now key c in
    let c' : Chain = record c { trigger_match_history = insert key h c.trigger_match_history } in
    if ltb 0 cfg.flapping_threshold && ltb cfg.flapping_threshold (length h)
    then (flapping (length h) cfg.flapping_window, c')
    else elim blocked [
      | some remaining ↦ (global_cooldown remaining, c')
      | none ↦ check_limits cfg now key c'
    ]

-- A batch of matches of one event; `key` is the event type of a match's trigger.
module _ {M : Type 0} (key : M → String) where
  pub check_each : Config → ℕ → Option ℕ → List M → Chain → List (M × Verdict) × Chain
  unfolding check_one
  check_each cfg now blocked [] c = ([], c)
  check_each cfg now blocked (m ∷ ms) c =
      let (v, c') = check_one cfg now blocked (key m) c in
      let (rest, c'') = check_each cfg now blocked ms c' in ((m, v) ∷ rest, c'')

  abbrev pub any_allowed : List (M × Verdict) → Bool
  any_allowed [] = false
  any_allowed ((m, v) ∷ rest) = if is_allowed v then true else any_allowed rest

  -- The global cooldown starts anew only if something was allowed.
  unfoldable pub check_batch : Config → ℕ → List M → Chain → List (M × Verdict) × Chain
  unfolding check_each
  check_batch cfg now [] c = ([], c)
  check_batch cfg now (m ∷ ms) c =
      let blocked = cooling cfg.global_cooldown now c.last_global_fire in
      let (results, c') = check_each cfg now blocked (m ∷ ms) c in
      (results, if any_allowed results then record c' { last_global_fire = some now } else c')
