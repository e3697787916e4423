-- ===== src/Guardrails/Tests.antt =====
-- Runs of the guardrails, and the theorems at concrete inputs.
use docsight.Prelude.{
  second, ℕ, ◌*◌, ◌≤◌, String, ◌≡◌, List, [], ◌∷◌, refl, arith, length, keep, AllPairs,
}
use docsight.Prelude.Dict.{lookup, insert}
use docsight.Guardrails.{Config, new, allowed, trigger_cooldown, recent, check_batch}
use docsight.Guardrails.Steps.{times, fires, run}
use docsight.Guardrails.RateLimit.{rate_limit}
use docsight.Guardrails.TriggerCooldown.{Spaced, trigger_spacing}
use docsight.Guardrails.GlobalCooldown.{BatchSpaced, global_spacing}
use docsight.Guardrails.Flapping.{watch, IsCalm, flapping_limit}

-- The defaults, with a shorter global cooldown and a limit of two.
abbrev settings : Config
settings = record {
  global_cooldown = 300;
  flapping_window = 3600;
  flapping_threshold = 3;
  trigger_cooldown = 900;
  max_actions_per_hour = 2;
}

abbrev name_of : String → String
name_of s = s

abbrev batches : List (ℕ × List String)
batches =
    (10 * second, "a" ∷ "b" ∷ "a" ∷ [])
    ∷ (100 * second, "b" ∷ [])
    ∷ (1000 * second, "b" ∷ "c" ∷ [])
    ∷ (1010 * second, "a" ∷ "b" ∷ [])
    ∷ []

-- `a` and `b` fire at 10 s; the second `a` cools down, and so does `b` under the global cooldown; at
-- 1000 s two captures have been spent.
first_batch :
    (check_batch name_of settings (10 * second) ("a" ∷ "b" ∷ "a" ∷ []) new).0
    ≡ ("a", allowed) ∷ ("b", allowed) ∷ ("a", trigger_cooldown 900) ∷ []
unfolding check_batch lookup insert
first_batch = refl

run_log : (run name_of settings batches (new, [])).1 ≡ ("a", 10 * second) ∷ ("b", 10 * second) ∷ []
unfolding run fires check_batch lookup insert
run_log = refl

rate_limit_example :
    length (keep (recent (2000 * second)) (times (run name_of settings batches (new, [])).1)) ≤ 2
rate_limit_example =
    rate_limit name_of settings 0 batches (2000 * second) (omega arith) (omega arith) (omega arith)

trigger_spacing_example : AllPairs (Spaced 900) (run name_of settings batches (new, [])).1
trigger_spacing_example = trigger_spacing name_of settings 0 batches (omega arith)

global_spacing_example : AllPairs (BatchSpaced 300) (run name_of settings batches (new, [])).1
global_spacing_example = global_spacing name_of settings 0 batches (omega arith)

flapping_limit_example :
    IsCalm name_of settings
      (2000 * second)
      (watch name_of settings batches (new, [])).1
      (check_batch name_of settings
        (2000 * second)
        ("b" ∷ [])
        (watch name_of settings batches (new, [])).0).0
flapping_limit_example =
    flapping_limit name_of settings 0 batches (2000 * second) ("b" ∷ []) (omega arith) (omega arith)
