-- ===== src/Guardrails/Steps.antt =====
-- What one check of `GuardrailChain` does, and runs of batches with the log of what was fired.
use docsight.Prelude.{
  second, ℕ, suc, ◌+◌, ◌*◌, ◌≤◌, ◌<◌, String, Bool, true, false, ◌&&◌, Option, none, some, List, [],
  ◌∷◌, ◌++◌, ◌≡◌, refl, ◌⊎◌, inl, inr, length, keep, ltb, leb, if◌then◌else◌, arith, Bool-cases,
  Option-cases, map, ap,
}
use docsight.Prelude.Dict.{Dict, lookup, insert}
use docsight.Guardrails.{
  Config, Chain, Verdict, is_allowed, cooling, history, recent, check_limits, check_one, check_each,
  check_batch,
}

-- A check fires, or holds the match back and keeps the record of fires.
pub data Outcome (cfg : Config) (now : ℕ) (key : String) (c : Chain) (v : Verdict) (c' : Chain)
    : Type 0 where
  fired :
      is_allowed v ≡ true
      → c'.hourly_fires ≡ keep (recent now) c.hourly_fires ++ now ∷ []
      → c'.last_trigger_fire ≡ insert key now c.last_trigger_fire
      → cooling cfg.trigger_cooldown now (lookup key c.last_trigger_fire) ≡ none
      → (0 < cfg.max_actions_per_hour
          → length (keep (recent now) c.hourly_fires) < cfg.max_actions_per_hour)
      → Outcome cfg now key c v c'
  held :
      is_allowed v ≡ false
      → (c'.hourly_fires ≡ c.hourly_fires) ⊎ (c'.hourly_fires ≡ keep (recent now) c.hourly_fires)
      → c'.last_trigger_fire ≡ c.last_trigger_fire
      → Outcome cfg now key c v c'

check_limits-Outcome :
    (cfg : Config) (now : ℕ) (key : String) (c : Chain)
    → Outcome cfg now key c (check_limits cfg now key c).0 (check_limits cfg now key c).1
unfolding check_limits
check_limits-Outcome cfg now key c =
    elim (Option-cases (cooling cfg.trigger_cooldown now (lookup key c.last_trigger_fire))) [
      | inr (r, e) ↦ rw (e, check_limits) (held refl (inl refl) refl)
      | inl e ↦
          rw (e, check_limits)
            (elim (Bool-cases (
              ltb 0 cfg.max_actions_per_hour
              && leb cfg.max_actions_per_hour (length (keep (recent now) c.hourly_fires)))) [
                | inl full ↦ rw full (held refl (inr refl) refl)
                | inr free ↦ rw free (fired refl refl refl e (ground arith))
              ])
    ]

-- The first test of `check_one`.
abbrev flaps : Config → ℕ → String → Chain → Bool
flaps cfg now key c =
    ltb 0 cfg.flapping_threshold && ltb cfg.flapping_threshold (length (history cfg now key c))

rebase :
    (cfg : Config) (now : ℕ) (key : String) (c : Chain) (h : Dict (List ℕ)) (v : Verdict)
    (c' : Chain)
    → Outcome cfg now key (record c { trigger_match_history = h }) v c'
    → Outcome cfg now key c v c'
rebase cfg now key c h v c' (fired a b d e f) = fired a b d e f
rebase cfg now key c h v c' (held a b d) = held a b d

pub check_one-Outcome :
    (cfg : Config) (now : ℕ) (blocked : Option ℕ) (key : String) (c : Chain)
    → Outcome cfg now key c (check_one cfg now blocked key c).0 (check_one cfg now blocked key c).1
unfolding check_one
check_one-Outcome cfg now (some r) key c = elim (Bool-cases (flaps cfg now key c)) [
  | inl e ↦ rw (e, check_one) (held refl (inl refl) refl)
  | inr e ↦ rw (e, check_one) (held refl (inl refl) refl)
]
check_one-Outcome cfg now none key c =
    let m = insert key (history cfg now key c) c.trigger_match_history in
    let c' : Chain = record c { trigger_match_history = m } in
    elim (Bool-cases (flaps cfg now key c)) [
      | inl e ↦ rw (e, check_one) (held refl (inl refl) refl)
      | inr e ↦ rw (e, check_one) (rebase cfg now key c m _ _ (check_limits-Outcome cfg now key c'))
    ]

-- A batch checks its matches under one verdict of the global cooldown, which it leaves alone.
pub global-check_one :
    (cfg : Config) (now : ℕ) (blocked : Option ℕ) (key : String) (c : Chain)
    → (check_one cfg now blocked key c).1.last_global_fire ≡ c.last_global_fire
unfolding check_one check_limits
global-check_one cfg now blocked key c = ground arith

pub blocked-holds :
    (cfg : Config) (now r : ℕ) (key : String) (c : Chain)
    → is_allowed (check_one cfg now (some r) key c).0 ≡ false
unfolding check_one
blocked-holds cfg now r key c = ground arith

-- A cooldown that lets pass is over, or off.
pub cooled :
    (cd now last : ℕ) → last ≤ now → cooling cd now (some last) ≡ none → last + cd * second ≤ now
cooled cd now last h e = ground arith

-- The key and the time of each capture that was allowed.
abbrev pub Log : Type 0
Log = List (String × ℕ)

abbrev pub times : Log → List ℕ
times [] = []
times ((k, t) ∷ log) = t ∷ times log

abbrev pub fire : String → ℕ → Verdict → Log
fire key now v = if is_allowed v then (key, now) ∷ [] else []

module _ {M : Type 0} (key : M → String) where
  unfoldable pub fires : ℕ → List (M × Verdict) → Log
  fires now [] = []
  fires now ((m, v) ∷ rest) = fire (key m) now v ++ fires now rest

  -- Batches one after the other, each with the time at which it is checked.
  unfoldable pub run : Config → List (ℕ × List M) → Chain × Log → Chain × Log
  run cfg [] s = s
  run cfg ((now, ms) ∷ batches) (c, log) =
      let (results, c') = check_batch key cfg now ms c in
      run cfg batches (c', log ++ fires now results)

  -- The clock is monotonic.
  abbrev pub IsMonotonic : ℕ → List (ℕ × List M) → Type 0
  IsMonotonic start [] = Unit
  IsMonotonic start ((now, ms) ∷ batches) = (start ≤ now) × IsMonotonic now batches

  abbrev pub end_time : ℕ → List (ℕ × List M) → ℕ
  end_time start [] = start
  end_time start ((now, ms) ∷ batches) = end_time now batches

  -- Each match gets one verdict, in the order of the batch.
  pub check_each-covers :
      (cfg : Config) (now : ℕ) (blocked : Option ℕ) (ms : List M) (c : Chain)
      → map (λ r. r.0) (check_each key cfg now blocked ms c).0 ≡ ms
  unfolding check_each
  check_each-covers cfg now blocked [] c = refl
  check_each-covers cfg now blocked (m ∷ ms) c =
      ap (λ l. m ∷ l) (check_each-covers cfg now blocked ms (check_one cfg now blocked (key m) c).1)

  length-check_each :
      (cfg : Config) (now : ℕ) (blocked : Option ℕ) (ms : List M) (c : Chain)
      → length (check_each key cfg now blocked ms c).0 ≡ length ms
  unfolding check_each
  length-check_each cfg now blocked [] c = refl
  length-check_each cfg now blocked (m ∷ ms) c =
      ap suc (length-check_each cfg now blocked ms (check_one cfg now blocked (key m) c).1)

  pub length-check_batch :
      (cfg : Config) (now : ℕ) (ms : List M) (c : Chain)
      → length (check_batch key cfg now ms c).0 ≡ length ms
  unfolding check_batch
  length-check_batch cfg now [] c = refl
  length-check_batch cfg now (m ∷ ms) c =
      length-check_each cfg now (cooling cfg.global_cooldown now c.last_global_fire) (m ∷ ms) c
