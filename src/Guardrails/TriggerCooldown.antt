-- ===== src/Guardrails/TriggerCooldown.antt =====
-- The cooldown of each trigger in `GuardrailChain`, over whole runs.
use mathlib.Core.List.{append-nil, append_assoc}
use docsight.Prelude.{
  second, ℕ, ◌+◌, ◌*◌, ◌≤◌, String, str_eq, eq_iff, Bool, true, false, Option, none, some, List, [],
  ◌∷◌, ◌++◌, ◌≡◌, inl, inr, if◌then◌else◌, arith, Bool-cases, ap, ◌∙◌, All, All-append, All-map,
  AllPairs, AllPairs-append,
}
use docsight.Prelude.Dict.{lookup, insert, lookup-insert}
use docsight.Guardrails.{
  Config, Chain, new, Verdict, cooling, check_one, check_each, check_batch, any_allowed,
}
use docsight.Guardrails.Steps.{
  Outcome, fired, held, check_one-Outcome, Log, fire, fires, run, IsMonotonic, end_time,
}

-- `e` fired before `x`: the same trigger's fires lie a cooldown apart.
abbrev pub Spaced : ℕ → String × ℕ → String × ℕ → Type 0
Spaced cd e x = e.0 ≡ x.0 → e.1 + cd * second ≤ x.1

-- The chain remembers a fire of each logged trigger that is no older than those in the log.
abbrev Remembered : ℕ → Chain → String × ℕ → Type 0
Remembered now c e =
    (e.1 ≤ now) × (last : ℕ) × (lookup e.0 c.last_trigger_fire ≡ some last) × (e.1 ≤ last)

record Apart (cfg : Config) (now : ℕ) (c : Chain) (log : Log) : Type 0 where
  known : All (Remembered now c) log
  apart : AllPairs (Spaced cfg.trigger_cooldown) log

remember_fire :
    (now : ℕ) (key : String) (c c' : Chain) (e : String × ℕ)
    → c'.last_trigger_fire ≡ insert key now c.last_trigger_fire
    → Remembered now c e
    → Remembered now c' e
remember_fire now key c c' e q (past, last, found, le) = elim (Bool-cases (str_eq key e.0)) [
  | inl same ↦ (past, now, rw q (lookup-insert key e.0 now c.last_trigger_fire ∙ (rw same)), past)
  | inr other ↦
      (past, last, rw q (lookup-insert key e.0 now c.last_trigger_fire ∙ rw other found), le)
]

-- A fire that the trigger's cooldown lets pass is far enough from every logged one.
Spaced-cooling :
    (cd now : ℕ) (key : String) (c : Chain) (e : String × ℕ)
    → cooling cd now (lookup key c.last_trigger_fire) ≡ none
    → Remembered now c e
    → Spaced cd e (key, now)
Spaced-cooling cd now key c e free (past, last, found, le) same = ground (
  arith,
  free,
  ap (λ k. cooling cd now (lookup k c.last_trigger_fire)) same,
  ap (cooling cd now) found,
)

step-Apart :
    (cfg : Config) (now : ℕ) (key : String) (c : Chain) (v : Verdict) (c' : Chain) (log : Log)
    → Outcome cfg now key c v c'
    → Apart cfg now c log
    → Apart cfg now c' (log ++ fire key now v)
step-Apart cfg now key c v c' log (fired a b d free f) h = rw a (record {
  known =
      All-append (Remembered now c') log ((key, now) ∷ [])
        (All-map (Remembered now c) (Remembered now c') log
          (λ e r. remember_fire now key c c' e d r) h.known)
        (
          (
            omega arith,
            now,
            rw d (ground (arith, lookup-insert key key now c.last_trigger_fire, eq_iff key key)),
            omega arith,
          ),
          tt,
        );
  apart =
      AllPairs-append (Spaced cfg.trigger_cooldown) log ((key, now) ∷ []) h.apart (tt, tt)
        (All-map (Remembered now c) (λ e. All (Spaced cfg.trigger_cooldown e) ((key, now) ∷ [])) log
          (λ e r. (Spaced-cooling cfg.trigger_cooldown now key c e free r, tt)) h.known);
})
step-Apart cfg now key c v c' log (held a b d) h =
    rw (a, append-nil log) (record { known = rw d h.known; apart = h.apart })

mark-Apart :
    (cfg : Config) (now t : ℕ) (b : Bool) (c : Chain) (log : Log)
    → Apart cfg now c log
    → Apart cfg now (if b then record c { last_global_fire = some t } else c) log
mark-Apart cfg now t true c log h = record { known = h.known; apart = h.apart }
mark-Apart cfg now t false c log h = h

later-Apart :
    (cfg : Config) (now now' : ℕ) (c : Chain) (log : Log)
    → now ≤ now'
    → Apart cfg now c log
    → Apart cfg now' c log
later-Apart cfg now now' c log h a = record {
  known =
      All-map (Remembered now c) (Remembered now' c) log (λ e r. (omega arith, r.1, r.2, r.3))
        a.known;
  apart = a.apart;
}

module _ {M : Type 0} (key : M → String) where
  check_each-Apart :
      (cfg : Config) (now : ℕ) (blocked : Option ℕ) (ms : List M) (c : Chain) (log : Log)
      → Apart cfg now c log
      → let (results, c') = check_each key cfg now blocked ms c in
        Apart cfg now c' (log ++ fires key now results)
  unfolding check_each fires
  check_each-Apart cfg now blocked [] c log h = rw (append-nil log) h
  check_each-Apart cfg now blocked (m ∷ ms) c log h =
      let (v, c') = check_one cfg now blocked (key m) c in
      let h' =
        step-Apart cfg now (key m) c v c' log (check_one-Outcome cfg now blocked (key m) c) h in
      rw (← append_assoc) (check_each-Apart cfg now blocked ms c' (log ++ fire (key m) now v) h')

  check_batch-Apart :
      (cfg : Config) (now : ℕ) (ms : List M) (c : Chain) (log : Log)
      → Apart cfg now c log
      → let (results, c') = check_batch key cfg now ms c in
        Apart cfg now c' (log ++ fires key now results)
  unfolding check_batch fires
  check_batch-Apart cfg now [] c log h = rw (append-nil log) h
  check_batch-Apart cfg now (m ∷ ms) c log h =
      let blocked = cooling cfg.global_cooldown now c.last_global_fire in
      let (results, c') = check_each key cfg now blocked (m ∷ ms) c in
      mark-Apart cfg now now (any_allowed key results) c' (log ++ fires key now results)
        (check_each-Apart cfg now blocked (m ∷ ms) c log h)

  run-Apart :
      (cfg : Config) (start : ℕ) (batches : List (ℕ × List M)) (c : Chain) (log : Log)
      → IsMonotonic key start batches
      → Apart cfg start c log
      → Apart cfg
          (end_time key start batches)
          (run key cfg batches (c, log)).0
          (run key cfg batches (c, log)).1
  unfolding run
  run-Apart cfg start [] c log m h = h
  run-Apart cfg start ((now, ms) ∷ batches) c log m h =
      let (results, c') = check_batch key cfg now ms c in
      run-Apart cfg now batches c' (log ++ fires key now results) m.1
        (check_batch-Apart cfg now ms c log (later-Apart cfg start now c log m.0 h))

  -- In any run of a new chain under a clock that does not run backwards, two allowed captures of one
  -- trigger lie at least the trigger's cooldown apart, also within a batch.
  pub trigger_spacing :
      (cfg : Config) (start : ℕ) (batches : List (ℕ × List M))
      → IsMonotonic key start batches
      → AllPairs (Spaced cfg.trigger_cooldown) (run key cfg batches (new, [])).1
  trigger_spacing cfg start batches m =
      (run-Apart cfg start batches new [] m (record { known = tt; apart = tt })).apart
