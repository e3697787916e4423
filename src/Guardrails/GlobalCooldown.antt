-- ===== src/Guardrails/GlobalCooldown.antt =====
-- The global cooldown of `GuardrailChain`, over whole runs.
use mathlib.Core.List.{append-nil}
use docsight.Prelude.{
  second, ℕ, ◌+◌, ◌*◌, ◌≤◌, String, true, false, Option, none, some, List, [], ◌∷◌, ◌++◌, ◌≡◌, refl,
  ◌⊎◌, inl, inr, if◌then◌else◌, arith, Bool-cases, Option-cases, ap, sym, ◌∙◌, All, All-append,
  All-map, AllPairs, AllPairs-append,
}
use docsight.Guardrails.{
  Config, Chain, new, Verdict, is_allowed, cooling, check_one, check_each, check_batch, any_allowed,
}
use docsight.Guardrails.Steps.{
  global-check_one, blocked-holds, cooled, Log, fire, fires, run, IsMonotonic, end_time,
}

-- What the global cooldown knows between batches: no logged fire is younger than the last one.
abbrev Before : Chain → String × ℕ → Type 0
Before c e = (last : ℕ) × (c.last_global_fire ≡ some last) × (e.1 ≤ last)

-- `e` fired before `x`, in the same batch or a cooldown earlier.
abbrev pub BatchSpaced : ℕ → String × ℕ → String × ℕ → Type 0
BatchSpaced cd e x = (e.1 ≡ x.1) ⊎ (e.1 + cd * second ≤ x.1)

record Batched (cfg : Config) (now : ℕ) (c : Chain) (log : Log) : Type 0 where
  past : (last : ℕ) → c.last_global_fire ≡ some last → last ≤ now
  known : All (Before c) log
  apart : AllPairs (BatchSpaced cfg.global_cooldown) log

module _ {M : Type 0} (key : M → String) where
  -- A batch that begins in the global cooldown fires nothing.
  blocked_fires :
      (cfg : Config) (now r : ℕ) (ms : List M) (c : Chain)
      → fires key now (check_each key cfg now (some r) ms c).0 ≡ []
  unfolding check_each fires
  blocked_fires cfg now r [] c = refl
  blocked_fires cfg now r (m ∷ ms) c =
      rw (blocked-holds cfg now r (key m) c)
        (blocked_fires cfg now r ms (check_one cfg now (some r) (key m) c).1)

  quiet_fires :
      (now : ℕ) (results : List (M × Verdict))
      → any_allowed key results ≡ false
      → fires key now results ≡ []
  unfolding fires
  quiet_fires now [] h = refl
  quiet_fires now ((m, v) ∷ rest) h = ground (arith, quiet_fires now rest)

  fires_now :
      (now : ℕ) (results : List (M × Verdict)) → All (λ e. e.1 ≡ now) (fires key now results)
  unfolding fires
  fires_now now [] = tt
  fires_now now ((m, v) ∷ rest) =
      All-append (λ e. e.1 ≡ now) (fire (key m) now v) (fires key now rest)
        (elim (Bool-cases (is_allowed v)) [ inl a ↦ rw a (refl, tt) | inr a ↦ rw a tt ])
        (fires_now now rest)

  global-check_each :
      (cfg : Config) (now : ℕ) (blocked : Option ℕ) (ms : List M) (c : Chain)
      → (check_each key cfg now blocked ms c).1.last_global_fire ≡ c.last_global_fire
  unfolding check_each
  global-check_each cfg now blocked [] c = refl
  global-check_each cfg now blocked (m ∷ ms) c =
      global-check_each cfg now blocked ms (check_one cfg now blocked (key m) c).1
      ∙ global-check_one cfg now blocked (key m) c

  blocked_quiet :
      (cfg : Config) (now r : ℕ) (ms : List M) (c : Chain)
      → any_allowed key (check_each key cfg now (some r) ms c).0 ≡ false
  unfolding check_each
  blocked_quiet cfg now r [] c = refl
  blocked_quiet cfg now r (m ∷ ms) c =
      rw (blocked-holds cfg now r (key m) c)
        (blocked_quiet cfg now r ms (check_one cfg now (some r) (key m) c).1)

  pairs_now : (cd now : ℕ) (log : Log) → All (λ e. e.1 ≡ now) log → AllPairs (BatchSpaced cd) log
  pairs_now cd now [] h = tt
  pairs_now cd now (e ∷ log) h = (
    All-map (λ x. x.1 ≡ now) (BatchSpaced cd e) log (λ x q. inl (h.0 ∙ sym q)) h.1,
    pairs_now cd now log h.1,
  )

  settle :
      (cfg : Config) (start now : ℕ) (c c' : Chain) (results : List (M × Verdict)) (log : Log)
      → start ≤ now
      → c'.last_global_fire ≡ c.last_global_fire
      → (any_allowed key results ≡ true → cooling cfg.global_cooldown now c.last_global_fire ≡ none)
      → Batched cfg start c log
      → Batched cfg now
          (if any_allowed key results then record c' { last_global_fire = some now } else c')
          (log ++ fires key now results)
  settle cfg start now c c' results log le same free h =
      elim (Bool-cases (any_allowed key results)) [
        | inr quiet ↦
            rw (quiet, quiet_fires now results quiet, append-nil log)
              (record {
                past = λ last e. omega (arith, h.past last (sym same ∙ e));
                known = rw same h.known;
                apart = h.apart;
              })
        | inl fired_some ↦
            let cooldown = free fired_some in
            let cd = cfg.global_cooldown in
            rw fired_some (record {
              past = λ last e. ground (arith, e);
              known =
                  All-append (λ e. (last : ℕ) × (some now ≡ some last) × (e.1 ≤ last)) log
                    (fires key now results)
                    (All-map (Before c) (λ e. (last : ℕ) × (some now ≡ some last) × (e.1 ≤ last))
                      log (λ e r. (now, refl, omega (arith, r.2, h.past r.0 r.1))) h.known)
                    (All-map (λ e. e.1 ≡ now)
                      (λ e. (last : ℕ) × (some now ≡ some last) × (e.1 ≤ last))
                      (fires key now results) (λ e q. (now, refl, omega arith))
                      (fires_now now results));
              apart =
                  AllPairs-append (BatchSpaced cd) log (fires key now results) h.apart
                    (pairs_now cd now (fires key now results) (fires_now now results))
                    (All-map (Before c) (λ e. All (BatchSpaced cd e) (fires key now results)) log
                      (λ e r.
                        All-map (λ x. x.1 ≡ now) (BatchSpaced cd e) (fires key now results)
                          (λ x q. inr (
                            omega (
                              arith,
                              r.2,
                              q,
                              cooled cd now r.0 (omega (arith, h.past r.0 r.1))
                                  (ap (cooling cd now) (sym r.1) ∙ cooldown),
                            )))
                          (fires_now now results))
                      h.known);
            })
      ]

  check_batch-Batched :
      (cfg : Config) (start now : ℕ) (ms : List M) (c : Chain) (log : Log)
      → start ≤ now
      → Batched cfg start c log
      → let (results, c') = check_batch key cfg now ms c in
        Batched cfg now c' (log ++ fires key now results)
  unfolding check_batch fires
  check_batch-Batched cfg start now [] c log le h =
      rw (append-nil log)
        (record { past = λ last e. omega (arith, h.past last e); known = h.known; apart = h.apart })
  check_batch-Batched cfg start now (m ∷ ms) c log le h =
      let blocked = cooling cfg.global_cooldown now c.last_global_fire in
      let (results, c') = check_each key cfg now blocked (m ∷ ms) c in
      settle cfg start now c c' results log le (global-check_each cfg now blocked (m ∷ ms) c)
        (λ yes_some. elim (Option-cases blocked) [
          | inl e ↦ e
          | inr (r, e) ↦ cc (
            yes_some,
            blocked_quiet cfg now r (m ∷ ms) c,
            ap (λ b. any_allowed key (check_each key cfg now b (m ∷ ms) c).0) e,
          )
        ])
        h

  run-Batched :
      (cfg : Config) (start : ℕ) (batches : List (ℕ × List M)) (c : Chain) (log : Log)
      → IsMonotonic key start batches
      → Batched cfg start c log
      → Batched cfg
          (end_time key start batches)
          (run key cfg batches (c, log)).0
          (run key cfg batches (c, log)).1
  unfolding run
  run-Batched cfg start [] c log m h = h
  run-Batched cfg start ((now, ms) ∷ batches) c log m h =
      let (results, c') = check_batch key cfg now ms c in
      run-Batched cfg now batches c' (log ++ fires key now results) m.1
        (check_batch-Batched cfg start now ms c log m.0 h)

  -- In any run of a new chain under a clock that does not run backwards, two allowed captures come
  -- at the same reading of the clock or lie at least the global cooldown apart, whatever their
  -- triggers.
  pub global_spacing :
      (cfg : Config) (start : ℕ) (batches : List (ℕ × List M))
      → IsMonotonic key start batches
      → AllPairs (BatchSpaced cfg.global_cooldown) (run key cfg batches (new, [])).1
  global_spacing cfg start batches m =
      (run-Batched cfg start batches new [] m
        (record { past = λ last e. cc; known = tt; apart = tt })).apart
