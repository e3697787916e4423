-- ===== src/Guardrails/RateLimit.antt =====
-- The hourly limit of `GuardrailChain` over whole runs of batches.
use mathlib.Core.List.{append-nil, append_assoc}
use docsight.Prelude.{
  ℕ, ◌≤◌, ◌<◌, String, Bool, true, false, Option, some, List, [], ◌∷◌, ◌++◌, ◌≡◌, refl, inl, inr,
  length, length-append, length-keep-le, keep, keep-append, if◌then◌else◌, arith, ap, sym, ◌∙◌,
}
use docsight.Guardrails.{
  Config, Chain, new, Verdict, cooling, recent, check_one, check_each, check_batch, any_allowed,
}
use docsight.Guardrails.Steps.{
  Outcome, fired, held, check_one-Outcome, Log, times, fire, fires, run, IsMonotonic, end_time,
}

-- What is recent at a later time was recent before.
keep-recent :
    (now t : ℕ) (xs : List ℕ)
    → now ≤ t
    → keep (recent t) (keep (recent now) xs) ≡ keep (recent t) xs
keep-recent now t [] h = refl
keep-recent now t (x ∷ xs) h = ground (arith, keep-recent now t xs h)

times-append : (xs ys : Log) → times (xs ++ ys) ≡ times xs ++ times ys
times-append [] ys = refl
times-append ((k, t) ∷ xs) ys = ap (λ l. t ∷ l) (times-append xs ys)

-- The chain's record of fires agrees with the log on the last hour, and is as short as the limit says.
pub record Tracks (cfg : Config) (now : ℕ) (c : Chain) (log : Log) : Type 0 where
  pub hourly : (t : ℕ) → now ≤ t → keep (recent t) (times log) ≡ keep (recent t) c.hourly_fires
  pub capped : 0 < cfg.max_actions_per_hour → length c.hourly_fires ≤ cfg.max_actions_per_hour

step-Tracks :
    (cfg : Config) (now : ℕ) (key : String) (c : Chain) (v : Verdict) (c' : Chain) (log : Log)
    → Outcome cfg now key c v c'
    → Tracks cfg now c log
    → Tracks cfg now c' (log ++ fire key now v)
step-Tracks cfg now key c v c' log (fired a b d e f) tr = record {
  hourly = λ t h.
      rw (a, times-append log ((key, now) ∷ []), b)
        (keep-append (recent t) (times log) (now ∷ [])
          ∙ ap (λ l. l ++ keep (recent t) (now ∷ []))
              (tr.hourly t h ∙ sym (keep-recent now t c.hourly_fires h))
          ∙ sym (keep-append (recent t) (keep (recent now) c.hourly_fires) (now ∷ [])));
  capped =
      λ p. rw b (omega (arith, f p, length-append (keep (recent now) c.hourly_fires) (now ∷ [])));
}
step-Tracks cfg now key c v c' log (held a (inl b) d) tr =
    rw (a, append-nil log)
      (record { hourly = λ t h. rw b (tr.hourly t h); capped = λ p. rw b (tr.capped p) })
step-Tracks cfg now key c v c' log (held a (inr b) d) tr =
    rw (a, append-nil log)
      (record {
        hourly = λ t h. rw b (tr.hourly t h ∙ sym (keep-recent now t c.hourly_fires h));
        capped = λ p. rw b (omega (arith, tr.capped p, length-keep-le (recent now) c.hourly_fires));
      })

later :
    (cfg : Config) (now now' : ℕ) (c : Chain) (log : Log)
    → now ≤ now'
    → Tracks cfg now c log
    → Tracks cfg now' c log
later cfg now now' c log h tr = record {
  hourly = λ t k. tr.hourly t (omega arith);
  capped = tr.capped;
}

mark-Tracks :
    (cfg : Config) (now t : ℕ) (b : Bool) (c : Chain) (log : Log)
    → Tracks cfg now c log
    → Tracks cfg now (if b then record c { last_global_fire = some t } else c) log
mark-Tracks cfg now t true c log tr = record { hourly = tr.hourly; capped = tr.capped }
mark-Tracks cfg now t false c log tr = tr

module _ {M : Type 0} (key : M → String) where
  check_each-Tracks :
      (cfg : Config) (now : ℕ) (blocked : Option ℕ) (ms : List M) (c : Chain) (log : Log)
      → Tracks cfg now c log
      → let (results, c') = check_each key cfg now blocked ms c in
        Tracks cfg now c' (log ++ fires key now results)
  unfolding check_each fires
  check_each-Tracks cfg now blocked [] c log tr = rw (append-nil log) tr
  check_each-Tracks cfg now blocked (m ∷ ms) c log tr =
      let (v, c') = check_one cfg now blocked (key m) c in
      let tr' =
        step-Tracks cfg now (key m) c v c' log (check_one-Outcome cfg now blocked (key m) c) tr in
      rw (← append_assoc) (check_each-Tracks cfg now blocked ms c' (log ++ fire (key m) now v) tr')

  check_batch-Tracks :
      (cfg : Config) (now : ℕ) (ms : List M) (c : Chain) (log : Log)
      → Tracks cfg now c log
      → let (results, c') = check_batch key cfg now ms c in
        Tracks cfg now c' (log ++ fires key now results)
  unfolding check_batch fires
  check_batch-Tracks cfg now [] c log tr = rw (append-nil log) tr
  check_batch-Tracks cfg now (m ∷ ms) c log tr =
      let blocked = cooling cfg.global_cooldown now c.last_global_fire in
      let (results, c') = check_each key cfg now blocked (m ∷ ms) c in
      mark-Tracks cfg now now (any_allowed key results) c' (log ++ fires key now results)
        (check_each-Tracks cfg now blocked (m ∷ ms) c log tr)

  run-Tracks :
      (cfg : Config) (start : ℕ) (batches : List (ℕ × List M)) (c : Chain) (log : Log)
      → IsMonotonic key start batches
      → Tracks cfg start c log
      → Tracks cfg
          (end_time key start batches)
          (run key cfg batches (c, log)).0
          (run key cfg batches (c, log)).1
  unfolding run
  run-Tracks cfg start [] c log m tr = tr
  run-Tracks cfg start ((now, ms) ∷ batches) c log m tr =
      let (results, c') = check_batch key cfg now ms c in
      run-Tracks cfg now batches c' (log ++ fires key now results) m.1
        (check_batch-Tracks cfg now ms c log (later cfg start now c log m.0 tr))

  -- Whatever batches a new chain checks under a clock that does not run backwards, and however their
  -- matches are spread over triggers, the captures allowed in the hour before any later time are at
  -- most `max_actions_per_hour`, if that limit is on.
  pub rate_limit :
      (cfg : Config) (start : ℕ) (batches : List (ℕ × List M)) (t : ℕ)
      → IsMonotonic key start batches
      → 0 < cfg.max_actions_per_hour
      → end_time key start batches ≤ t
      → length (keep (recent t) (times (run key cfg batches (new, [])).1))
        ≤ cfg.max_actions_per_hour
  rate_limit cfg start batches t m p h =
      let tr =
        run-Tracks cfg start batches new [] m
          (record { hourly = λ u k. refl; capped = λ q. omega arith }) in
      rw (tr.hourly t h) (
        omega (
          arith,
          tr.capped p,
          length-keep-le (recent t) (run key cfg batches (new, [])).0.hourly_fires,
        ))
