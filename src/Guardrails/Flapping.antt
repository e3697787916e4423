-- ===== src/Guardrails/Flapping.antt =====
-- The flapping check of `GuardrailChain` over whole runs: it counts all matches, allowed or not.
use mathlib.Core.List.{append-nil, append_assoc}
use docsight.Prelude.{
  second, ℕ, ◌+◌, ◌*◌, ◌≤◌, ◌<◌, String, str_eq, eq_iff, Bool, true, false, Option, none, some,
  List, [], ◌∷◌, ◌++◌, ◌≡◌, refl, inl, inr, length, length-keep-le, keep, keep-append, ltb,
  if◌then◌else◌, arith, Bool-cases, ap, sym, ◌∙◌,
}
use docsight.Prelude.Dict.{Dict, lookup, insert, lookup-insert}
use docsight.Guardrails.{
  Config, Chain, new, Verdict, is_allowed, cooling, history, check_limits, check_one, check_each,
  check_batch, any_allowed,
}
use docsight.Guardrails.Steps.{Log, IsMonotonic, end_time}

abbrev pub in_window : Config → ℕ → ℕ → Bool
in_window cfg now t = ltb now (t + cfg.flapping_window * second)

-- The times at which a key was matched, in a log of all matches.
abbrev pub matches : String → Log → List ℕ
matches key [] = []
matches key ((k, t) ∷ log) = if str_eq k key then t ∷ matches key log else matches key log

matches-append :
    (key : String) (xs ys : Log) → matches key (xs ++ ys) ≡ matches key xs ++ matches key ys
matches-append key [] ys = refl
matches-append key ((k, t) ∷ xs) ys = ground (arith, matches-append key xs ys)

keep-in_window :
    (cfg : Config) (now t : ℕ) (xs : List ℕ)
    → now ≤ t
    → keep (in_window cfg t) (keep (in_window cfg now) xs) ≡ keep (in_window cfg t) xs
keep-in_window cfg now t [] h = refl
keep-in_window cfg now t (x ∷ xs) h = ground (arith, keep-in_window cfg now t xs h)

abbrev recorded : String → Chain → List ℕ
recorded key c = elim (lookup key c.trigger_match_history) [ none ↦ [] | some h ↦ h ]

-- The chain's histories agree with the log of matches on the window.
record Remembers (cfg : Config) (now : ℕ) (c : Chain) (log : Log) : Type 0 where
  agree :
      (k : String) (t : ℕ)
      → now ≤ t
      → keep (in_window cfg t) (matches k log) ≡ keep (in_window cfg t) (recorded k c)

history-check_one :
    (cfg : Config) (now : ℕ) (blocked : Option ℕ) (key : String) (c : Chain)
    → (check_one cfg now blocked key c).1.trigger_match_history
      ≡ insert key (history cfg now key c) c.trigger_match_history
unfolding check_one check_limits
history-check_one cfg now blocked key c = ground arith

calm_check :
    (cfg : Config) (now : ℕ) (blocked : Option ℕ) (key : String) (c : Chain)
    → is_allowed (check_one cfg now blocked key c).0 ≡ true
    → 0 < cfg.flapping_threshold
    → length (history cfg now key c) ≤ cfg.flapping_threshold
unfolding check_one
calm_check cfg now blocked key c a p = ground arith

recorded-check_one :
    (cfg : Config) (now : ℕ) (blocked : Option ℕ) (key k : String) (c : Chain)
    → recorded k (check_one cfg now blocked key c).1
      ≡ (if str_eq key k then history cfg now key c else recorded k c)
recorded-check_one cfg now blocked key k c =
    ap (λ (d : Dict (List ℕ)). elim (lookup k d) [ none ↦ [] | some h ↦ h ])
      (history-check_one cfg now blocked key c)
    ∙ ground (arith, lookup-insert key k (history cfg now key c) c.trigger_match_history)

-- The history of a key holds what the log says of the window, this match included.
history-matches :
    (cfg : Config) (now t : ℕ) (key : String) (c : Chain) (log : Log)
    → Remembers cfg now c log
    → now ≤ t
    → keep (in_window cfg t) (history cfg now key c)
      ≡ keep (in_window cfg t) (matches key log ++ now ∷ [])
history-matches cfg now t key c log r h =
    keep-append (in_window cfg t) (keep (in_window cfg now) (recorded key c)) (now ∷ [])
    ∙ ap (λ l. l ++ keep (in_window cfg t) (now ∷ []))
        (keep-in_window cfg now t (recorded key c) h ∙ sym (r.agree key t h))
    ∙ sym (keep-append (in_window cfg t) (matches key log) (now ∷ []))

step-Remembers :
    (cfg : Config) (now : ℕ) (blocked : Option ℕ) (key : String) (c : Chain) (log : Log)
    → Remembers cfg now c log
    → Remembers cfg now (check_one cfg now blocked key c).1 (log ++ (key, now) ∷ [])
step-Remembers cfg now blocked key c log r = record {
  agree = λ k t h.
      ap (keep (in_window cfg t)) (matches-append k log ((key, now) ∷ []))
      ∙ elim (Bool-cases (str_eq key k)) [
        | inr other ↦
            rw (other, append-nil (matches k log))
              (r.agree k t h
                ∙ ap (keep (in_window cfg t))
                    (sym (recorded-check_one cfg now blocked key k c ∙ rw other)))
        | inl same ↦
            let e = (eq_iff key k).0 same in
            rw same (
              ap (λ j. keep (in_window cfg t) (matches j log ++ now ∷ [])) (sym e)
              ∙ sym (history-matches cfg now t key c log r h)
              ∙ ap (keep (in_window cfg t))
                  (sym (recorded-check_one cfg now blocked key k c ∙ rw same)))
      ];
}

module _ {M : Type 0} (key : M → String) where
  -- All the matches of a batch, in a log.
  abbrev pub matched : ℕ → List M → Log
  matched now [] = []
  matched now (m ∷ ms) = (key m, now) ∷ matched now ms

  -- The chain after a run, and the log of its matches.
  unfoldable pub watch : Config → List (ℕ × List M) → Chain × Log → Chain × Log
  watch cfg [] s = s
  watch cfg ((now, ms) ∷ batches) (c, log) =
      watch cfg batches ((check_batch key cfg now ms c).1, log ++ matched now ms)

  -- Each allowed match of a batch is one of at most `flapping_threshold` matches of its trigger in the
  -- window: those logged before, and those of the batch up to it.
  abbrev pub IsCalm : Config → ℕ → Log → List (M × Verdict) → Type 0
  IsCalm cfg now log [] = Unit
  IsCalm cfg now log ((m, v) ∷ rest) =
      (is_allowed v ≡ true
        → 0 < cfg.flapping_threshold
        → length (keep (in_window cfg now) (matches (key m) log ++ now ∷ []))
          ≤ cfg.flapping_threshold)
      × IsCalm cfg now (log ++ (key m, now) ∷ []) rest

  check_each-IsCalm :
      (cfg : Config) (now : ℕ) (blocked : Option ℕ) (ms : List M) (c : Chain) (log : Log)
      → Remembers cfg now c log
      → IsCalm cfg now log (check_each key cfg now blocked ms c).0
        × Remembers cfg now (check_each key cfg now blocked ms c).1 (log ++ matched now ms)
  unfolding check_each
  check_each-IsCalm cfg now blocked [] c log r = (tt, rw (append-nil log) r)
  check_each-IsCalm cfg now blocked (m ∷ ms) c log r =
      let c' = (check_one cfg now blocked (key m) c).1 in
      let rest =
        check_each-IsCalm cfg now blocked ms c' (log ++ (key m, now) ∷ [])
          (step-Remembers cfg now blocked (key m) c log r) in
      (
        (
          λ a p. rw (← history-matches cfg now now (key m) c log r (omega arith)) (
              omega (
                arith,
                calm_check cfg now blocked (key m) c a p,
                length-keep-le (in_window cfg now) (history cfg now (key m) c),
              )),
          rest.0,
        ),
        rw (append_assoc log ((key m, now) ∷ []) (matched now ms)) at rest.1,
      )

  mark-Remembers :
      (cfg : Config) (now t : ℕ) (b : Bool) (c : Chain) (log : Log)
      → Remembers cfg now c log
      → Remembers cfg now (if b then record c { last_global_fire = some t } else c) log
  mark-Remembers cfg now t true c log r = record { agree = r.agree }
  mark-Remembers cfg now t false c log r = r

  check_batch-IsCalm :
      (cfg : Config) (now : ℕ) (ms : List M) (c : Chain) (log : Log)
      → Remembers cfg now c log
      → IsCalm cfg now log (check_batch key cfg now ms c).0
        × Remembers cfg now (check_batch key cfg now ms c).1 (log ++ matched now ms)
  unfolding check_batch
  check_batch-IsCalm cfg now [] c log r = (tt, rw (append-nil log) r)
  check_batch-IsCalm cfg now (m ∷ ms) c log r =
      let blocked = cooling cfg.global_cooldown now c.last_global_fire in
      let (results, c') = check_each key cfg now blocked (m ∷ ms) c in
      let (calm, r') = check_each-IsCalm cfg now blocked (m ∷ ms) c log r in
      (
        calm,
        mark-Remembers cfg now now (any_allowed key results) c' (log ++ matched now (m ∷ ms)) r',
      )

  watch-Remembers :
      (cfg : Config) (start : ℕ) (batches : List (ℕ × List M)) (c : Chain) (log : Log)
      → IsMonotonic key start batches
      → Remembers cfg start c log
      → Remembers cfg
          (end_time key start batches)
          (watch cfg batches (c, log)).0
          (watch cfg batches (c, log)).1
  unfolding watch
  watch-Remembers cfg start [] c log m r = r
  watch-Remembers cfg start ((now, ms) ∷ batches) c log m r =
      let later : Remembers cfg now c log = record {
        agree = λ k t h. r.agree k t (omega (arith, m.0));
      } in
      watch-Remembers cfg now batches (check_batch key cfg now ms c).1 (log ++ matched now ms) m.1
        (check_batch-IsCalm cfg now ms c log later).1

  -- After any run of a new chain under a clock that does not run backwards, a further batch allows a
  -- match only if at most `flapping_threshold` matches of its trigger, allowed or not and this one
  -- included, fall in the flapping window, if that check is on.
  pub flapping_limit :
      (cfg : Config) (start : ℕ) (batches : List (ℕ × List M)) (now : ℕ) (ms : List M)
      → IsMonotonic key start batches
      → end_time key start batches ≤ now
      → let (c, log) = watch cfg batches (new, []) in
        IsCalm cfg now log (check_batch key cfg now ms c).0
  unfolding lookup
  flapping_limit cfg start batches now ms m h =
      let (c, log) = watch cfg batches (new, []) in
      let r = watch-Remembers cfg start batches new [] m (record { agree = λ k t q. refl }) in
      (check_batch-IsCalm cfg now ms c log
        (record { agree = λ k t q. r.agree k t (omega arith) })).0
