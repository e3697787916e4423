-- ===== src/Connection/Outages.antt =====
-- app/modules/connection_monitor/event_rules.py: the state of a target against the history of its probes.
use docsight.Prelude.{
  ℕ, suc, max, ◌≡◌, refl, ◌∙◌, Bool, true, false, ◌&&◌, some, List, [], ◌∷◌, ltb, leb, ◌==◌,
  if◌then◌else◌, arith, Bool-cases, inl, inr,
}
use docsight.Connection.{
  TargetState, find, put, Rules, new, Event, unreachable, recovered, fresh, get_state, set_state,
  check_probe_result,
}

-- A probe of a target, by its id and whether it timed out. A history has the last probe first.
abbrev pub Probe : Type 0
Probe = ℕ × Bool

abbrev pub step : Probe → Rules → Rules
step (id, timeout) r = (check_probe_result id timeout r).0

-- The rules after a history of probes of any targets.
abbrev pub after : ℕ → ℕ → List Probe → Rules
after outage loss [] = new outage loss
after outage loss (p ∷ ps) = step p (after outage loss ps)

-- How many probes of a target have timed out since one last got through.
abbrev pub timeouts : ℕ → List Probe → ℕ
timeouts id [] = 0
timeouts id ((j, t) ∷ ps) =
    if j == id then (if t then suc (timeouts id ps) else 0) else timeouts id ps

-- The state that a history calls for.
abbrev pub is_down : ℕ → ℕ → Bool
is_down outage n = ltb 0 n && leb outage n

pub find-put :
    {A : Type 0} (k j : ℕ) (a : A) (es : List (ℕ × A))
    → find j (put k a es) ≡ (if k == j then some a else find j es)
find-put k j a [] = refl
find-put k j a ((i, b) ∷ es) = let rest = find-put k j a es in ground (arith, rest)

abbrev called_for : ℕ → ℕ → TargetState
called_for outage n = record { consecutive_timeouts = n; in_outage = is_down outage n }

step_keeps_threshold : (p : Probe) (r : Rules) → (step p r).outage_threshold ≡ r.outage_threshold
unfolding check_probe_result get_state
step_keeps_threshold (id, true) r = ground arith
step_keeps_threshold (id, false) r = refl

after_threshold :
    (outage loss : ℕ) (ps : List Probe) → (after outage loss ps).outage_threshold ≡ outage
after_threshold outage loss [] = refl
after_threshold outage loss (p ∷ ps) =
    step_keeps_threshold p (after outage loss ps) ∙ after_threshold outage loss ps

get_state-set_state :
    (id j : ℕ) (s : TargetState) (r : Rules)
    → get_state id (set_state j s r) ≡ (if j == id then s else get_state id r)
unfolding get_state
get_state-set_state id j s r =
    let law = find-put j id s r.target_state in
    elim (Bool-cases (j == id)) [ inl e ↦ ground (arith, law, e) | inr e ↦ ground (arith, law, e) ]

eq_self : (n : ℕ) → (n == n) ≡ true
eq_self n = ground arith

pub eq_true : (j k : ℕ) → (j == k) ≡ true → j ≡ k
eq_true j k e = ground (arith, e)

step_other :
    (id j : ℕ) (t : Bool) (r : Rules)
    → (j == id) ≡ false
    → get_state id (step (j, t) r) ≡ get_state id r
unfolding check_probe_result
step_other id j true r e =
    let n = suc (get_state j r).consecutive_timeouts in
    let a = get_state-set_state id j (record { consecutive_timeouts = n; in_outage = true }) r in
    let b = get_state-set_state id j (record (get_state j r) { consecutive_timeouts = n }) r in
    ground (arith, a, b, e)
step_other id j false r e = get_state-set_state id j fresh r ∙ (rw e refl)

-- One probe of the target, from the state that the history calls for.
step_same :
    (outage n id : ℕ) (t : Bool) (r : Rules)
    → r.outage_threshold ≡ outage
    → get_state id r ≡ called_for outage n
    → get_state id (step (id, t) r) ≡ called_for outage (if t then suc n else 0)
unfolding check_probe_result
step_same outage n id true r o s =
    let m = suc (get_state id r).consecutive_timeouts in
    let a = get_state-set_state id id (record { consecutive_timeouts = m; in_outage = true }) r in
    let b = get_state-set_state id id (record (get_state id r) { consecutive_timeouts = m }) r in
    ground (arith, a, b, s, o, eq_self id)
step_same outage n id false r o s = get_state-set_state id id fresh r ∙ rw (eq_self id) refl

after_state :
    (outage loss id : ℕ) (ps : List Probe)
    → get_state id (after outage loss ps) ≡ called_for outage (timeouts id ps)
after_state outage loss id [] = unfold get_state in refl
after_state outage loss id ((j, t) ∷ ps) =
    let ih = after_state outage loss id ps in
    elim (Bool-cases (j == id)) [
      | inl e ↦
          rw (eq_true j id e, eq_self id)
            (step_same outage (timeouts id ps) id t (after outage loss ps)
              (after_threshold outage loss ps) ih)
      | inr e ↦ rw e (step_other id j t (after outage loss ps) e ∙ ih)
    ]

-- What a probe reports after a history.
abbrev pub report : ℕ → ℕ → Bool → ℕ → List Event
report outage id true n = if suc n == max 1 outage then unreachable id (suc n) ∷ [] else []
report outage id false n = if is_down outage n then recovered id n ∷ [] else []

-- After any history of probes, those of other targets included, the next probe of a target reports
-- exactly what the target's own probes call for: a timeout reports the target unreachable just when the
-- run of its timeouts reaches the threshold (the first one does for a threshold of 0), and a probe that
-- gets through reports a recovery just when that many have timed out since the last one; no other probe
-- reports anything.
pub probe_report :
    (outage loss id : ℕ) (t : Bool) (ps : List Probe)
    → (check_probe_result id t (after outage loss ps)).1 ≡ report outage id t (timeouts id ps)
unfolding check_probe_result
probe_report outage loss id true ps =
    let s = after_state outage loss id ps in
    let o = after_threshold outage loss ps in ground (arith, s, o)
probe_report outage loss id false ps = let s = after_state outage loss id ps in ground (arith, s)
