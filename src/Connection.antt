-- ===== src/Connection.antt =====
-- app/modules/connection_monitor/event_rules.py, `ConnectionEventRules`: outages, recoveries and packet
-- losses of the probed targets. Percentages are in thousandths and the clock in milliseconds.
pub mod Outages
pub mod Losses
mod Tests
use docsight.Prelude.{
  ℕ, suc, ◌+◌, Bool, true, false, not, ◌&&◌, Option, none, some, List, [], ◌∷◌, ltb, leb, ◌==◌,
  if◌then◌else◌,
}

pub record TargetState : Type 0 where
  pub consecutive_timeouts : ℕ
  pub in_outage : Bool

-- A dictionary with the ids of targets as its keys.
abbrev pub find {ℓ} : {A : Type ℓ} → ℕ → List (ℕ × A) → Option A
find k [] = none
find k ((j, a) ∷ es) = if j == k then some a else find k es

abbrev pub put {ℓ} : {A : Type ℓ} → ℕ → A → List (ℕ × A) → List (ℕ × A)
put k a [] = (k, a) ∷ []
put k a ((j, b) ∷ es) = if j == k then (k, a) ∷ es else (j, b) ∷ put k a es

pub record Rules : Type 0 where
  pub outage_threshold : ℕ
  pub loss_warning_pct : ℕ
  pub target_state : List (ℕ × TargetState)
  pub loss_cooldown : List (ℕ × ℕ)

-- `ConnectionEventRules.__init__`
abbrev pub new : ℕ → ℕ → Rules
new outage loss = record {
  outage_threshold = outage;
  loss_warning_pct = loss;
  target_state = [];
  loss_cooldown = [];
}

pub data Event : Type 0 where
  unreachable recovered : ℕ → ℕ → Event

pub record LossWarning : Type 0 where
  pub target_id : ℕ
  pub packet_loss_pct : ℕ
  pub window_seconds : ℕ

abbrev pub fresh : TargetState
fresh = record { consecutive_timeouts = 0; in_outage = false }

abbrev pub known : Option TargetState → TargetState
known none = fresh
known (some s) = s

-- `_get_state`, which enters a new target.
unfoldable pub get_state : ℕ → Rules → TargetState
get_state id r = known (find id r.target_state)

abbrev pub set_state : ℕ → TargetState → Rules → Rules
set_state id s r = record r { target_state = put id s r.target_state }

-- `check_probe_result`
unfoldable pub check_probe_result : ℕ → Bool → Rules → Rules × List Event
check_probe_result id true r =
    let s = get_state id r in
    let n = suc s.consecutive_timeouts in
    if leb r.outage_threshold n && not s.in_outage
    then (
      set_state id (record { consecutive_timeouts = n; in_outage = true }) r,
      unreachable id n ∷ [],
    )
    else (set_state id (record s { consecutive_timeouts = n }) r, [])
check_probe_result id false r =
    let s = get_state id r in
    (set_state id fresh r, if s.in_outage then recovered id s.consecutive_timeouts ∷ [] else [])

-- `LOSS_COOLDOWN_S`
abbrev pub loss_cooldown_ms : ℕ
loss_cooldown_ms = 300000

abbrev pub or_zero : Option ℕ → ℕ
or_zero none = 0
or_zero (some n) = n

-- `check_window_stats`, at the time of the clock.
unfoldable pub check_window_stats : ℕ → ℕ → ℕ → ℕ → Rules → Rules × List LossWarning
check_window_stats id pct window now r =
    if leb r.loss_warning_pct pct
    then (if leb (or_zero (find id r.loss_cooldown) + loss_cooldown_ms) now
        then (
          record r { loss_cooldown = put id now r.loss_cooldown },
          record { target_id = id; packet_loss_pct = pct; window_seconds = window } ∷ [],
        )
        else (r, []))
    else (r, [])
