-- ===== src/Events/Modulation.antt =====
-- app/event_detector.py: the changes of modulation (`_check_modulation`).
pub mod Changes
mod Tests
use docsight.Prelude.{
  ◌-◌, ℕ, max, String, Bool, true, false, not, ◌&&◌, ◌||◌, Option, none, some, List, [], ◌∷◌, ◌++◌,
  map, any, ltb, leb, keep, if◌then◌else◌,
}
use docsight.Prelude.Dict.{Dict, lookup}
use docsight.Prelude.Int.{ℤ, sub_ℕ}
use docsight.Docsis.{same_codes, qam_rank}
use docsight.Docsis.Family.{Direction, ds, us, channel_type_label}
use docsight.Analyzer.{Health, health_rank}
use docsight.Events.Channels.{SnapshotChannel, Snapshot, channel_map, or_text}

pub record ModulationEntry : Type 0 where
  pub channel : String
  pub direction : Direction
  pub prev : List ℕ
  pub current : List ℕ
  pub prev_rank : ℕ
  pub current_rank : ℕ
  pub rank_drop : ℤ
  pub docsis_version : List ℕ
  pub prev_modulation_health : Option Health
  pub current_modulation_health : Option Health
  pub channel_type : List ℕ
  pub frequency : List ℕ

-- `change_entry`
unfoldable pub change_entry : Direction → SnapshotChannel → SnapshotChannel → ModulationEntry
change_entry dir cur_ch prev_ch =
    let cur_rank = qam_rank cur_ch.carrier.modulation in
    let prev_rank = qam_rank prev_ch.carrier.modulation in
    record {
      channel = cur_ch.channel_id;
      direction = dir;
      prev = prev_ch.carrier.modulation;
      current = cur_ch.carrier.modulation;
      prev_rank = prev_rank;
      current_rank = cur_rank;
      rank_drop = sub_ℕ prev_rank cur_rank;
      docsis_version = or_text cur_ch.carrier.docsis_version prev_ch.carrier.docsis_version;
      prev_modulation_health = prev_ch.modulation_health;
      current_modulation_health = cur_ch.modulation_health;
      channel_type = channel_type_label dir cur_ch.carrier prev_ch.carrier;
      frequency = or_text cur_ch.frequency prev_ch.frequency;
    }

abbrev pub entry_for :
    Direction
    → SnapshotChannel
    → Option SnapshotChannel
    → List ModulationEntry
    → List ModulationEntry
entry_for dir c none rest = rest
entry_for dir c (some p) rest =
    if same_codes c.carrier.modulation p.carrier.modulation
    then rest
    else change_entry dir c p ∷ rest

-- The entries of the channels in both maps whose modulation differs, in the order of the first map.
unfoldable pub changed :
    Direction → Dict SnapshotChannel → Dict SnapshotChannel → List ModulationEntry
changed dir [] prev = []
changed dir ((k, c) ∷ cur) prev = entry_for dir c (lookup k prev) (changed dir cur prev)

abbrev pub is_downgrade : ModulationEntry → Bool
is_downgrade e = ltb e.current_rank e.prev_rank

pub data Severity : Type 0 where
  info warning critical : Severity

pub record ModulationChange : Type 0 where
  pub severity : Severity
  pub is_downgrade_event : Bool
  pub changes : List ModulationEntry

-- `QAM_CRITICAL_DROP`
abbrev pub qam_critical_drop : ℕ
qam_critical_drop = 3

abbrev pub largest : List ℕ → ℕ
largest [] = 0
largest (n ∷ ns) = max n (largest ns)

-- The levels that a downgrade has lost.
abbrev pub drop_of : ModulationEntry → ℕ
drop_of e = e.prev_rank - e.current_rank

-- The ranks of the healths that the downgraded channels have.
unfoldable pub current_health_ranks : List ModulationEntry → List ℕ
current_health_ranks [] = []
current_health_ranks (e ∷ es) =
    let rest = current_health_ranks es in
    elim e.current_modulation_health [ none ↦ rest | some h ↦ health_rank h ∷ rest ]

abbrev pub is_empty {ℓ} : {A : Type ℓ} → List A → Bool
is_empty [] = true
is_empty (x ∷ xs) = false

unfoldable pub downgrade_severity : List ModulationEntry → Severity
unfolding current_health_ranks
downgrade_severity es =
    let ranks = current_health_ranks es in
    if leb 3 (largest ranks) || is_empty ranks && leb qam_critical_drop (largest (map drop_of es))
    then critical
    else warning

abbrev pub downgrade_event : List ModulationEntry → List ModulationChange
downgrade_event [] = []
downgrade_event (e ∷ es) =
    record { severity = downgrade_severity (e ∷ es); is_downgrade_event = true; changes = e ∷ es }
    ∷ []

abbrev pub upgrade_event : List ModulationEntry → List ModulationChange
upgrade_event [] = []
upgrade_event (e ∷ es) =
    record { severity = info; is_downgrade_event = false; changes = e ∷ es } ∷ []

-- `_check_modulation`
unfoldable pub check_modulation : Snapshot → Snapshot → List ModulationChange
check_modulation cur prev =
    let all =
      changed ds (channel_map cur.ds_channels) (channel_map prev.ds_channels)
      ++ changed us (channel_map cur.us_channels) (channel_map prev.us_channels) in
    downgrade_event (keep is_downgrade all) ++ upgrade_event (keep (λ e. not (is_downgrade e)) all)
