-- ===== src/Events/Channels.antt =====
-- app/event_detector.py: the change of the number of channels (`_check_channels`). The key of a channel
-- is the text of what `_normalize_channel_id` makes of its id, `none` for an id that is missing.
mod Keys
pub mod Accounts
use Prim.Native.String.{compare}
use text.Mathlib.Text.{is_le}
use docsight.Prelude.{
  ℕ, String, Bool, true, false, not, Option, none, some, List, [], ◌∷◌, ltb, ◌==◌, if◌then◌else◌,
}
use docsight.Prelude.Int.{ℤ}
use docsight.Prelude.Dict.{Dict, lookup, insert}
use docsight.Docsis.Family.{Direction, ds, us, Family, Carrier, channel_type_label}
use docsight.Analyzer.{Health}

-- A channel of a snapshot; its modulation and its version stand in the carrier.
pub record SnapshotChannel : Type 0 where
  pub key : Option String
  pub channel_id : String
  pub frequency : List ℕ
  pub carrier : Carrier
  pub channel_family : Option Family
  pub modulation_health : Option Health
  pub snr : Option ℤ
  pub snr_health : Option Health

-- An id that is missing is skipped.
abbrev pub enter : Option String → SnapshotChannel → Dict SnapshotChannel → Dict SnapshotChannel
enter none ch d = d
enter (some k) ch d = insert k ch d

unfoldable pub map_from : List SnapshotChannel → Dict SnapshotChannel → Dict SnapshotChannel
map_from [] d = d
map_from (ch ∷ chs) d = map_from chs (enter ch.key ch d)

-- `channel_map`
abbrev pub channel_map : List SnapshotChannel → Dict SnapshotChannel
channel_map chs = map_from chs []

-- `a or b` on texts
abbrev pub or_text : List ℕ → List ℕ → List ℕ
or_text [] t = t
or_text (c ∷ s) t = c ∷ s

-- What an event tells of a channel; an empty text is left out there.
pub record ChannelDetail : Type 0 where
  pub channel : String
  pub frequency : List ℕ
  pub docsis_version : List ℕ
  pub channel_type : List ℕ
  pub modulation : List ℕ

abbrev pub no_carrier : Carrier
no_carrier = record {
  kind = [];
  channel_type = [];
  multiplex = [];
  modulation = [];
  profile_modulation = [];
  profile_modulation_alias = [];
  docsis_version = [];
}

-- `channel_detail`
abbrev pub channel_detail : Direction → SnapshotChannel → ChannelDetail
channel_detail dir ch = record {
  channel = ch.channel_id;
  frequency = ch.frequency;
  docsis_version = ch.carrier.docsis_version;
  channel_type = channel_type_label dir ch.carrier no_carrier;
  modulation = ch.carrier.modulation;
}

abbrev pub is_missing {ℓ} : {A : Type ℓ} → Option A → Bool
is_missing none = true
is_missing (some a) = false

-- The channels of one map whose keys the other does not have.
unfoldable pub only_in :
    Direction → Dict SnapshotChannel → Dict SnapshotChannel → List ChannelDetail
only_in dir [] other = []
only_in dir ((k, ch) ∷ es) other =
    let rest = only_in dir es other in
    if is_missing (lookup k other) then channel_detail dir ch ∷ rest else rest

-- `sort(key=lambda ch: str(ch.get("channel", "")))`
unfoldable pub insert_detail : ChannelDetail → List ChannelDetail → List ChannelDetail
insert_detail d [] = d ∷ []
insert_detail d (e ∷ es) =
    if is_le (compare d.channel e.channel) then d ∷ e ∷ es else e ∷ insert_detail d es

unfoldable pub sort_details : List ChannelDetail → List ChannelDetail
sort_details [] = []
sort_details (d ∷ details) = insert_detail d (sort_details details)

pub record ChannelChange : Type 0 where
  pub direction : Direction
  pub prev : ℕ
  pub current : ℕ
  pub is_loss : Bool
  pub lost_channels : List ChannelDetail
  pub added_channels : List ChannelDetail

-- One direction of `_check_channels`, by the totals of the two summaries.
unfoldable pub channel_change :
    Direction → ℕ → ℕ → List SnapshotChannel → List SnapshotChannel → Option ChannelChange
channel_change dir current prev current_channels previous_channels =
    let cur_map = channel_map current_channels in
    let prev_map = channel_map previous_channels in
    if current == prev
    then none
    else some (record {
      direction = dir;
      prev = prev;
      current = current;
      is_loss = ltb current prev;
      lost_channels = sort_details (only_in dir prev_map cur_map);
      added_channels = sort_details (only_in dir cur_map prev_map);
    })

abbrev pub one_or_none {ℓ} : {A : Type ℓ} → Option A → List A → List A
one_or_none none rest = rest
one_or_none (some a) rest = a ∷ rest

-- The channels and the totals of an analysis.
pub record Snapshot : Type 0 where
  pub ds_total : ℕ
  pub us_total : ℕ
  pub ds_channels : List SnapshotChannel
  pub us_channels : List SnapshotChannel

-- `_check_channels`
unfoldable pub check_channels : Snapshot → Snapshot → List ChannelChange
check_channels cur prev =
    one_or_none (channel_change ds cur.ds_total prev.ds_total cur.ds_channels prev.ds_channels) (
      one_or_none (channel_change us cur.us_total prev.us_total cur.us_channels prev.us_channels)
        [])
