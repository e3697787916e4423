-- ===== src/Events/Affected.antt =====
-- app/event_detector.py: the channels whose signal to noise ratio got worse, by the healths of the
-- analyzer or, for older snapshots, by thresholds. Ratios are in thousandths of a decibel; the rounded
-- differences that an event tells are left out.
use Prim.Native.String.{compare}
use text.Mathlib.Text.{is_le}
use docsight.Prelude.{
  ℕ, String, Bool, true, false, not, ◌&&◌, ◌||◌, Option, none, some, List, [], ◌∷◌, ltb, leb, ◌==◌,
  if◌then◌else◌,
}
use docsight.Prelude.Dict.{Dict, lookup}
use docsight.Prelude.Int.{ℤ, ltb_ℤ}
use docsight.Docsis.Family.{Family, sc_qam, ofdm, ofdma, unknown, ds, channel_type_label}
use docsight.Analyzer.{Health, good, bad, Level, rank, health_rank}
use docsight.Events.Channels.{SnapshotChannel, channel_map, or_text}

-- What an event tells of a channel; `threshold` is the health, or the threshold, that it has reached.
pub record Affected : Type 0 where
  pub channel : String
  pub frequency : List ℕ
  pub docsis_version : List ℕ
  pub channel_type : List ℕ
  pub modulation : List ℕ
  pub prev : ℤ
  pub current : ℤ
  pub threshold : Level

abbrev pub affected : SnapshotChannel → SnapshotChannel → ℤ → ℤ → Level → Affected
affected c p prev current l = record {
  channel = c.channel_id;
  frequency = or_text c.frequency p.frequency;
  docsis_version = or_text c.carrier.docsis_version p.carrier.docsis_version;
  channel_type = channel_type_label ds c.carrier p.carrier;
  modulation = or_text c.carrier.modulation p.carrier.modulation;
  prev = prev;
  current = current;
  threshold = l;
}

abbrev pub is_analyzer_family : Option Family → Bool
is_analyzer_family none = false
is_analyzer_family (some sc_qam) = true
is_analyzer_family (some ofdm) = true
is_analyzer_family (some ofdma) = false
is_analyzer_family (some unknown) = false

-- The health of a channel, good where a channel of the analyzer's families has none.
abbrev pub known_health : Option Health → Option Family → Option Health
known_health (some h) f = some h
known_health none f = if is_analyzer_family f then some good else none

-- A channel of both snapshots: not comparable, without a health, not worse, or worse.
pub data Step : Type 0 where
  not_comparable missing_health steady : Step
  worse : Level → ℤ → ℤ → Step

abbrev pub compare_healths : ℤ → ℤ → Option Health → Option Health → Step
compare_healths prev current none k = missing_health
compare_healths prev current (some h) none = missing_health
compare_healths prev current (some h) (some good) = steady
compare_healths prev current (some h) (some (bad l)) =
    if leb (rank l) (health_rank h) then steady else worse l prev current

abbrev pub compare_ratios : Option ℤ → Option ℤ → Option Health → Option Health → Step
compare_ratios none current h k = not_comparable
compare_ratios (some p) none h k = not_comparable
compare_ratios (some p) (some c) h k = compare_healths p c h k

abbrev pub compare_channels : SnapshotChannel → SnapshotChannel → Step
compare_channels c p =
    compare_ratios p.snr c.snr (known_health p.snr_health p.channel_family)
      (known_health c.snr_health c.channel_family)

abbrev pub with_key : Option String → Dict SnapshotChannel → Option SnapshotChannel
with_key none prev = none
with_key (some k) prev = lookup k prev

-- The channels that got worse, and whether any was comparable; `none` for older snapshots.
abbrev pub Found : Type 0
Found = Option (Bool × List Affected)

abbrev pub as_found : Found → Found
as_found none = none
as_found (some (b, found)) = some (true, found)

abbrev pub and_worse : Affected → Found → Found
and_worse a none = none
and_worse a (some (b, found)) = some (true, a ∷ found)

abbrev pub add_step : SnapshotChannel → SnapshotChannel → Step → Found → Found
add_step c p not_comparable rest = rest
add_step c p missing_health rest = none
add_step c p steady rest = as_found rest
add_step c p (worse l prev current) rest = and_worse (affected c p prev current l) rest

abbrev pub add_channel : SnapshotChannel → Option SnapshotChannel → Found → Found
add_channel c none rest = rest
add_channel c (some p) rest = add_step c p (compare_channels c p) rest

unfoldable pub degradations : List SnapshotChannel → Dict SnapshotChannel → Found
degradations [] prev = some (false, [])
degradations (c ∷ cs) prev = add_channel c (with_key c.key prev) (degradations cs prev)

-- The order of the affected channels: the worst first, then the lowest ratio, then the name.
abbrev pub before : Affected → Affected → Bool
before a b =
    ltb (rank b.threshold) (rank a.threshold)
    || rank a.threshold == rank b.threshold
      && (ltb_ℤ a.current b.current
          || not (ltb_ℤ b.current a.current) && is_le (compare a.channel b.channel))

unfoldable pub insert_affected : Affected → List Affected → List Affected
insert_affected a [] = a ∷ []
insert_affected a (b ∷ bs) = if before a b then a ∷ b ∷ bs else b ∷ insert_affected a bs

unfoldable pub sort_affected : List Affected → List Affected
sort_affected [] = []
sort_affected (a ∷ found) = insert_affected a (sort_affected found)

abbrev pub sorted_if_any : Found → Option (List Affected)
sorted_if_any none = none
sorted_if_any (some (true, found)) = some (sort_affected found)
sorted_if_any (some (false, found)) = none

-- `_snr_affected_channels_by_health`
unfoldable pub affected_by_health :
    List SnapshotChannel → List SnapshotChannel → Option (List Affected)
affected_by_health cur prev = sorted_if_any (degradations cur (channel_map prev))

-- Older snapshots: the most severe threshold that a ratio has fallen below; the last one wins.
unfoldable pub crossed : ℤ → ℤ → List (Level × ℤ) → Option Level
crossed prev current [] = none
crossed prev current ((l, t) ∷ ts) =
    let later = crossed prev current ts in
    elim later [
      | some k ↦ some k
      | none ↦ if ltb_ℤ current t && not (ltb_ℤ prev t) then some l else none
    ]

abbrev pub crossing :
    SnapshotChannel
    → SnapshotChannel
    → Option ℤ
    → Option ℤ
    → List (Level × ℤ)
    → List Affected
    → List Affected
crossing c p none current ts rest = rest
crossing c p (some prev) none ts rest = rest
crossing c p (some prev) (some current) ts rest = elim (crossed prev current ts) [
  | none ↦ rest
  | some l ↦ affected c p prev current l ∷ rest
]

abbrev pub add_crossing :
    SnapshotChannel → Option SnapshotChannel → List (Level × ℤ) → List Affected → List Affected
add_crossing c none ts rest = rest
add_crossing c (some p) ts rest = crossing c p p.snr c.snr ts rest

unfoldable pub crossings :
    List SnapshotChannel → Dict SnapshotChannel → List (Level × ℤ) → List Affected
crossings [] prev ts = []
crossings (c ∷ cs) prev ts = add_crossing c (with_key c.key prev) ts (crossings cs prev ts)

-- There the lowest ratio stands first.
unfoldable pub insert_lowest : Affected → List Affected → List Affected
insert_lowest a [] = a ∷ []
insert_lowest a (b ∷ bs) =
    if ltb_ℤ a.current b.current
      || not (ltb_ℤ b.current a.current) && is_le (compare a.channel b.channel)
    then a ∷ b ∷ bs
    else b ∷ insert_lowest a bs

unfoldable pub sort_lowest : List Affected → List Affected
sort_lowest [] = []
sort_lowest (a ∷ rest) = insert_lowest a (sort_lowest rest)

-- `_snr_affected_channels`
unfoldable pub affected_channels :
    List SnapshotChannel → List SnapshotChannel → List (Level × ℤ) → List Affected
affected_channels cur prev ts = sort_lowest (crossings cur (channel_map prev) ts)
