-- ===== src/Events/Channels/Accounts.antt =====
-- app/event_detector.py: the lost and the added channels account for the change of the number.
use mathlib.Core.List.{append_assoc, append-nil}
use docsight.Prelude.{
  suc, ◌+◌, ◌≡◌, ◌≢◌, refl, subst, sym, ap, ◌∙◌, String, Bool, true, false, not, ◌||◌, Option, none,
  some, List, [], ◌∷◌, ◌++◌, count_if, length, ◌⊎◌, ltb, ◌==◌, arith, Bool-cases, Option-cases, inl,
  inr,
}
use docsight.Prelude.Dict.{Dict, lookup, insert}
use docsight.Docsis.Family.{Direction}
use docsight.Events.Channels.Keys.{has, Distinct, keys, eq_sym, shared, split_count}
use docsight.Events.Channels.{
  SnapshotChannel, enter, map_from, channel_map, ChannelDetail, is_missing, only_in, insert_detail,
  sort_details, ChannelChange, channel_change,
}

-- A map of channels whose keys are all there and distinct.
abbrev and_key : Option String → List String → List String
and_key none ks = ks
and_key (some k) ks = k ∷ ks

abbrev keys_of : List SnapshotChannel → List String
keys_of [] = []
keys_of (ch ∷ chs) = and_key ch.key (keys_of chs)

abbrev all_known : List SnapshotChannel → Bool
all_known [] = true
all_known (ch ∷ chs) = elim ch.key [ none ↦ false | some k ↦ all_known chs ]

abbrev pub IsNumbered : List SnapshotChannel → Type 0
IsNumbered chs = (all_known chs ≡ true) × Distinct (keys_of chs)

known_length :
    (chs : List SnapshotChannel) → all_known chs ≡ true → length (keys_of chs) ≡ length chs
known_length [] h = refl
known_length (ch ∷ chs) h = elim (Option-cases ch.key) [
  | inl e ↦ ground (arith, e)
  | inr (k, e) ↦ let ih = known_length chs in ground (arith, e, ih)
]

has-append : (xs ys : List String) (k : String) → has (xs ++ ys) k ≡ (has xs k || has ys k)
has-append [] ys k = refl
has-append (x ∷ xs) ys k = let ih = has-append xs ys k in ground (arith, ih)

keys-insert :
    (k : String) (ch : SnapshotChannel) (d : Dict SnapshotChannel)
    → has (keys d) k ≡ false
    → keys (insert k ch d) ≡ keys d ++ k ∷ []
unfolding insert
keys-insert k ch [] h = refl
keys-insert k ch ((j, c) ∷ d) h = let ih = keys-insert k ch d in ground (arith, ih)

-- None of the second list is in the first.
abbrev Apart : List String → List String → Type 0
Apart ks [] = Unit
Apart ks (x ∷ xs) = (has ks x ≡ false) × Apart ks xs

Apart-more :
    (k : String) (ks xs : List String) → has xs k ≡ false → Apart ks xs → Apart (ks ++ k ∷ []) xs
Apart-more k ks [] h a = tt
Apart-more k ks (x ∷ xs) h a =
    let law = has-append ks (k ∷ []) x in
    let sym_law = eq_sym k x in
    (ground (arith, law, sym_law, h, a.0), Apart-more k ks xs (ground (arith, h)) a.1)

entered_keys :
    (o : Option String) (ch : SnapshotChannel) (chs : List SnapshotChannel)
    (d : Dict SnapshotChannel)
    → ((e : Dict SnapshotChannel)
        → Distinct (keys_of chs)
        → Apart (keys e) (keys_of chs)
        → keys (map_from chs e) ≡ keys e ++ keys_of chs)
    → Distinct (and_key o (keys_of chs))
    → Apart (keys d) (and_key o (keys_of chs))
    → keys (map_from chs (enter o ch d)) ≡ keys d ++ and_key o (keys_of chs)
entered_keys none ch chs d ih h a = ih d h a
entered_keys (some k) ch chs d ih h a =
    let e = keys-insert k ch d a.0 in
    let apart : Apart (keys (insert k ch d)) (keys_of chs) =
      subst (λ ks. Apart ks (keys_of chs)) (sym e) (Apart-more k (keys d) (keys_of chs) h.0 a.1) in
    ih (insert k ch d) h.1 apart
    ∙ ap (λ ks. ks ++ keys_of chs) e
    ∙ append_assoc (keys d) (k ∷ []) (keys_of chs)

keys-map_from :
    (chs : List SnapshotChannel) (d : Dict SnapshotChannel)
    → Distinct (keys_of chs)
    → Apart (keys d) (keys_of chs)
    → keys (map_from chs d) ≡ keys d ++ keys_of chs
unfolding map_from
keys-map_from [] d h a = sym (append-nil (keys d))
keys-map_from (ch ∷ chs) d h a = entered_keys ch.key ch chs d (keys-map_from chs) h a

Apart-nil : (xs : List String) → Apart [] xs
Apart-nil [] = tt
Apart-nil (x ∷ xs) = (refl, Apart-nil xs)

keys-channel_map :
    (chs : List SnapshotChannel) → IsNumbered chs → keys (channel_map chs) ≡ keys_of chs
keys-channel_map chs n = keys-map_from chs [] n.1 (Apart-nil (keys_of chs))

lookup_missing :
    (k : String) (d : Dict SnapshotChannel) → is_missing (lookup k d) ≡ not (has (keys d) k)
unfolding lookup
lookup_missing k [] = refl
lookup_missing k ((j, c) ∷ d) = let ih = lookup_missing k d in ground (arith, ih)

length-only_in :
    (dir : Direction) (d other : Dict SnapshotChannel)
    → length (only_in dir d other) ≡ count_if (λ k. not (has (keys other) k)) (keys d)
unfolding only_in
length-only_in dir [] other = refl
length-only_in dir ((k, c) ∷ d) other =
    let ih = length-only_in dir d other in let m = lookup_missing k other in ground (arith, ih, m)

length-insert_detail :
    (d : ChannelDetail) (es : List ChannelDetail) → length (insert_detail d es) ≡ suc (length es)
unfolding insert_detail
length-insert_detail d [] = refl
length-insert_detail d (e ∷ es) = let ih = length-insert_detail d es in ground (arith, ih)

length-sort_details : (es : List ChannelDetail) → length (sort_details es) ≡ length es
unfolding sort_details
length-sort_details [] = refl
length-sort_details (e ∷ es) =
    length-insert_detail e (sort_details es) ∙ ap suc (length-sort_details es)

-- How many channels of one map the other does not have.
count_only :
    (dir : Direction) (xs ys : List SnapshotChannel)
    → IsNumbered xs
    → IsNumbered ys
    → length (sort_details (only_in dir (channel_map xs) (channel_map ys)))
      ≡ count_if (λ k. not (has (keys_of ys) k)) (keys_of xs)
count_only dir xs ys nx ny =
    length-sort_details (only_in dir (channel_map xs) (channel_map ys))
    ∙ length-only_in dir (channel_map xs) (channel_map ys)
    ∙ rw (keys-channel_map xs nx, keys-channel_map ys ny) refl

accounts :
    (dir : Direction) (cur prev : List SnapshotChannel)
    → IsNumbered cur
    → IsNumbered prev
    → length cur + length (sort_details (only_in dir (channel_map prev) (channel_map cur)))
      ≡ length prev + length (sort_details (only_in dir (channel_map cur) (channel_map prev)))
accounts dir cur prev nc np = omega (
  arith,
  count_only dir prev cur np nc,
  count_only dir cur prev nc np,
  shared (keys_of cur) (keys_of prev) nc.1 np.1,
  split_count (has (keys_of prev)) (keys_of cur),
  split_count (has (keys_of cur)) (keys_of prev),
  known_length cur nc.0,
  known_length prev np.0,
)

abbrev change_of : Direction → List SnapshotChannel → List SnapshotChannel → ChannelChange
change_of dir cur prev = record {
  direction = dir;
  prev = length prev;
  current = length cur;
  is_loss = ltb (length cur) (length prev);
  lost_channels = sort_details (only_in dir (channel_map prev) (channel_map cur));
  added_channels = sort_details (only_in dir (channel_map cur) (channel_map prev));
}

-- Where every channel of a direction has an id of its own in both snapshots and the totals count the
-- channels, there is no event just when as many channels are there as before; an event accounts for the
-- difference, the channels now and the lost ones being as many as those before and the added ones, and
-- it is a loss exactly when more channels were lost than added.
pub channel_change_accounts :
    (dir : Direction) (cur prev : List SnapshotChannel)
    → IsNumbered cur
    → IsNumbered prev
    → ((channel_change dir (length cur) (length prev) cur prev ≡ none) × (length cur ≡ length prev))
      ⊎ ((e : ChannelChange) × (channel_change dir (length cur) (length prev) cur prev ≡ some e)
          × (length cur ≢ length prev)
          × (length cur + length e.lost_channels ≡ length prev + length e.added_channels)
          × (e.is_loss ≡ ltb (length e.added_channels) (length e.lost_channels)))
unfolding channel_change
channel_change_accounts dir cur prev nc np =
    let a = accounts dir cur prev nc np in
    elim (Bool-cases (length cur == length prev)) [
      | inl e ↦ inl (rw e refl, ground (arith, e))
      | inr e ↦ inr (change_of dir cur prev, rw e refl, ground (arith, e), a, ground (arith, a))
    ]
