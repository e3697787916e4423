-- ===== src/Events/Check/Maps.antt =====
-- app/event_detector.py: the dictionaries of channels have each key once.
use docsight.Prelude.{
  ◌≡◌, refl, inl, inr, String, str_eq, eq_iff, true, false, Option, none, some, List, [], ◌∷◌,
  Bool-cases,
}
use docsight.Prelude.Dict.{Dict, lookup, insert}
use docsight.Events.Restart
use docsight.Events.Restart.{
  by_id, by_id_from, overlap, is_declining, restart_of, check_restart, check_errors, has_declined,
  is_valid, totals_steady,
}
use docsight.Events.Channels.{SnapshotChannel, enter, map_from}

-- A map in which every entry is found under its key.
abbrev pub FoundIn : {V : Type 0} → Dict V → Dict V → Type 0
FoundIn d [] = Unit
FoundIn d ((k, v) ∷ es) = (lookup k d ≡ some v) × FoundIn d es

abbrev pub Unlike : {V : Type 0} → String → Dict V → Type 0
Unlike k [] = Unit
Unlike k ((j, v) ∷ es) = (str_eq k j ≡ false) × Unlike k es

-- A map without repeated keys.
abbrev pub IsMap : {V : Type 0} → Dict V → Type 0
IsMap [] = Unit
IsMap ((k, v) ∷ es) = Unlike k es × IsMap es

Unlike-insert :
    {V : Type 0} (j k : String) (v : V) (d : Dict V)
    → str_eq j k ≡ false
    → Unlike j d
    → Unlike j (insert k v d)
unfolding insert
Unlike-insert j k v [] h u = (h, tt)
Unlike-insert j k v ((i, w) ∷ d) h u = elim (Bool-cases (str_eq i k)) [
  | inl e ↦ rw e (u.0, u.1)
  | inr e ↦ rw e (u.0, Unlike-insert j k v d h u.1)
]

IsMap-insert : {V : Type 0} (k : String) (v : V) (d : Dict V) → IsMap d → IsMap (insert k v d)
unfolding insert
IsMap-insert k v [] m = (tt, tt)
IsMap-insert k v ((i, w) ∷ d) m = elim (Bool-cases (str_eq i k)) [
  | inl e ↦ rw e (m.0, m.1)
  | inr e ↦ rw e (Unlike-insert i k v d e m.0, IsMap-insert k v d m.1)
]

found_later :
    {V : Type 0} (k : String) (v : V) (d es : Dict V)
    → Unlike k es
    → FoundIn d es
    → FoundIn ((k, v) ∷ d) es
unfolding lookup
found_later k v d [] u f = tt
found_later k v d ((j, w) ∷ es) u f = (rw (u.0) f.0, found_later k v d es u.1 f.1)

here : {V : Type 0} (k : String) (v : V) (d : Dict V) → lookup k ((k, v) ∷ d) ≡ some v
unfolding lookup
here k v d = let e : str_eq k k ≡ true = (eq_iff k k).1 refl in rw e refl

pub found_self : {V : Type 0} (d : Dict V) → IsMap d → FoundIn d d
unfolding lookup
found_self [] m = tt
found_self ((k, v) ∷ d) m = (here k v d, found_later k v d d m.0 (found_self d m.1))

entered :
    (o : Option String) (ch : SnapshotChannel) (d : Dict SnapshotChannel)
    → IsMap d
    → IsMap (enter o ch d)
entered none ch d m = m
entered (some k) ch d m = IsMap-insert k ch d m

pub map_from-IsMap :
    (chs : List SnapshotChannel) (d : Dict SnapshotChannel) → IsMap d → IsMap (map_from chs d)
unfolding map_from
map_from-IsMap [] d m = m
map_from-IsMap (ch ∷ chs) d m = map_from-IsMap chs (enter ch.key ch d) (entered ch.key ch d m)

pub by_id_from-IsMap :
    (chs : List Restart.Channel) (d : Dict Restart.Channel) → IsMap d → IsMap (by_id_from chs d)
unfolding by_id_from
by_id_from-IsMap [] d m = m
by_id_from-IsMap (ch ∷ chs) d m =
    by_id_from-IsMap chs (insert ch.channel_id ch d) (IsMap-insert ch.channel_id ch d m)
