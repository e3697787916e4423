-- ===== src/Events/Modulation/Changes.antt =====
-- app/event_detector.py: every channel that falls to a lower modulation is reported, and how severely.
use docsight.Prelude.{
  ◌-◌, ℕ, ◌<◌, ◌≡◌, refl, subst, ap, ◌∙◌, ◌⊎◌, inl, inr, String, str_eq, eq_iff, Bool, true, false,
  not, ◌&&◌, ◌||◌, Option, none, some, List, [], ◌∷◌, ◌++◌, All, map, any, leb, keep, if◌then◌else◌,
  arith, Bool-cases, Option-cases,
}
use docsight.Prelude.Dict.{Dict, lookup}
use docsight.Docsis.{same_codes, qam_rank}
use docsight.Docsis.Family.{Direction, ds, us}
use docsight.Analyzer.{health_rank}
use docsight.Events.Channels.{SnapshotChannel, Snapshot, channel_map}
use docsight.Events.Modulation.{
  Severity, ModulationEntry, change_entry, changed, entry_for, is_downgrade, ModulationChange,
  drop_of, largest, current_health_ranks, is_empty, downgrade_severity, downgrade_event,
  check_modulation, qam_critical_drop,
}

abbrev pub Occurs : {A : Type 0} → A → List A → Type 0
Occurs a [] = ⊥
Occurs a (x ∷ xs) = (x ≡ a) ⊎ Occurs a xs

Occurs-left : {A : Type 0} (a : A) (xs ys : List A) → Occurs a xs → Occurs a (xs ++ ys)
Occurs-left a [] ys o = elim o [ ]
Occurs-left a (x ∷ xs) ys (inl e) = inl e
Occurs-left a (x ∷ xs) ys (inr o) = inr (Occurs-left a xs ys o)

Occurs-right : {A : Type 0} (a : A) (xs ys : List A) → Occurs a ys → Occurs a (xs ++ ys)
Occurs-right a [] ys o = o
Occurs-right a (x ∷ xs) ys o = inr (Occurs-right a xs ys o)

Occurs-keep :
    {A : Type 0} (p : A → Bool) (a : A) (xs : List A)
    → p a ≡ true
    → Occurs a xs
    → Occurs a (keep p xs)
Occurs-keep p a [] h o = o
Occurs-keep p a (x ∷ xs) h (inl e) = let k : p x ≡ true = ap p e ∙ h in rw k (inl e)
Occurs-keep p a (x ∷ xs) h (inr o) = elim (Bool-cases (p x)) [
  | inl k ↦ rw k (inr (Occurs-keep p a xs h o))
  | inr k ↦ rw k (Occurs-keep p a xs h o)
]

same_codes_eq : (s t : List ℕ) → same_codes s t ≡ true → s ≡ t
same_codes_eq [] [] h = refl
same_codes_eq [] (c ∷ t) h = cc
same_codes_eq (c ∷ s) [] h = cc
same_codes_eq (c ∷ s) (d ∷ t) h = let ih = same_codes_eq s t in ground (arith, ih)

Occurs-entry_for :
    (e : ModulationEntry) (dir : Direction) (c : SnapshotChannel) (o : Option SnapshotChannel)
    (rest : List ModulationEntry)
    → Occurs e rest
    → Occurs e (entry_for dir c o rest)
Occurs-entry_for e dir c none rest h = h
Occurs-entry_for e dir c (some p) rest h =
    elim (Bool-cases (same_codes c.carrier.modulation p.carrier.modulation)) [
      | inl s ↦ rw s h
      | inr s ↦ rw s (inr h)
    ]

some_channel : {x c : SnapshotChannel} → some x ≡ some c → x ≡ c
some_channel {x} h = ap (λ o. elim o [ none ↦ x | some y ↦ y ]) h

none_is_not_some : {c : SnapshotChannel} → none ≡ some c → ⊥
none_is_not_some h = cc

found_here :
    (j k : String) (x : SnapshotChannel) (d : Dict SnapshotChannel)
    → str_eq j k ≡ true
    → some x ≡ lookup k ((j, x) ∷ d)
unfolding lookup
found_here j k x d e = rw e refl

found_later :
    (j k : String) (x : SnapshotChannel) (d : Dict SnapshotChannel)
    → str_eq j k ≡ false
    → lookup k d ≡ lookup k ((j, x) ∷ d)
unfolding lookup
found_later j k x d e = rw e refl

-- Both maps hold the channel under the same key.
changed_lem :
    (dir : Direction) (k : String) (cur prev : Dict SnapshotChannel) (c p : SnapshotChannel)
    → lookup k cur ≡ some c
    → lookup k prev ≡ some p
    → same_codes c.carrier.modulation p.carrier.modulation ≡ false
    → Occurs (change_entry dir c p) (changed dir cur prev)
unfolding lookup changed
changed_lem dir k [] prev c p lc lp d = elim (none_is_not_some lc) [ ]
changed_lem dir k ((j, x) ∷ cur) prev c p lc lp d = elim (Bool-cases (str_eq j k)) [
  | inl e ↦
      let same : j ≡ k = (eq_iff j k).0 e in
      let lj : lookup j prev ≡ some p = ap (λ s. lookup s prev) same ∙ lp in
      let xc : x ≡ c = some_channel (found_here j k x cur e ∙ lc) in
      let dx : same_codes x.carrier.modulation p.carrier.modulation ≡ false =
        ap (λ y. same_codes y.carrier.modulation p.carrier.modulation) xc ∙ d in
      subst
        (λ y.
          Occurs (change_entry dir y p) (entry_for dir x (lookup j prev) (changed dir cur prev)))
        xc (rw (lj, dx) (inl refl))
  | inr e ↦
      Occurs-entry_for (change_entry dir c p) dir x (lookup j prev) (changed dir cur prev)
        (changed_lem dir k cur prev c p (found_later j k x cur e ∙ lc) lp d)
]

abbrev pub health_is_critical : ModulationEntry → Bool
health_is_critical e = elim e.current_modulation_health [
  | none ↦ false
  | some h ↦ leb 3 (health_rank h)
]

abbrev pub has_health : ModulationEntry → Bool
has_health e = elim e.current_modulation_health [ none ↦ false | some h ↦ true ]

abbrev pub fell_far : ModulationEntry → Bool
fell_far e = leb qam_critical_drop (e.prev_rank - e.current_rank)

critical_ranks :
    (es : List ModulationEntry)
    → leb 3 (largest (current_health_ranks es)) ≡ any health_is_critical es
unfolding current_health_ranks
critical_ranks [] = refl
critical_ranks (e ∷ es) =
    let ih = critical_ranks es in
    elim (Option-cases e.current_modulation_health) [
      | inl k ↦ ground (arith, ih, k)
      | inr (h, k) ↦ ground (arith, ih, k)
    ]

no_ranks :
    (es : List ModulationEntry) → is_empty (current_health_ranks es) ≡ not (any has_health es)
unfolding current_health_ranks
no_ranks [] = refl
no_ranks (e ∷ es) =
    let ih = no_ranks es in
    elim (Option-cases e.current_modulation_health) [
      | inl k ↦ ground (arith, ih, k)
      | inr (h, k) ↦ ground (arith, ih, k)
    ]

far_drop :
    (es : List ModulationEntry) → leb qam_critical_drop (largest (map drop_of es)) ≡ any fell_far es
far_drop [] = refl
far_drop (e ∷ es) = let ih = far_drop es in ground (arith, ih)

severity_lem :
    (es : List ModulationEntry)
    → downgrade_severity es ≡ (
        if any health_is_critical es || not (any has_health es) && any fell_far es
        then Severity.critical
        else Severity.warning)
unfolding downgrade_severity
severity_lem es = rw (critical_ranks es, no_ranks es, far_drop es) refl

All-of_keep :
    (p : ModulationEntry → Bool) (es : List ModulationEntry) → All (λ e. p e ≡ true) (keep p es)
All-of_keep p [] = tt
All-of_keep p (e ∷ es) = elim (Bool-cases (p e)) [
  | inl k ↦ rw k (k, All-of_keep p es)
  | inr k ↦ rw k (All-of_keep p es)
]

abbrev pub channels_of : Direction → Snapshot → List SnapshotChannel
channels_of ds s = s.ds_channels
channels_of us s = s.us_channels

-- A fall is in an event of falls only, of the severity that they call for.
abbrev pub Reports : ModulationEntry → List ModulationChange → Type 0
Reports e evs =
    (ev : ModulationChange) × Occurs ev evs
    × Occurs e ev.changes
    × (ev.is_downgrade_event ≡ true)
    × All (λ f. is_downgrade f ≡ true) ev.changes
    × (ev.severity ≡ (
        if any health_is_critical ev.changes
          || not (any has_health ev.changes) && any fell_far ev.changes
        then Severity.critical
        else Severity.warning))

downgrade_event-Reports :
    (e : ModulationEntry) (es : List ModulationEntry) (rest : List ModulationChange)
    → All (λ f. is_downgrade f ≡ true) es
    → Occurs e es
    → Reports e (downgrade_event es ++ rest)
downgrade_event-Reports e [] rest a o = elim o [ ]
downgrade_event-Reports e (f ∷ es) rest a o = (_, inl refl, o, refl, a, severity_lem (f ∷ es))

rank_differs : (s t : List ℕ) → qam_rank s < qam_rank t → same_codes s t ≡ false
rank_differs s t h = elim (Bool-cases (same_codes s t)) [
  | inl e ↦
      let same = same_codes_eq s t e in let ranks = ap qam_rank same in ground (arith, h, ranks)
  | inr e ↦ e
]

entry_is_downgrade :
    (dir : Direction) (c p : SnapshotChannel)
    → qam_rank c.carrier.modulation < qam_rank p.carrier.modulation
    → is_downgrade (change_entry dir c p) ≡ true
unfolding change_entry
entry_is_downgrade dir c p h = ground (arith, h)

-- The entries of both directions.
abbrev all_changed : Snapshot → Snapshot → List ModulationEntry
all_changed cur prev =
    changed ds (channel_map cur.ds_channels) (channel_map prev.ds_channels)
    ++ changed us (channel_map cur.us_channels) (channel_map prev.us_channels)

both_sides :
    (dir : Direction) (cur prev : Snapshot) (e : ModulationEntry)
    → Occurs e
        (changed dir (channel_map (channels_of dir cur)) (channel_map (channels_of dir prev)))
    → Occurs e (all_changed cur prev)
both_sides ds cur prev e o = Occurs-left e _ _ o
both_sides us cur prev e o =
    Occurs-right e (changed ds (channel_map cur.ds_channels) (channel_map prev.ds_channels)) _ o

-- A channel that both snapshots hold under the same id, in either direction, with a lower rank of
-- modulation now than before, stands in an event of falls, all of whose entries are falls. The event is
-- critical exactly when one of them has a critical health of modulation now, or when none of them has a
-- health and one has fallen by three levels or more.
pub downgrade_reported :
    (dir : Direction) (cur prev : Snapshot) (k : String) (c p : SnapshotChannel)
    → lookup k (channel_map (channels_of dir cur)) ≡ some c
    → lookup k (channel_map (channels_of dir prev)) ≡ some p
    → qam_rank c.carrier.modulation < qam_rank p.carrier.modulation
    → Reports (change_entry dir c p) (check_modulation cur prev)
unfolding check_modulation
downgrade_reported dir cur prev k c p lc lp h =
    let d = rank_differs c.carrier.modulation p.carrier.modulation h in
    let here = changed_lem dir k _ _ c p lc lp d in
    let all = all_changed cur prev in
    downgrade_event-Reports (change_entry dir c p) (keep is_downgrade all) _
      (All-of_keep is_downgrade all)
      (Occurs-keep is_downgrade (change_entry dir c p) all (entry_is_downgrade dir c p h)
        (both_sides dir cur prev (change_entry dir c p) here))
