-- ===== src/Events/Snr/Worst.antt =====
-- app/event_detector.py: a channel whose health of the ratio got worse is in the event.
use docsight.Prelude.{
  ℕ, ◌≤◌, ◌≡◌, ◌≢◌, refl, sym, subst, ap, ◌∙◌, ◌⊎◌, inl, inr, Bool, true, false, Option, none, some,
  List, [], ◌∷◌, All, ltb, if◌then◌else◌, arith, Bool-cases, Option-cases,
}
use docsight.Prelude.Dict.{Dict}
use docsight.Prelude.Int.{ℤ}
use docsight.Analyzer.{Level, rank, Thresholds}
use docsight.Events.Channels.{SnapshotChannel, channel_map}
use docsight.Events.Affected.{
  Affected, affected, Step, not_comparable, missing_health, steady, worse, compare_channels,
  with_key, Found, add_step, add_channel, degradations, before, insert_affected, sort_affected,
  sorted_if_any, affected_by_health,
}
use docsight.Events.Snr.{SnrChange, worst_level, is_level_critical, by_health, same_ℤ, check_snr}
use docsight.Events.Modulation.Changes.{Occurs}

-- The affected channels that a comparison has found.
abbrev Has : Affected → Found → Type 0
Has a none = Unit
Has a (some (b, found)) = (b ≡ true) × Occurs a found

add_step-Has :
    (a : Affected) (c p : SnapshotChannel) (s : Step) (rest : Found)
    → Has a rest
    → Has a (add_step c p s rest)
add_step-Has a c p not_comparable none h = tt
add_step-Has a c p missing_health none h = tt
add_step-Has a c p steady none h = tt
add_step-Has a c p (worse l x y) none h = tt
add_step-Has a c p not_comparable (some (b, found)) h = h
add_step-Has a c p missing_health (some (b, found)) h = tt
add_step-Has a c p steady (some (b, found)) h = (refl, h.1)
add_step-Has a c p (worse l x y) (some (b, found)) h = (refl, inr h.1)

add_channel-Has :
    (a : Affected) (c : SnapshotChannel) (o : Option SnapshotChannel) (rest : Found)
    → Has a rest
    → Has a (add_channel c o rest)
add_channel-Has a c none rest h = h
add_channel-Has a c (some p) rest h = add_step-Has a c p (compare_channels c p) rest h

add_worse-Has :
    (c p : SnapshotChannel) (l : Level) (x y : ℤ) (rest : Found)
    → Has (affected c p x y l) (add_step c p (worse l x y) rest)
add_worse-Has c p l x y none = tt
add_worse-Has c p l x y (some (b, found)) = (refl, inl refl)

degradations-Has :
    (c p : SnapshotChannel) (l : Level) (x y : ℤ) (cs : List SnapshotChannel)
    (prev : Dict SnapshotChannel)
    → Occurs c cs
    → with_key c.key prev ≡ some p
    → compare_channels c p ≡ worse l x y
    → Has (affected c p x y l) (degradations cs prev)
unfolding degradations
degradations-Has c p l x y [] prev o w s = elim o [ ]
degradations-Has c p l x y (d ∷ cs) prev (inl e) w s =
    subst
      (λ z. Has (affected c p x y l) (add_channel z (with_key z.key prev) (degradations cs prev)))
      (sym e) (rw (w, s) (add_worse-Has c p l x y (degradations cs prev)))
degradations-Has c p l x y (d ∷ cs) prev (inr o) w s =
    add_channel-Has (affected c p x y l) d (with_key d.key prev) (degradations cs prev)
      (degradations-Has c p l x y cs prev o w s)

Occurs-insert_affected :
    (a b : Affected) (found : List Affected)
    → (b ≡ a) ⊎ Occurs a found
    → Occurs a (insert_affected b found)
unfolding insert_affected
Occurs-insert_affected a b [] (inl e) = inl e
Occurs-insert_affected a b [] (inr o) = elim o [ ]
Occurs-insert_affected a b (c ∷ found) h = elim (Bool-cases (before b c)) [
  | inl k ↦ rw k h
  | inr k ↦ elim h [
    | inl e ↦ rw k (inr (Occurs-insert_affected a b found (inl e)))
    | inr (inl e) ↦ rw k (inl e)
    | inr (inr o) ↦ rw k (inr (Occurs-insert_affected a b found (inr o)))
  ]
]

Occurs-sort_affected :
    (a : Affected) (found : List Affected) → Occurs a found → Occurs a (sort_affected found)
unfolding sort_affected
Occurs-sort_affected a [] o = o
Occurs-sort_affected a (b ∷ found) (inl e) =
    Occurs-insert_affected a b (sort_affected found) (inl e)
Occurs-sort_affected a (b ∷ found) (inr o) =
    Occurs-insert_affected a b (sort_affected found) (inr (Occurs-sort_affected a found o))

pick_bound :
    (l k : Level)
    → (rank l ≤ rank (if ltb (rank l) (rank k) then k else l))
      × (rank k ≤ rank (if ltb (rank l) (rank k) then k else l))
pick_bound l k = ground arith

-- The level that stands for all of the affected channels.
worst_bound :
    (l : Level) (found : List Affected)
    → (rank l ≤ rank (worst_level l found))
      × All (λ a. rank a.threshold ≤ rank (worst_level l found)) found
worst_bound l [] = (omega arith, tt)
worst_bound l (a ∷ found) =
    let b = pick_bound l a.threshold in
    let ih = worst_bound (if ltb (rank l) (rank a.threshold) then a.threshold else l) found in
    (omega (arith, b.0, ih.0), (omega (arith, b.1, ih.0), ih.1))

Occurs-bound :
    (a : Affected) (n : ℕ) (found : List Affected)
    → All (λ b. rank b.threshold ≤ n) found
    → Occurs a found
    → rank a.threshold ≤ n
Occurs-bound a n [] h o = elim o [ ]
Occurs-bound a n (b ∷ found) h (inl e) = subst (λ z. rank z.threshold ≤ n) e h.0
Occurs-bound a n (b ∷ found) h (inr o) = Occurs-bound a n found h.1 o

-- What an event owes a channel that got worse: the channel, at least its level, the worst of all.
abbrev pub Warns : Affected → Option SnrChange → Type 0
Warns a none = ⊥
Warns a (some e) =
    Occurs a e.channels
    × All (λ b. rank b.threshold ≤ rank e.threshold) e.channels
    × (e.is_critical ≡ is_level_critical e.threshold)

by_health-Warns :
    (a : Affected) (c p : ℤ) (found : List Affected)
    → Occurs a found
    → Warns a (by_health c p found)
by_health-Warns a c p [] o = o
by_health-Warns a c p (b ∷ found) o = let w = worst_bound b.threshold found in (o, (w.0, w.1), refl)

affected_by_health-Has :
    (a : Affected) (cur prev : List SnapshotChannel) (b : Bool) (found : List Affected)
    → degradations cur (channel_map prev) ≡ some (b, found)
    → Has a (some (b, found))
    → affected_by_health cur prev ≡ some (sort_affected found)
unfolding affected_by_health
affected_by_health-Has a cur prev b found e h =
    ap sorted_if_any e ∙ ap (λ z. sorted_if_any (some (z, found))) h.0

older_snapshots :
    (cur prev : List SnapshotChannel)
    → degradations cur (channel_map prev) ≡ none
    → affected_by_health cur prev ≡ none
unfolding affected_by_health
older_snapshots cur prev d = ap sorted_if_any d

-- Where the smallest ratio has changed and the healths of the channels are known, a channel whose health
-- of the ratio is worse than in the snapshot before stands in the event with its new level; no channel of
-- the event is worse than the event, which is critical exactly when its level is.
pub worse_snr-Warns :
    (t : Thresholds) (lowest_now lowest_before : ℤ) (cur prev : List SnapshotChannel)
    (c p : SnapshotChannel) (l : Level) (x y : ℤ)
    → same_ℤ lowest_now lowest_before ≡ false
    → affected_by_health cur prev ≢ none
    → Occurs c cur
    → with_key c.key (channel_map prev) ≡ some p
    → compare_channels c p ≡ worse l x y
    → Warns (affected c p x y l) (check_snr t (some lowest_now) (some lowest_before) cur prev)
unfolding check_snr
worse_snr-Warns t n b cur prev c p l x y s k o w e =
    let h = degradations-Has c p l x y cur (channel_map prev) o w e in
    elim (Option-cases (degradations cur (channel_map prev))) [
      | inl d ↦ elim (k (older_snapshots cur prev d)) [ ]
      | inr (found, d) ↦
          let has : Has (affected c p x y l) (some found) = subst (Has (affected c p x y l)) d h in
          let here = affected_by_health-Has (affected c p x y l) cur prev found.0 found.1 d has in
          rw (s, here)
            (by_health-Warns (affected c p x y l) n b (sort_affected found.1)
              (Occurs-sort_affected (affected c p x y l) found.1 has.1))
    ]
