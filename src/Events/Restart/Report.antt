-- ===== src/Events/Restart/Report.antt =====
-- app/event_detector.py: what a reported restart says, and when one is reported.
use docsight.Prelude.{
  Option, Bool, not, any, ◌++◌, ◌⊎◌, ℕ, ◌*◌, ◌≤◌, ◌<◌, ◌≡◌, refl, sym, ap, ◌∙◌, subst, true, false,
  ◌&&◌, none, some, List, [], ◌∷◌, length, count_if, All, ltb, arith, Bool-cases, inl, inr,
}
use docsight.Events.Restart.{
  Channel, Summary, Restart, by_id, overlap, is_valid, is_declining, totals_steady, has_continuity,
  restart_of, check_restart, check_errors,
}

-- The values before and after of a counter that is known in both snapshots.
abbrev pub known : Option ℕ → Option ℕ → List (ℕ × ℕ)
known (some p) (some c) = (p, c) ∷ []
known (some p) none = []
known none c = []

abbrev pub counters : Channel × Channel → List (ℕ × ℕ)
counters (p, c) =
    known p.correctable_errors c.correctable_errors
    ++ known p.uncorrectable_errors c.uncorrectable_errors

abbrev pub any_fell : List (ℕ × ℕ) → Bool
any_fell vs = any (λ v. ltb v.1 v.0) vs

abbrev pub any_rose : List (ℕ × ℕ) → Bool
any_rose vs = any (λ v. ltb v.0 v.1) vs

-- Some counter of the channel can be compared.
abbrev pub is_compared : Channel × Channel → Bool
is_compared pc = any (λ v. true) (counters pc)

-- A counter of the channel fell and none rose.
abbrev pub only_fell : Channel × Channel → Bool
only_fell pc = any_fell (counters pc) && not (any_rose (counters pc))

-- A total is not known, or one of the two fell.
abbrev pub TotalFell : Summary → Summary → Type 0
TotalFell prev cur =
    (prev.ds_correctable_errors ≡ none)
    ⊎ ((prev.ds_uncorrectable_errors ≡ none)
        ⊎ ((cur.ds_correctable_errors ≡ none)
            ⊎ ((cur.ds_uncorrectable_errors ≡ none)
                ⊎ (any_fell (
                      known prev.ds_correctable_errors cur.ds_correctable_errors
                      ++ known prev.ds_uncorrectable_errors cur.ds_uncorrectable_errors)
                    ≡ true))))

is_valid_lem : (pc : Channel × Channel) → is_valid pc ≡ is_compared pc
unfolding is_valid
is_valid_lem (p, c) = ground arith

is_declining_lem : (pc : Channel × Channel) → (is_valid pc && is_declining pc) ≡ only_fell pc
unfolding is_valid is_declining
is_declining_lem (p, c) = ground arith

totals_lem : (prev cur : Summary) → totals_steady prev cur ≡ false → TotalFell prev cur
unfolding totals_steady
totals_lem prev cur h = ground (arith, h)

counts_lem :
    (pairs : List (Channel × Channel))
    → (count_if is_valid pairs ≡ count_if is_compared pairs)
      × (count_if (λ pc. is_valid pc && is_declining pc) pairs ≡ count_if only_fell pairs)
counts_lem [] = (refl, refl)
counts_lem (pc ∷ pairs) =
    let rest = counts_lem pairs in
    (rw (is_valid_lem pc, rest.0) refl, rw (is_declining_lem pc, rest.1) refl)

some_injective : {r q : Restart} → some r ≡ some q → r ≡ q
some_injective {r} h = ap (λ o. elim o [ none ↦ r | some x ↦ x ]) h

-- What a report says of the shared channels.
abbrev pub Reports : List (Channel × Channel) → Restart → Type 0
Reports pairs r =
    (r.total_channels ≡ count_if is_compared pairs)
    × (r.affected_channels ≡ count_if only_fell pairs)
    × (4 ≤ r.total_channels)
    × (4 * r.total_channels ≤ 5 * r.affected_channels)

restart_of-Reports :
    (pairs : List (Channel × Channel)) (prev cur : Summary) {r : Restart}
    → restart_of pairs prev cur ≡ some r
    → Reports pairs r × TotalFell prev cur
unfolding restart_of
restart_of-Reports pairs prev cur {r} h =
    let c = counts_lem pairs in
    let valid = count_if is_valid pairs in
    let declining = count_if (λ pc. is_valid pc && is_declining pc) pairs in
    elim (Bool-cases (ltb valid 4)) [
      | inl e ↦ ground (arith, e)
      | inr e ↦ elim (Bool-cases (ltb (5 * declining) (4 * valid))) [
        | inl f ↦ ground (arith, e, f)
        | inr f ↦ elim (Bool-cases (totals_steady prev cur)) [
          | inl g ↦ ground (arith, e, f, g)
          | inr g ↦
              let same : record { affected_channels = declining; total_channels = valid } ≡ r =
                some_injective (sym (rw (e, f, g) refl) ∙ h) in
              subst (λ x. Reports pairs x × TotalFell prev cur) same
                ((c.0, c.1, ground (arith, e), ground (arith, f)), totals_lem prev cur g)
        ]
      ]
    ]

-- A restart is only reported when the channels that both snapshots have are at least half of each of
-- them. The total that it gives is the number of these channels with a counter known in both snapshots,
-- the affected channels are those that have a counter that fell and none that rose, the total is at
-- least 4, the affected channels are at least 80 % of it, and a total of the two summaries is not known
-- or one of them fell.
pub check_restart-Reports :
    (prev_chs cur_chs : List Channel) (prev cur : Summary) {r : Restart}
    → check_restart prev_chs prev cur_chs cur ≡ some r
    → let pairs = overlap (by_id prev_chs) (by_id cur_chs) in
      Reports pairs r
      × (length (by_id prev_chs) ≤ 2 * length pairs)
      × (length (by_id cur_chs) ≤ 2 * length pairs)
      × TotalFell prev cur
unfolding check_restart
check_restart-Reports prev_chs cur_chs prev cur {r} h =
    let pairs = overlap (by_id prev_chs) (by_id cur_chs) in
    elim (Bool-cases
      (has_continuity (length pairs) (length (by_id prev_chs)) (length (by_id cur_chs)))) [
        | inr e ↦ ground (arith, e)
        | inl e ↦
            let s : Reports pairs r × TotalFell prev cur =
              restart_of-Reports pairs prev cur (ground (arith, e)) in
            (s.0, ground (arith, e), ground (arith, e), s.1)
      ]

count_all :
    (pairs : List (Channel × Channel))
    → All (λ pc. (is_valid pc ≡ true) × (is_declining pc ≡ true)) pairs
    → (count_if is_valid pairs ≡ length pairs)
      × (count_if (λ pc. is_valid pc && is_declining pc) pairs ≡ length pairs)
count_all [] h = (refl, refl)
count_all (pc ∷ pairs) h = let rest = count_all pairs h.1 in ground (arith, rest, h.0)

-- When the snapshots share enough channels, the counters of each shared channel fell or stayed with one
-- that fell, and a total fell or is not known, the restart is reported with all these channels.
pub reset_is_reported :
    (prev_chs cur_chs : List Channel) (prev cur : Summary)
    → has_continuity
        (length (overlap (by_id prev_chs) (by_id cur_chs)))
        (length (by_id prev_chs))
        (length (by_id cur_chs))
      ≡ true
    → All
        (λ pc. (is_valid pc ≡ true) × (is_declining pc ≡ true))
        (overlap (by_id prev_chs) (by_id cur_chs))
    → totals_steady prev cur ≡ false
    → check_restart prev_chs prev cur_chs cur
      ≡ some (record {
        affected_channels = length (overlap (by_id prev_chs) (by_id cur_chs));
        total_channels = length (overlap (by_id prev_chs) (by_id cur_chs));
      })
unfolding check_restart restart_of
reset_is_reported prev_chs cur_chs prev cur e h t =
    let pairs = overlap (by_id prev_chs) (by_id cur_chs) in
    let c = count_all pairs h in
    let many : ltb (length pairs) 4 ≡ false = ground (arith, e) in
    let most : ltb (5 * length pairs) (4 * length pairs) ≡ false = ground arith in
    rw (e, c.0, c.1, many, most, t) refl

spike_lem :
    (cur prev : Summary) (pc cc : ℕ) {n : ℕ}
    → check_errors cur prev ≡ some n
    → prev.ds_correctable_errors ≡ some pc
    → cur.ds_correctable_errors ≡ some cc
    → TotalFell prev cur
    → cc < pc
unfolding check_errors
spike_lem cur prev pc cc {n} h p c t = ground (arith, h, p, c, t)

-- A poll that reports both a restart and a jump of the uncorrectable errors has a correctable total
-- that fell, where both correctable totals are known.
pub restart_with_spike :
    (prev_chs cur_chs : List Channel) (prev cur : Summary) (pc cc : ℕ) {r : Restart} {n : ℕ}
    → check_restart prev_chs prev cur_chs cur ≡ some r
    → check_errors cur prev ≡ some n
    → prev.ds_correctable_errors ≡ some pc
    → cur.ds_correctable_errors ≡ some cc
    → cc < pc
restart_with_spike prev_chs cur_chs prev cur pc cc h s p c =
    spike_lem cur prev pc cc s p c (check_restart-Reports prev_chs cur_chs prev cur h).3
