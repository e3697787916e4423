-- ===== src/Events/Restart.antt =====
-- app/event_detector.py: the restart of a modem, from the counters of its channels (`_check_restart`).
-- The ratios of the code are written without division: both sides are exact for numbers of channels
-- (0.8 as a float is the one that 4 / 5 is rounded to).
pub mod Report
use docsight.Prelude.{
  ℕ, zero, suc, ◌+◌, ◌*◌, ◌-◌, ◌≤◌, ◌<◌, ◌≡◌, refl, sym, ap, ◌∙◌, String, Bool, true, false, not,
  ◌&&◌, ◌||◌, Option, none, some, List, [], ◌∷◌, length, count_if, keep, All, ltb, leb,
  if◌then◌else◌, arith, Bool-cases, inl, inr,
}
use docsight.Prelude.Dict.{Dict, lookup, insert}

-- A downstream channel of an analysis; a counter that is absent is `none`.
pub record Channel : Type 0 where
  pub channel_id : String
  pub correctable_errors : Option ℕ
  pub uncorrectable_errors : Option ℕ

-- What the checks read of a summary. In a total, `none` is an explicit `None`. A key that is absent
-- stands for the same in `_check_restart`; `_check_errors` reads it by `.get(..., 0)`, so a summary
-- without the key is one with `some 0` there.
pub record Summary : Type 0 where
  pub errors_supported : Bool
  pub ds_correctable_errors : Option ℕ
  pub ds_uncorrectable_errors : Option ℕ

unfoldable pub by_id_from : List Channel → Dict Channel → Dict Channel
by_id_from [] d = d
by_id_from (ch ∷ chs) d = by_id_from chs (insert ch.channel_id ch d)

-- `{ch["channel_id"]: ch for ch in channels}`
abbrev pub by_id : List Channel → Dict Channel
by_id chs = by_id_from chs []

-- The channels of both snapshots, before and after.
unfoldable pub overlap : Dict Channel → Dict Channel → List (Channel × Channel)
overlap [] cur = []
overlap ((k, p) ∷ prev) cur =
    let rest = overlap prev cur in elim (lookup k cur) [ none ↦ rest | some c ↦ (p, c) ∷ rest ]

-- A pair of counters: comparable, fallen, not risen.
abbrev pub has_both : Option ℕ → Option ℕ → Bool
has_both (some p) (some c) = true
has_both (some p) none = false
has_both none c = false

abbrev pub has_declined : Option ℕ → Option ℕ → Bool
has_declined (some p) (some c) = ltb c p
has_declined (some p) none = false
has_declined none c = false

abbrev pub not_risen : Option ℕ → Option ℕ → Bool
not_risen (some p) (some c) = leb c p
not_risen (some p) none = true
not_risen none c = true

unfoldable pub is_valid : Channel × Channel → Bool
is_valid (p, c) =
    has_both p.correctable_errors c.correctable_errors
    || has_both p.uncorrectable_errors c.uncorrectable_errors

unfoldable pub is_declining : Channel × Channel → Bool
is_declining (p, c) =
    (has_declined p.correctable_errors c.correctable_errors
      || has_declined p.uncorrectable_errors c.uncorrectable_errors)
    && not_risen p.correctable_errors c.correctable_errors
    && not_risen p.uncorrectable_errors c.uncorrectable_errors

-- Whether all four totals are there and neither is lower.
unfoldable pub totals_steady : Summary → Summary → Bool
totals_steady prev cur = elim prev.ds_correctable_errors [
  | none ↦ false
  | some pc ↦ elim prev.ds_uncorrectable_errors [
    | none ↦ false
    | some pu ↦ elim cur.ds_correctable_errors [
      | none ↦ false
      | some cc ↦ elim cur.ds_uncorrectable_errors [
        | none ↦ false
        | some cu ↦ leb pc cc && leb pu cu
      ]
    ]
  ]
]

pub record Restart : Type 0 where
  pub affected_channels : ℕ
  pub total_channels : ℕ

abbrev pub has_continuity : ℕ → ℕ → ℕ → Bool
has_continuity shared prev_count cur_count =
    leb 4 shared && leb prev_count (2 * shared) && leb cur_count (2 * shared)

-- The rest of the check, from the shared channels.
unfoldable pub restart_of : List (Channel × Channel) → Summary → Summary → Option Restart
restart_of pairs prev cur =
    let valid = count_if is_valid pairs in
    let declining = count_if (λ pc. is_valid pc && is_declining pc) pairs in
    if ltb valid 4
    then none
    else if ltb (5 * declining) (4 * valid)
    then none
    else if totals_steady prev cur
    then none
    else some (record { affected_channels = declining; total_channels = valid })

-- `_check_restart`
unfoldable pub check_restart : List Channel → Summary → List Channel → Summary → Option Restart
check_restart prev_chs prev cur_chs cur =
    let pairs = overlap (by_id prev_chs) (by_id cur_chs) in
    if has_continuity (length pairs) (length (by_id prev_chs)) (length (by_id cur_chs))
    then restart_of pairs prev cur
    else none

-- `_check_errors`: the jump of the uncorrectable errors, if it is above the threshold; an explicit
-- `None` of a total ends it.
unfoldable pub check_errors : Summary → Summary → Option ℕ
check_errors cur prev =
    if not cur.errors_supported || not prev.errors_supported
    then none
    else elim cur.ds_uncorrectable_errors [
      | none ↦ none
      | some c ↦ elim prev.ds_uncorrectable_errors [
        | none ↦ none
        | some p ↦ if ltb (p + 1000) c then some (c - p) else none
      ]
    ]
