-- ===== src/Connection/Losses.antt =====
-- app/modules/connection_monitor/event_rules.py: the warnings of packet loss of a target over time.
use docsight.Prelude.{
  ℕ, ◌+◌, ◌≤◌, ◌<◌, ◌≡◌, refl, sym, ap, ◌∙◌, Bool, true, false, ◌&&◌, List, [], ◌∷◌, leb, ◌==◌,
  subst, if◌then◌else◌, arith, Bool-cases, inl, inr, ◌⊎◌,
}
use docsight.Connection.{find, Rules, new, or_zero, check_window_stats, loss_cooldown_ms}
use docsight.Connection.Outages.{find-put, eq_true}

-- A window of a target: its loss and its length, and the time of the check.
pub record Window : Type 0 where
  pub target : ℕ
  pub loss : ℕ
  pub seconds : ℕ
  pub now : ℕ

-- The rules after a history of windows, the last one first.
abbrev pub watched : ℕ → ℕ → List Window → Rules
watched outage pct [] = new outage pct
watched outage pct (w ∷ ws) =
    (check_window_stats w.target w.loss w.seconds w.now (watched outage pct ws)).0

abbrev pub is_empty {ℓ} : {A : Type ℓ} → List A → Bool
is_empty [] = true
is_empty (x ∷ xs) = false

-- The times at which a target was warned of, the last one first.
abbrev pub warned : ℕ → ℕ → ℕ → List Window → List ℕ
warned outage pct id [] = []
warned outage pct id (w ∷ ws) =
    let rest = warned outage pct id ws in
    if w.target == id
    then (if is_empty (check_window_stats w.target w.loss w.seconds w.now (watched outage pct ws)).1
        then rest
        else w.now ∷ rest)
    else rest

abbrev pub last_of : List ℕ → ℕ
last_of [] = 0
last_of (t ∷ ts) = t

-- Each time is at least the cooldown after the one before.
abbrev pub Spaced : List ℕ → Type 0
Spaced [] = Unit
Spaced (t ∷ ts) = (last_of ts + loss_cooldown_ms ≤ t) × Spaced ts

abbrev last_warning : ℕ → Rules → ℕ
last_warning id r = or_zero (find id r.loss_cooldown)

keeps_pct :
    (w : Window) (r : Rules)
    → (check_window_stats w.target w.loss w.seconds w.now r).0.loss_warning_pct ≡ r.loss_warning_pct
unfolding check_window_stats
keeps_pct w r = ground arith

watched_pct : (outage pct : ℕ) (ws : List Window) → (watched outage pct ws).loss_warning_pct ≡ pct
watched_pct outage pct [] = refl
watched_pct outage pct (w ∷ ws) = keeps_pct w (watched outage pct ws) ∙ watched_pct outage pct ws

-- When a check warns, and what it leaves as the last warning.
abbrev warns : Window → Rules → Bool
warns w r =
    if leb r.loss_warning_pct w.loss
    then leb (last_warning w.target r + loss_cooldown_ms) w.now
    else false

check_warns :
    (w : Window) (r : Rules)
    → is_empty (check_window_stats w.target w.loss w.seconds w.now r).1
      ≡ (if warns w r then false else true)
unfolding check_window_stats
check_warns w r = ground arith

check_last :
    (w : Window) (id : ℕ) (r : Rules)
    → last_warning id (check_window_stats w.target w.loss w.seconds w.now r).0 ≡ (
        if warns w r
        then (if w.target == id then w.now else last_warning id r)
        else last_warning id r)
unfolding check_window_stats
check_last w id r = let law = find-put w.target id w.now r.loss_cooldown in ground (arith, law)

and_left : (a b : Bool) → (a && b) ≡ true → a ≡ true
and_left a b e = ground (arith, e)

and_right : (a b : Bool) → (a && b) ≡ true → b ≡ true
and_right a b e = ground (arith, e)

and_true : (a b : Bool) → a ≡ true → (a && b) ≡ false → b ≡ false
and_true a b e f = ground (arith, e, f)

-- The time of a warning joins those of its target.
warned-cons :
    (outage pct id : ℕ) (w : Window) (ws : List Window)
    → warned outage pct id (w ∷ ws) ≡ (
        if warns w (watched outage pct ws)
        then (if w.target == id then w.now ∷ warned outage pct id ws else warned outage pct id ws)
        else warned outage pct id ws)
warned-cons outage pct id w ws =
    let a = check_warns w (watched outage pct ws) in
    elim (Bool-cases (warns w (watched outage pct ws))) [
      | inl e ↦ elim (Bool-cases (w.target == id)) [
        | inl f ↦ rw (a, e, f) refl
        | inr f ↦ rw (a, e, f) refl
      ]
      | inr e ↦ elim (Bool-cases (w.target == id)) [
        | inl f ↦ rw (a, e, f) refl
        | inr f ↦ rw (a, e, f) refl
      ]
    ]

-- The target of a window that warns, and every other case.
module _ (outage pct id : ℕ) (w : Window) (ws : List Window) where
  warned_yes :
      warns w (watched outage pct ws) ≡ true
      → (w.target == id) ≡ true
      → warned outage pct id (w ∷ ws) ≡ w.now ∷ warned outage pct id ws
  warned_yes e f = warned-cons outage pct id w ws ∙ rw (e, f) refl

  warned_no :
      (warns w (watched outage pct ws) && w.target == id) ≡ false
      → warned outage pct id (w ∷ ws) ≡ warned outage pct id ws
  warned_no e =
      let a = warned-cons outage pct id w ws in
      elim (Bool-cases (warns w (watched outage pct ws))) [
        | inl f ↦ a ∙ rw (f, and_true _ _ f e) refl
        | inr f ↦ a ∙ rw f refl
      ]

  last_yes :
      warns w (watched outage pct ws) ≡ true
      → (w.target == id) ≡ true
      → last_warning id (watched outage pct (w ∷ ws)) ≡ w.now
  last_yes e f = check_last w id (watched outage pct ws) ∙ rw (e, f) refl

  last_no :
      (warns w (watched outage pct ws) && w.target == id) ≡ false
      → last_warning id (watched outage pct (w ∷ ws)) ≡ last_warning id (watched outage pct ws)
  last_no e =
      let a = check_last w id (watched outage pct ws) in
      elim (Bool-cases (warns w (watched outage pct ws))) [
        | inl f ↦ a ∙ rw (f, and_true _ _ f e) refl
        | inr f ↦ a ∙ rw f refl
      ]

last_is_recorded :
    (outage pct id : ℕ) (ws : List Window)
    → last_warning id (watched outage pct ws) ≡ last_of (warned outage pct id ws)
last_is_recorded outage pct id [] = refl
last_is_recorded outage pct id (w ∷ ws) =
    let ih = last_is_recorded outage pct id ws in
    elim (Bool-cases (warns w (watched outage pct ws) && w.target == id)) [
      | inl e ↦
          last_yes outage pct id w ws (and_left _ _ e) (and_right _ _ e)
          ∙ sym (ap last_of (warned_yes outage pct id w ws (and_left _ _ e) (and_right _ _ e)))
      | inr e ↦
          last_no outage pct id w ws e ∙ ih ∙ sym (ap last_of (warned_no outage pct id w ws e))
    ]

Spaced-eq : (ts us : List ℕ) → ts ≡ us → Spaced us → Spaced ts
Spaced-eq ts us e s = subst Spaced (sym e) s

warned-Spaced : (outage pct id : ℕ) (ws : List Window) → Spaced (warned outage pct id ws)
warned-Spaced outage pct id [] = tt
warned-Spaced outage pct id (w ∷ ws) =
    let ih = warned-Spaced outage pct id ws in
    let r = last_is_recorded outage pct id ws in
    elim (Bool-cases (warns w (watched outage pct ws) && w.target == id)) [
      | inl e ↦
          let f : (w.target == id) ≡ true =
            and_right (warns w (watched outage pct ws)) (w.target == id) e in
          let same = eq_true w.target id f in
          Spaced-eq _ _ (warned_yes outage pct id w ws (and_left _ _ e) f)
            (ground (arith, e, r, same), ih)
      | inr e ↦ Spaced-eq _ _ (warned_no outage pct id w ws e) ih
    ]

-- A loss that is too high leaves a recent warning, and one that is not leaves the warnings as they are.
abbrev pub Answers : ℕ → ℕ → List Window → Window → Type 0
Answers outage pct ws w =
    ((w.now < last_of (warned outage pct w.target (w ∷ ws)) + loss_cooldown_ms) × (pct ≤ w.loss))
    ⊎ ((w.loss < pct) × (warned outage pct w.target (w ∷ ws) ≡ warned outage pct w.target ws))

warns_bound : (w : Window) (r : Rules) → warns w r ≡ true → r.loss_warning_pct ≤ w.loss
warns_bound w r e = ground (arith, e)

quiet_bound :
    (w : Window) (r : Rules)
    → (warns w r && w.target == w.target) ≡ false
    → r.loss_warning_pct ≤ w.loss
    → w.now < last_warning w.target r + loss_cooldown_ms
quiet_bound w r e h = ground (arith, e, h)

le_or_lt : (a b : ℕ) → (a ≤ b) ⊎ (b < a)
le_or_lt a b = omega arith

bounded :
    (p q l m n t : ℕ)
    → p ≡ q
    → m ≡ n
    → t ≡ n
    → q ≤ l
    → (now : ℕ) → (p ≤ l → now < m + loss_cooldown_ms)
    → now < t + loss_cooldown_ms
bounded p q l m n t e f g h now k = omega (arith, k (omega (arith, e, h)))

answers : (outage pct : ℕ) (ws : List Window) (w : Window) → Answers outage pct ws w
answers outage pct ws w =
    let r = last_is_recorded outage pct w.target ws in
    let p = watched_pct outage pct ws in
    let before : Rules = watched outage pct ws in
    elim (Bool-cases (warns w before && w.target == w.target)) [
      | inl e ↦
          let f = and_left (warns w before) (w.target == w.target) e in
          let g = and_right (warns w before) (w.target == w.target) e in
          let a = ap last_of (warned_yes outage pct w.target w ws f g) in
          let b = warns_bound w before f in inl (omega (arith, a), omega (arith, p, b))
      | inr e ↦
          let a = ap last_of (warned_no outage pct w.target w ws e) in
          let quiet = quiet_bound w before e in
          elim (le_or_lt pct w.loss) [
            | inl h ↦ inl (bounded _ _ _ _ _ _ p r a h _ quiet, h)
            | inr h ↦ inr (h, warned_no outage pct w.target w ws e)
          ]
    ]

-- After any history of windows of any targets, two warnings of a target are never closer than the
-- cooldown, and the next window answers: with a loss at the threshold or above, its target has been warned
-- of within the cooldown (at time 0, where it never was); with a lower loss no warning is added.
pub loss_warnings :
    (outage pct id : ℕ) (ws : List Window) (w : Window)
    → Spaced (warned outage pct id ws) × Answers outage pct ws w
loss_warnings outage pct id ws w = (warned-Spaced outage pct id ws, answers outage pct ws w)
