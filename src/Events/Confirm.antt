-- ===== src/Events/Confirm.antt =====
-- app/event_detector.py: a health that stays is confirmed.
use docsight.Prelude.{
  ℕ, zero, suc, ◌+◌, ◌≤◌, ◌<◌, ◌≡◌, refl, sym, ap, String, str_eq, eq_iff, true, false, some, ltb,
  leb, arith, Bool-cases, inl, inr, ◌⊎◌,
}
use docsight.Events.{Detector, confirmed_or, next_count, check_health}

-- n polls of the same health, behind a poll of `prev`.
unfoldable pub repeat : ℕ → Detector → String → String → Detector
repeat zero d prev h = d
repeat (suc n) d prev h = repeat n (check_health d h prev).0 h h

-- The detector has confirmed h, or waits for it with some polls left.
abbrev Waiting : String → ℕ → Detector → Type 0
Waiting h n d =
    (d.pending_health ≡ some h)
    × (d.pending_count < d.hysteresis)
    × (d.hysteresis ≤ d.pending_count + n)

poll_confirmed :
    (d : Detector) (prev h : String)
    → 2 ≤ d.hysteresis
    → d.confirmed_health ≡ some h
    → let r = (check_health d h prev).0 in
      (r.hysteresis ≡ d.hysteresis) × (r.confirmed_health ≡ some h)
unfolding check_health
poll_confirmed d prev h l c =
    let off : ltb d.hysteresis 2 ≡ false = ground (arith, l) in
    let same : str_eq h h ≡ true = (eq_iff h h).1 refl in
    (rw (off, c, same) refl, rw (off, c, same) refl)

poll_other :
    (d : Detector) (prev h : String)
    → 2 ≤ d.hysteresis
    → let r = (check_health d h prev).0 in
      (r.hysteresis ≡ d.hysteresis)
      × ((r.confirmed_health ≡ some h)
          ⊎ ((r.pending_health ≡ some h)
              × (r.pending_count ≡ next_count d h)
              × (next_count d h < d.hysteresis)))
unfolding check_health
poll_other d prev h l =
    let off : ltb d.hysteresis 2 ≡ false = ground (arith, l) in
    elim (Bool-cases (str_eq h (confirmed_or d prev))) [
      | inl e ↦ rw (off, e) (refl, inl (ap some (sym ((eq_iff h (confirmed_or d prev)).0 e))))
      | inr e ↦ elim (Bool-cases (leb d.hysteresis (next_count d h))) [
        | inl f ↦ rw (off, e, f) (refl, inl refl)
        | inr f ↦ rw (off, e, f) (refl, inr (refl, refl, ground (arith, f)))
      ]
    ]

stays :
    (n : ℕ) (d : Detector) (prev h : String)
    → 2 ≤ d.hysteresis
    → d.confirmed_health ≡ some h
    → (repeat n d prev h).confirmed_health ≡ some h
unfolding repeat
stays zero d prev h l c = c
stays (suc n) d prev h l c =
    let r = poll_confirmed d prev h l c in
    stays n (check_health d h prev).0 h h (omega (arith, r.0, l)) r.1

next_count_pending :
    (d : Detector) (h : String) → d.pending_health ≡ some h → next_count d h ≡ suc d.pending_count
next_count_pending d h e = rw (e, (eq_iff h h).1 refl) refl

next_count_positive : (d : Detector) (h : String) → 1 ≤ next_count d h
next_count_positive d h = ground arith

waited :
    (n : ℕ) (d : Detector) (prev h : String)
    → 2 ≤ d.hysteresis
    → Waiting h n d
    → (repeat n d prev h).confirmed_health ≡ some h
unfolding repeat
waited zero d prev h l w = ground (arith, w.1, w.2)
waited (suc n) d prev h l w =
    let r = poll_other d prev h l in
    let m = next_count_pending d h w.0 in
    let l' : 2 ≤ (check_health d h prev).0.hysteresis = omega (arith, r.0, l) in
    elim r.1 [
      | inl c ↦ stays n (check_health d h prev).0 h h l' c
      | inr p ↦
          waited n (check_health d h prev).0 h h l'
            (p.0, omega (arith, p.1, p.2, r.0), omega (arith, p.1, m, r.0, w.2))
    ]

confirmed_by :
    (n : ℕ) (d : Detector) (prev h : String)
    → 2 ≤ d.hysteresis
    → d.hysteresis ≡ n
    → (repeat n d prev h).confirmed_health ≡ some h
unfolding repeat
confirmed_by zero d prev h l e = ground (arith, l, e)
confirmed_by (suc n) d prev h l e =
    let r = poll_other d prev h l in
    let m = next_count_positive d h in
    let l' : 2 ≤ (check_health d h prev).0.hysteresis = omega (arith, r.0, l) in
    elim r.1 [
      | inl c ↦ stays n (check_health d h prev).0 h h l' c
      | inr p ↦
          waited n (check_health d h prev).0 h h l'
            (p.0, omega (arith, p.1, p.2, r.0), omega (arith, p.1, m, r.0, e))
    ]

-- In a detector with a hysteresis of at least 2, in any state, as many polls of one health as the
-- hysteresis make it the confirmed health.
pub steady_health_confirmed :
    (d : Detector) (prev h : String)
    → 2 ≤ d.hysteresis
    → (repeat d.hysteresis d prev h).confirmed_health ≡ some h
steady_health_confirmed d prev h l = confirmed_by d.hysteresis d prev h l refl
