-- ===== src/Events/Streak.antt =====
-- app/event_detector.py: a change of health is reported after enough equal polls, and not before.
use docsight.Prelude.{
  ℕ, zero, suc, ◌≤◌, ◌≡◌, refl, sym, ◌∙◌, subst, String, str_eq, eq_iff, false, none, some, List,
  [], ◌∷◌, ltb, leb, arith, Bool-cases, Option-cases, inl, inr,
}
use docsight.Events.{Detector, HealthChange, confirmed_or, next_count, check_health}

-- The polls that a detector took since it was seeded, the newest first: the healths.
abbrev pub IsStreak : String → ℕ → List String → Type 0
IsStreak h zero polls = Unit
IsStreak h (suc n) [] = ⊥
IsStreak h (suc n) (x ∷ polls) = (x ≡ h) × IsStreak h n polls

-- A pending health is what the last polls were, as many as are counted.
abbrev pub Counts : Detector → List String → Type 0
Counts d polls = (p : String) → d.pending_health ≡ some p → IsStreak p d.pending_count polls

no_pending : (d : Detector) (polls : List String) → d.pending_health ≡ none → Counts d polls
no_pending d polls h p e = ground (arith, h)

next-IsStreak :
    (d : Detector) (h : String) (polls : List String)
    → Counts d polls
    → IsStreak h (next_count d h) (h ∷ polls)
next-IsStreak d h polls k = elim (Option-cases d.pending_health) [
  | inl e ↦ rw e (refl, tt)
  | inr (p, e) ↦ elim (Bool-cases (str_eq h p)) [
    | inr f ↦ rw (e, f) (refl, tt)
    | inl f ↦
        let same : h ≡ p = (eq_iff h p).0 f in
        rw (e, f) (refl, subst (λ x. IsStreak x d.pending_count polls) (sym same) (k p e))
  ]
]

IsStreak-less :
    (h : String) (m n : ℕ) (polls : List String) → m ≤ n → IsStreak h n polls → IsStreak h m polls
IsStreak-less h zero n polls l k = tt
IsStreak-less h (suc m) zero polls l k = ground (arith, l)
IsStreak-less h (suc m) (suc n) [] l k = k
IsStreak-less h (suc m) (suc n) (x ∷ polls) l k =
    (k.0, IsStreak-less h m n polls (omega (arith, l)) k.1)

-- One poll in hysteresis mode.
step :
    (d : Detector) (h prev : String) (polls : List String)
    → 2 ≤ d.hysteresis
    → Counts d polls
    → let r = check_health d h prev in
      Counts r.0 (h ∷ polls)
      × (r.0.hysteresis ≡ d.hysteresis)
      × ((e : HealthChange) → r.1 ≡ some e → IsStreak h d.hysteresis (h ∷ polls))
unfolding check_health
step d h prev polls l k =
    let s = next-IsStreak d h polls k in
    let off : ltb d.hysteresis 2 ≡ false = ground (arith, l) in
    elim (Bool-cases (str_eq h (confirmed_or d prev))) [
      | inl e ↦ rw (off, e) ((λ p f. ground arith), refl, λ e f. ground arith)
      | inr e ↦ elim (Bool-cases (leb d.hysteresis (next_count d h))) [
        | inl f ↦
            rw (off, e, f)
              (
                (λ p g. ground arith),
                refl,
                λ x g.
                    IsStreak-less h d.hysteresis (next_count d h) (h ∷ polls) (ground (arith, f)) s,
              )
        | inr f ↦
            rw (off, e, f)
              (
                (λ p g.
                    let same : h ≡ p = ground arith in
                    subst (λ x. IsStreak x (next_count d h) (h ∷ polls)) same s),
                refl,
                λ x g. ground arith,
              )
      ]
    ]

-- The health of the poll before, and the detector after some polls, the newest first.
abbrev pub last_poll : String → List String → String
last_poll start [] = start
last_poll start (h ∷ polls) = h

unfoldable pub after : Detector → String → List String → Detector
after d start [] = d
after d start (h ∷ polls) = (check_health (after d start polls) h (last_poll start polls)).0

after-Counts :
    (d : Detector) (start : String) (polls : List String)
    → 2 ≤ d.hysteresis
    → d.pending_health ≡ none
    → Counts (after d start polls) polls × ((after d start polls).hysteresis ≡ d.hysteresis)
unfolding after
after-Counts d start [] l n = (no_pending d [] n, refl)
after-Counts d start (h ∷ polls) l n =
    let rest = after-Counts d start polls l n in
    let s =
      step (after d start polls) h (last_poll start polls) polls (omega (arith, rest.1, l))
        rest.0 in
    (s.0, s.1 ∙ rest.1)

-- In a detector with a hysteresis of at least 2 that starts with no pending health, whatever the polls
-- were, an event is only emitted when the newest polls, as many as the hysteresis, all had the health
-- of this poll.
pub event_after-IsStreak :
    (d : Detector) (start h : String) (polls : List String) {e : HealthChange}
    → 2 ≤ d.hysteresis
    → d.pending_health ≡ none
    → (check_health (after d start polls) h (last_poll start polls)).1 ≡ some e
    → IsStreak h d.hysteresis (h ∷ polls)
event_after-IsStreak d start h polls {e} l n k =
    let rest = after-Counts d start polls l n in
    let s =
      step (after d start polls) h (last_poll start polls) polls (omega (arith, rest.1, l))
        rest.0 in
    subst (λ m. IsStreak h m (h ∷ polls)) rest.1 (s.2 e k)
