-- ===== src/Engine/Triggers.antt =====
-- The registered triggers of the engine.
use mathlib.Core.List.{append-nil}
use docsight.Prelude.{
  sym, ◌≡◌, false, List, [], ◌∷◌, ◌++◌, any, refl, All, AllPairs, AllPairs-append, Bool-cases, inl,
  inr,
}
use docsight.Engine.{Trigger, same_trigger, register_trigger}

none_same :
    (t : Trigger) (triggers : List Trigger)
    → any (λ a. same_trigger a t) triggers ≡ false
    → All (λ a. All (λ b. same_trigger a b ≡ false) (t ∷ [])) triggers
none_same t [] h = tt
none_same t (a ∷ triggers) h = elim (Bool-cases (same_trigger a t)) [
  | inl e ↦ cc (rw e at h)
  | inr e ↦ ((e, tt), none_same t triggers (rw e at h))
]

-- No registered trigger equals a later one, and registering keeps those that are there, in order.
pub register_trigger-AllPairs :
    (t : Trigger) (triggers : List Trigger)
    → AllPairs (λ a b. same_trigger a b ≡ false) triggers
    → AllPairs (λ a b. same_trigger a b ≡ false) (register_trigger t triggers)
      × (more : List Trigger) × (register_trigger t triggers ≡ triggers ++ more)
unfolding register_trigger
register_trigger-AllPairs t triggers h = elim (Bool-cases (any (λ a. same_trigger a t) triggers)) [
  | inl there ↦ rw there (h, [], sym (append-nil triggers))
  | inr new ↦ rw new (
    AllPairs-append (λ a b. same_trigger a b ≡ false) triggers (t ∷ []) h (tt, tt)
        (none_same t triggers new),
    t ∷ [],
    refl,
  )
]
