-- ===== src/BasePath/Sources.antt =====
-- app/base_path.py: what `BasePathMiddleware` passes on.
use docsight.Prelude.{
  ℕ, ◌≡◌, refl, sym, subst, ap, ◌∙◌, true, false, not, ◌&&◌, Option, none, some, List, [], ◌∷◌,
  ◌==◌, arith, Bool-cases, inl, inr, ◌⊎◌,
}
use docsight.Docsis.{same_codes}
use docsight.BasePath.{
  Middleware, bad_request, passed, agrees, chosen, as_source, normalized, answer_of, is_none,
  or_none, trusted_header_value, normalize_base_path, call,
}
use docsight.BasePath.Paths.{IsPath, empty-IsPath, normalize_base_path-IsPath}

-- A source that is there is a path.
abbrev pub SourceIsPath : Option (List ℕ) → Type 0
SourceIsPath none = Unit
SourceIsPath (some p) = IsPath p

-- A source that is there is the path that is passed on, as it is normalized.
abbrev pub Backs : List ℕ → Option (List ℕ) → Type 0
Backs p none = Unit
Backs p (some v) = normalize_base_path (some v) ≡ some p

abbrev pub Equals : List ℕ → Option (List ℕ) → Type 0
Equals p none = Unit
Equals p (some q) = q ≡ p

same_codes_eq : (s t : List ℕ) → same_codes s t ≡ true → s ≡ t
same_codes_eq [] [] h = refl
same_codes_eq [] (c ∷ t) h = cc
same_codes_eq (c ∷ s) [] h = cc
same_codes_eq (c ∷ s) (d ∷ t) h = let ih = same_codes_eq s t in ground (arith, h, ih)

agrees-Equals : (p : List ℕ) (o : Option (List ℕ)) → agrees p o ≡ true → Equals p o
agrees-Equals p none h = tt
agrees-Equals p (some q) h = sym (same_codes_eq p q h)

passed_injective : {p q : List ℕ} → passed p ≡ passed q → p ≡ q
passed_injective {p} h = ap (λ a. elim a [ bad_request ↦ p | passed x ↦ x ]) h

refused : {p : List ℕ} → bad_request ≡ passed p → ⊥
refused h = cc

missing : {o : Option (List ℕ)} → none ≡ some o → ⊥
missing h = cc

-- The path that is chosen is every source's.
chosen-Equals :
    (a b c : Option (List ℕ)) (p : List ℕ)
    → chosen a b c ≡ passed p
    → Equals p a × Equals p b × Equals p c
chosen-Equals none none none p h = (tt, tt, tt)
chosen-Equals none none (some c) p h = (tt, tt, passed_injective h)
chosen-Equals none (some b) c p h = elim (Bool-cases (agrees b c)) [
  | inl e ↦
      let same : b ≡ p = passed_injective (sym (rw e refl) ∙ h) in
      (tt, same, subst (λ q. Equals q c) same (agrees-Equals b c e))
  | inr e ↦ elim (refused (sym (rw e refl) ∙ h)) [ ]
]
chosen-Equals (some a) b c p h = elim (Bool-cases (agrees a b && agrees a c)) [
  | inl e ↦
      let same : a ≡ p = passed_injective (sym (rw e refl) ∙ h) in
      let ab : agrees a b ≡ true = ground (arith, e) in
      let ac : agrees a c ≡ true = ground (arith, e) in
      (
        same,
        subst (λ q. Equals q b) same (agrees-Equals a b ab),
        subst (λ q. Equals q c) same (agrees-Equals a c ac),
      )
  | inr e ↦ elim (refused (sym (rw e refl) ∙ h)) [ ]
]

-- It is empty or that of one source.
chosen_from :
    (a b c : Option (List ℕ)) (p : List ℕ)
    → Equals p a
    → Equals p b
    → Equals p c
    → chosen a b c ≡ passed p
    → (p ≡ []) ⊎ ((a ≡ some p) ⊎ ((b ≡ some p) ⊎ (c ≡ some p)))
chosen_from none none none p ea eb ec h = inl (sym (passed_injective h))
chosen_from none none (some c) p ea eb ec h = inr (inr (inr (ap some ec)))
chosen_from none (some b) c p ea eb ec h = inr (inr (inl (ap some eb)))
chosen_from (some a) b c p ea eb ec h = inr (inl (ap some ea))

-- What a normalized source says of the raw one.
inner_injective : {o q : Option (List ℕ)} → some o ≡ some q → o ≡ q
inner_injective {o} h = ap (λ x. elim x [ none ↦ o | some y ↦ y ]) h

as_source_lem :
    (x o : Option (List ℕ)) (p : List ℕ) → as_source x ≡ some o → Equals p o → x ≡ some p
as_source_lem none o p h e = elim (missing h) [ ]
as_source_lem (some q) o p h e = ap some (subst (Equals p) (sym (inner_injective h)) e)

normalized-Backs :
    (raw o : Option (List ℕ)) (p : List ℕ) → normalized raw ≡ some o → Equals p o → Backs p raw
normalized-Backs none o p h e = tt
normalized-Backs (some v) o p h e = as_source_lem (normalize_base_path (some v)) o p h e

answer_of_lem :
    (a : Option (List ℕ)) (c b : Option (Option (List ℕ))) (p : List ℕ)
    → answer_of a c b ≡ passed p
    → (co bo : Option (List ℕ)) × (c ≡ some co) × (b ≡ some bo) × (chosen a bo co ≡ passed p)
answer_of_lem a none b p h = elim (refused h) [ ]
answer_of_lem a (some co) none p h = elim (refused h) [ ]
answer_of_lem a (some co) (some bo) p h = (co, bo, refl, refl, h)

pub record Sources (m : Middleware) (existing_raw : List ℕ) (values : List (List ℕ)) (p : List ℕ)
    : Type 0 where
  pub is_path : IsPath p
  pub fixed : Equals p m.fixed_prefix
  pub existing : Backs p (or_none existing_raw)
  pub selected : Backs p (trusted_header_value m.trusted_hops values)
  pub trusted :
      (not (m.trusted_hops == 0) && is_none (trusted_header_value m.trusted_hops values)) ≡ false

nothing : {p : List ℕ} → none ≡ some p → ⊥
nothing h = cc

source-IsPath : (raw : Option (List ℕ)) (p : List ℕ) → normalized raw ≡ some (some p) → IsPath p
source-IsPath none p h = elim (nothing (inner_injective h)) [ ]
source-IsPath (some v) p h =
    (normalize_base_path-IsPath (some v) p
      (as_source_lem (normalize_base_path (some v)) (some p) p h refl)).0

checks-Sources :
    (m : Middleware) (existing_raw : List ℕ) (values : List (List ℕ)) (p : List ℕ)
    → SourceIsPath m.fixed_prefix
    → (not (m.trusted_hops == 0) && is_none (trusted_header_value m.trusted_hops values)) ≡ false
    → answer_of m.fixed_prefix
        (normalized (or_none existing_raw))
        (normalized (trusted_header_value m.trusted_hops values))
      ≡ passed p
    → Sources m existing_raw values p
checks-Sources m existing_raw values p f t h =
    let raw = or_none existing_raw in
    let header = trusted_header_value m.trusted_hops values in
    let (c, b, ec, eb, k) = answer_of_lem m.fixed_prefix (normalized raw) (normalized header) p h in
    let (fa, fb, fc) = chosen-Equals m.fixed_prefix b c p k in
    record {
      is_path = elim (chosen_from m.fixed_prefix b c p fa fb fc k) [
        | inl e ↦ subst IsPath (sym e) empty-IsPath
        | inr (inl e) ↦ subst SourceIsPath e f
        | inr (inr (inl e)) ↦ source-IsPath header p (eb ∙ ap some e)
        | inr (inr (inr e)) ↦ source-IsPath raw p (ec ∙ ap some e)
      ];
      fixed = fa;
      existing = normalized-Backs raw c p ec fc;
      selected = normalized-Backs header b p eb fb;
      trusted = t;
    }

-- With a fixed prefix that is a path or none, a request that the middleware passes on has a SCRIPT_NAME
-- that is a path; the fixed prefix, the SCRIPT_NAME of the request and the header of the trusted proxies
-- each are that path after normalization, where they are there; and with trusted proxies the header is.
pub call-Sources :
    (m : Middleware) (existing_raw : List ℕ) (values : List (List ℕ)) (p : List ℕ)
    → SourceIsPath m.fixed_prefix
    → call m existing_raw values ≡ passed p
    → Sources m existing_raw values p
unfolding call
call-Sources m existing_raw values p f h =
    elim (Bool-cases
      (not (m.trusted_hops == 0) && is_none (trusted_header_value m.trusted_hops values))) [
        | inl e ↦ elim (refused (sym (rw e refl) ∙ h)) [ ]
        | inr e ↦ checks-Sources m existing_raw values p f e (sym (rw e refl) ∙ h)
      ]
