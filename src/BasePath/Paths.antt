-- ===== src/BasePath/Paths.antt =====
-- app/base_path.py: `normalize_base_path` accepts the paths of valid segments and no others.
use docsight.Prelude.{
  ℕ, ◌≤◌, ◌≡◌, refl, sym, subst, ap, ◌∙◌, inl, inr, Bool, true, false, not, ◌||◌, Option, none,
  some, List, [], ◌∷◌, any, length, ltb, ◌==◌, if◌then◌else◌, arith, Bool-cases,
}
use docsight.Values.{codes, is_space}
use docsight.Docsis.{same_codes}
use docsight.BasePath.{
  all_valid, is_empty, starts_with_slash, last_is, has_outer_space, is_control, is_marker,
  has_double_slash, split, drop_one, check_path, normalize_base_path, max_base_path_length,
}
use docsight.BasePath.Segments.{
  render, valid-all_texts, all_texts, space-Foreign, slash-Foreign, control-Foreign, marker-Foreign,
  any-render, last-render, double-render, split-render, render-split,
}

-- A path: nothing, or segments that are valid, not longer than the bound.
abbrev pub IsPath : List ℕ → Type 0
IsPath p =
    (gs : List (List ℕ)) × (p ≡ render gs)
    × (all_valid gs ≡ true)
    × (length p ≤ max_base_path_length)

some_injective : {p q : List ℕ} → some p ≡ some q → p ≡ q
some_injective {p} h = ap (λ o. elim o [ none ↦ p | some x ↦ x ]) h

-- What a text that passes has passed.
record Passed (v p : List ℕ) : Type 0 where
  same : v ≡ p
  short : length v ≤ max_base_path_length
  slash : starts_with_slash v ≡ true
  segments : all_valid (split (drop_one v)) ≡ true

-- The five tests, and what their outcome gives.
decided :
    (long edges control marked valid : Bool) (v p : List ℕ)
    → (if long
        then none
        else if edges
        then none
        else if control
        then none
        else if marked
        then none
        else if not valid
        then none
        else some v)
      ≡ some p
    → (long ≡ false) × (edges ≡ false) × (valid ≡ true) × (v ≡ p)
decided true edges control marked valid v p h = cc
decided false true control marked valid v p h = cc
decided false false true marked valid v p h = cc
decided false false false true valid v p h = cc
decided false false false false false v p h = cc
decided false false false false true v p h = (refl, refl, refl, some_injective h)

short_of :
    (v : List ℕ) → ltb max_base_path_length (length v) ≡ false → length v ≤ max_base_path_length
short_of v h = ground (arith, h)

middle_false : (a b c : Bool) → (a || not b || c) ≡ false → b ≡ true
middle_false a b c h = ground (arith, h)

check_path-Passed : (v p : List ℕ) → check_path v ≡ some p → Passed v p
unfolding check_path
check_path-Passed v p h =
    let d =
      decided (ltb max_base_path_length (length v))
        (has_outer_space v || not (starts_with_slash v) || last_is (λ c. c == b'/') v)
        (any is_control v) (any is_marker v || has_double_slash v) (all_valid (split (drop_one v)))
        v p h in
    record {
      same = d.3;
      short = short_of v d.0;
      slash =
          middle_false (has_outer_space v) (starts_with_slash v) (last_is (λ c. c == b'/') v) d.1;
      segments = d.2;
    }

from_slash : (v : List ℕ) → starts_with_slash v ≡ true → v ≡ b'/' ∷ drop_one v
from_slash [] h = cc
from_slash (c ∷ s) h = let e : c ≡ b'/' = ground (arith, h) in ap (λ x. x ∷ s) e

check_path-IsPath : (v p : List ℕ) → check_path v ≡ some p → IsPath p
check_path-IsPath v p h =
    let c = check_path-Passed v p h in
    (
      split (drop_one v),
      sym c.same ∙ from_slash v c.slash ∙ sym (render-split (drop_one v)),
      c.segments,
      subst (λ x. length x ≤ max_base_path_length) c.same c.short,
    )

all_pass :
    (v : List ℕ)
    → length v ≤ max_base_path_length
    → (has_outer_space v || not (starts_with_slash v) || last_is (λ c. c == b'/') v) ≡ false
    → any is_control v ≡ false
    → (any is_marker v || has_double_slash v) ≡ false
    → all_valid (split (drop_one v)) ≡ true
    → check_path v ≡ some v
unfolding check_path
all_pass v short edges control marked valid =
    let s : ltb max_base_path_length (length v) ≡ false = ground (arith, short) in
    rw (s, edges, control, marked, valid) refl

or_false : (a b : Bool) → a ≡ false → b ≡ false → (a || b) ≡ false
or_false a b h k = ground (arith, h, k)

-- The path of one or more valid segments passes.
accepts :
    (g : List ℕ) (gs : List (List ℕ))
    → all_valid (g ∷ gs) ≡ true
    → length (render (g ∷ gs)) ≤ max_base_path_length
    → check_path (render (g ∷ gs)) ≡ some (render (g ∷ gs))
accepts g gs h short =
    let t = valid-all_texts (g ∷ gs) h in
    let space = last-render is_space g gs space-Foreign t in
    let slash = last-render (λ c. c == b'/') g gs slash-Foreign t in
    let control = any-render is_control (g ∷ gs) control-Foreign refl t in
    let marker = any-render is_marker (g ∷ gs) marker-Foreign refl t in
    let double = double-render (g ∷ gs) t in
    let parts = split-render g gs t in
    all_pass (render (g ∷ gs)) short (or_false _ _ (or_false _ _ space refl) slash) control
      (or_false _ _ marker double) (rw parts h)

pub empty-IsPath : IsPath []
empty-IsPath = ([], refl, refl, omega arith)

result-IsPath : (v : Option (List ℕ)) (p : List ℕ) → normalize_base_path v ≡ some p → IsPath p
unfolding normalize_base_path
result-IsPath none p h = subst IsPath (some_injective h) empty-IsPath
result-IsPath (some v) p h = elim (Bool-cases (is_empty v || same_codes v (codes "/"))) [
  | inl e ↦ subst IsPath (some_injective (sym (rw e refl) ∙ h)) empty-IsPath
  | inr e ↦ check_path-IsPath v p (sym (rw e refl) ∙ h)
]

not_root :
    (g : List ℕ) (gs : List (List ℕ))
    → all_texts (g ∷ gs) ≡ true
    → (is_empty (render (g ∷ gs)) || same_codes (render (g ∷ gs)) (codes "/")) ≡ false
not_root [] gs h = cc
not_root (c ∷ g) gs h = refl

IsPath-accepted : (p : List ℕ) → IsPath p → normalize_base_path (some p) ≡ some p
unfolding normalize_base_path
IsPath-accepted p ([], e, v, short) = rw e refl
IsPath-accepted p (g ∷ gs, e, v, short) =
    let root = not_root g gs (valid-all_texts (g ∷ gs) v) in
    let fits = subst (λ x. length x ≤ max_base_path_length) e short in
    subst (λ x. normalize_base_path (some x) ≡ some x) (sym e) (rw root (accepts g gs v fits))

-- What a value is normalized to is a path: empty, or valid segments each behind one slash, 1024
-- characters at most; and it is accepted again as it is.
pub normalize_base_path-IsPath :
    (v : Option (List ℕ)) (p : List ℕ)
    → normalize_base_path v ≡ some p
    → IsPath p × (normalize_base_path (some p) ≡ some p)
normalize_base_path-IsPath v p h = let path = result-IsPath v p h in (path, IsPath-accepted p path)

-- Valid segments, each written behind a slash and 1024 characters at most together, are accepted as they
-- are, and splitting the text behind its first slash gives the segments back.
pub normalize-render :
    (g : List ℕ) (gs : List (List ℕ))
    → all_valid (g ∷ gs) ≡ true
    → length (render (g ∷ gs)) ≤ max_base_path_length
    → (normalize_base_path (some (render (g ∷ gs))) ≡ some (render (g ∷ gs)))
      × (split (drop_one (render (g ∷ gs))) ≡ g ∷ gs)
normalize-render g gs h short = (
  IsPath-accepted (render (g ∷ gs)) (g ∷ gs, refl, h, short),
  split-render g gs (valid-all_texts (g ∷ gs) h),
)
