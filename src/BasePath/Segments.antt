-- ===== src/BasePath/Segments.antt =====
-- app/base_path.py: paths as they are written from their segments.
use mathlib.Core.List.{append-nil}
use docsight.Prelude.{
  ℕ, ◌≡◌, refl, sym, ap, ◌∙◌, Bool, true, false, not, ◌&&◌, ◌||◌, List, [], ◌∷◌, ◌++◌, any, ◌==◌,
  arith, Bool-cases, inl, inr,
}
use docsight.Values.{is_space}
use docsight.BasePath.{
  is_segment_character, all_of, is_empty, valid_segment, last_is, is_control, is_marker,
  has_double_slash, to_first, split, drop_one, all_valid,
}

-- A path from its segments, each behind a slash.
abbrev pub render : List (List ℕ) → List ℕ
render [] = []
render (g ∷ gs) = b'/' ∷ (g ++ render gs)

abbrev is_slash : ℕ → Bool
is_slash c = c == b'/'

abbrev pub is_text : List ℕ → Bool
is_text g = all_of is_segment_character g && not (is_empty g)

valid-text : (g : List ℕ) → valid_segment g ≡ true → is_text g ≡ true
unfolding valid_segment
valid-text g h = ground (arith, h)

abbrev pub all_texts : List (List ℕ) → Bool
all_texts [] = true
all_texts (g ∷ gs) = is_text g && all_texts gs

pub valid-all_texts : (gs : List (List ℕ)) → all_valid gs ≡ true → all_texts gs ≡ true
valid-all_texts [] h = refl
valid-all_texts (g ∷ gs) h =
    let a = valid-text g in let b = valid-all_texts gs in ground (arith, h, a, b)

-- A test that no character of a segment meets.
abbrev pub Foreign : (ℕ → Bool) → Type 0
Foreign p = (c : ℕ) → is_segment_character c ≡ true → p c ≡ false

pub space-Foreign : Foreign is_space
space-Foreign c h = ground (arith, h)

pub slash-Foreign : Foreign is_slash
slash-Foreign c h = ground (arith, h)

pub control-Foreign : Foreign is_control
control-Foreign c h = ground (arith, h)

pub marker-Foreign : Foreign is_marker
marker-Foreign c h = ground (arith, h)

and_left : (a b : Bool) → (a && b) ≡ true → a ≡ true
and_left a b h = ground (arith, h)

and_right : (a b : Bool) → (a && b) ≡ true → b ≡ true
and_right a b h = ground (arith, h)

-- The characters of a segment.
head_chars :
    (g : List ℕ) (gs : List (List ℕ))
    → all_texts (g ∷ gs) ≡ true
    → all_of is_segment_character g ≡ true
head_chars g gs h =
    and_left (all_of is_segment_character g) (not (is_empty g))
      (and_left (is_text g) (all_texts gs) h)

first_char :
    (c : ℕ) (g : List ℕ)
    → all_of is_segment_character (c ∷ g) ≡ true
    → is_segment_character c ≡ true
first_char c g h = and_left (is_segment_character c) (all_of is_segment_character g) h

later_chars :
    (c : ℕ) (g : List ℕ)
    → all_of is_segment_character (c ∷ g) ≡ true
    → all_of is_segment_character g ≡ true
later_chars c g h = and_right (is_segment_character c) (all_of is_segment_character g) h

slash_eq : (c : ℕ) → (c == b'/') ≡ true → c ≡ b'/'
slash_eq c e = ground (arith, e)

any-append : (p : ℕ → Bool) (s t : List ℕ) → any p (s ++ t) ≡ (any p s || any p t)
any-append p [] t = refl
any-append p (c ∷ s) t = let ih = any-append p s t in ground (arith, ih)

any-Foreign :
    (p : ℕ → Bool) (g : List ℕ) → Foreign p → all_of is_segment_character g ≡ true → any p g ≡ false
any-Foreign p [] f h = refl
any-Foreign p (c ∷ g) f h =
    let a = f c (first_char c g h) in
    let b = any-Foreign p g f (later_chars c g h) in ground (arith, a, b)

-- No character of a path meets the test either, where a slash does not.
pub any-render :
    (p : ℕ → Bool) (gs : List (List ℕ))
    → Foreign p
    → p b'/' ≡ false
    → all_texts gs ≡ true
    → any p (render gs) ≡ false
any-render p [] f s h = refl
any-render p (g ∷ gs) f s h =
    let a = any-Foreign p g f (head_chars g gs h) in
    let b = any-render p gs f s (and_right (is_text g) (all_texts gs) h) in
    let law = any-append p g (render gs) in ground (arith, a, b, s, law)

last-append :
    (p : ℕ → Bool) (s : List ℕ) (c : ℕ) (t : List ℕ) → last_is p (s ++ c ∷ t) ≡ last_is p (c ∷ t)
last-append p [] c t = refl
last-append p (x ∷ []) c t = refl
last-append p (x ∷ y ∷ s) c t = last-append p (y ∷ s) c t

last-Foreign :
    (p : ℕ → Bool) (c : ℕ) (g : List ℕ)
    → Foreign p
    → all_of is_segment_character (c ∷ g) ≡ true
    → last_is p (c ∷ g) ≡ false
last-Foreign p c [] f h = f c (first_char c [] h)
last-Foreign p c (d ∷ g) f h = last-Foreign p d g f (later_chars c (d ∷ g) h)

pub last-render :
    (p : ℕ → Bool) (g : List ℕ) (gs : List (List ℕ))
    → Foreign p
    → all_texts (g ∷ gs) ≡ true
    → last_is p (render (g ∷ gs)) ≡ false
last-render p [] gs f h = cc
last-render p (c ∷ g) [] f h =
    ap (λ t. last_is p (c ∷ t)) (append-nil g) ∙ last-Foreign p c g f (head_chars (c ∷ g) [] h)
last-render p (c ∷ g) (k ∷ gs) f h =
    last-append p (b'/' ∷ c ∷ g) b'/' (k ++ render gs)
    ∙ last-render p k gs f (and_right (is_text (c ∷ g)) (all_texts (k ∷ gs)) h)

double-append :
    (g t : List ℕ)
    → all_of is_segment_character g ≡ true
    → has_double_slash (g ++ t) ≡ has_double_slash t
unfolding has_double_slash
double-append [] t h = refl
double-append (c ∷ []) [] h = refl
double-append (c ∷ []) (d ∷ t) h = let s = slash-Foreign c in ground (arith, s, h)
double-append (c ∷ d ∷ g) t h =
    let s = slash-Foreign c in let ih = double-append (d ∷ g) t in ground (arith, s, ih, h)

pub double-render :
    (gs : List (List ℕ)) → all_texts gs ≡ true → has_double_slash (render gs) ≡ false
unfolding has_double_slash
double-render [] h = refl
double-render ([] ∷ gs) h = cc
double-render ((c ∷ g) ∷ gs) h =
    let s = slash-Foreign c in
    let law = double-append (c ∷ g) (render gs) in
    let ih = double-render gs in ground (arith, s, law, ih, h)

split_segment :
    (g t : List ℕ) → all_of is_segment_character g ≡ true → split (g ++ b'/' ∷ t) ≡ g ∷ split t
unfolding split
split_segment [] t h = refl
split_segment (c ∷ g) t h =
    rw (slash-Foreign c (first_char c g h), split_segment g t (later_chars c g h)) refl

split_last : (g : List ℕ) → all_of is_segment_character g ≡ true → split (g ++ []) ≡ g ∷ []
unfolding split
split_last [] h = refl
split_last (c ∷ g) h =
    rw (slash-Foreign c (first_char c g h), split_last g (later_chars c g h)) refl

pub split-render :
    (g : List ℕ) (gs : List (List ℕ)) → all_texts (g ∷ gs) ≡ true → split (g ++ render gs) ≡ g ∷ gs
split-render g [] h = split_last g (head_chars g [] h)
split-render g (k ∷ gs) h =
    split_segment g (k ++ render gs) (head_chars g (k ∷ gs) h)
    ∙ ap (λ r. g ∷ r) (split-render k gs (and_right (is_text g) (all_texts (k ∷ gs)) h))

to_first-render :
    (c : ℕ) (l : List (List ℕ)) (s : List ℕ)
    → render l ≡ b'/' ∷ s
    → render (to_first c l) ≡ b'/' ∷ c ∷ s
to_first-render c [] s h = cc
to_first-render c (g ∷ gs) s h = ap (λ t. b'/' ∷ c ∷ t) (ap drop_one h)

pub render-split : (s : List ℕ) → render (split s) ≡ b'/' ∷ s
unfolding split
render-split [] = refl
render-split (c ∷ s) = elim (Bool-cases (c == b'/')) [
  | inl e ↦ rw e (ap (λ t. b'/' ∷ t) (render-split s ∙ ap (λ x. x ∷ s) (sym (slash_eq c e))))
  | inr e ↦ rw e (to_first-render c (split s) s (render-split s))
]
