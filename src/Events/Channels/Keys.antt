-- ===== src/Events/Channels/Keys.antt =====
-- app/event_detector.py: lists of keys without repetition, as `_check_channels` compares them.
use docsight.Prelude.{
  ◌+◌, ◌≡◌, refl, subst, String, str_eq, eq_iff, Bool, false, not, List, [], ◌∷◌, any, count_if,
  length, if◌then◌else◌, arith, Bool-cases, inl, inr,
}
use docsight.Prelude.Dict.{Dict}

abbrev pub has : List String → String → Bool
has ks k = any (λ j. str_eq j k) ks

abbrev pub Distinct : List String → Type 0
Distinct [] = Unit
Distinct (k ∷ ks) = (has ks k ≡ false) × Distinct ks

abbrev pub keys : {V : Type 0} → Dict V → List String
keys [] = []
keys ((k, v) ∷ d) = k ∷ keys d

-- The keys of two lists without repetition: as many of one are in the other as the other way round.
pub eq_sym : (a b : String) → str_eq a b ≡ str_eq b a
eq_sym a b = ground (arith, eq_iff a b, eq_iff b a)

has_once :
    (x : String) (ys : List String)
    → Distinct ys
    → count_if (λ y. str_eq x y) ys ≡ (if has ys x then 1 else 0)
has_once x [] d = refl
has_once x (y ∷ ys) d =
    let ih = has_once x ys d.1 in ground (arith, ih, d.0, eq_iff x y, eq_iff y x)

-- The key and the others, of which none is the key.
count_split :
    (x : String) (xs ys : List String)
    → has xs x ≡ false
    → count_if (has (x ∷ xs)) ys ≡ count_if (λ y. str_eq x y) ys + count_if (has xs) ys
count_split x xs [] h = refl
count_split x xs (y ∷ ys) h = elim (Bool-cases (str_eq x y)) [
  | inl e ↦
      let ih = count_split x xs ys h in
      let same : x ≡ y = (eq_iff x y).0 e in
      let absent : has xs y ≡ false = subst (λ z. has xs z ≡ false) same h in
      ground (arith, ih, e, absent)
  | inr e ↦ let ih = count_split x xs ys h in ground (arith, ih, e)
]

pub shared :
    (xs ys : List String) → Distinct xs → Distinct ys → count_if (has ys) xs ≡ count_if (has xs) ys
shared [] [] dx dy = refl
shared [] (y ∷ ys) dx dy = shared [] ys dx dy.1
shared (x ∷ xs) ys dx dy =
    let ih = shared xs ys dx.1 dy in
    let a = count_split x xs ys dx.0 in let b = has_once x ys dy in ground (arith, ih, a, b)

pub split_count :
    (p : String → Bool) (xs : List String)
    → count_if p xs + count_if (λ x. not (p x)) xs ≡ length xs
split_count p [] = refl
split_count p (x ∷ xs) = let ih = split_count p xs in ground (arith, ih)
