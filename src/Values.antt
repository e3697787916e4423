-- ===== src/Values.antt =====
-- app/error_counters.py, `_counter`: what `int` makes of a value. `none` of `counter` is the
-- `OverflowError` of `int(inf)`, which `_counter` does not catch. Texts are ASCII.
use Prim.Native.Char.{code}
use docsight.Prelude.{
  ℕ, zero, suc, ◌+◌, ◌-◌, ◌*◌, String, Bool, true, false, not, ◌&&◌, ◌||◌, Option, none, some, List,
  [], ◌∷◌, leb, ◌==◌, if◌then◌else◌,
}
use docsight.Prelude.Int.{ℤ, pos, negsuc}

-- A value of the language: `real` is a finite float by its integer part (towards zero) and whether it
-- is that integer; `other` is anything that `int` refuses with a `TypeError`.
pub data Value : Type 0 where
  null : Value
  int : ℤ → Value
  flag : Bool → Value
  real : ℤ → Bool → Value
  nan infinite : Value
  written : String → Value
  other : Value

abbrev pub codes : String → List ℕ
codes String.[] = []
codes (String.◌∷◌ c s) = code c ∷ codes s

abbrev pub is_space : ℕ → Bool
is_space c = leb 28 c && leb c 32 || leb 9 c && leb c 13

abbrev pub is_digit : ℕ → Bool
is_digit c = leb 48 c && leb c 57

abbrev pub strip_left : List ℕ → List ℕ
strip_left [] = []
strip_left (c ∷ s) = if is_space c then strip_left s else c ∷ s

abbrev pub all_space : List ℕ → Bool
all_space [] = true
all_space (c ∷ s) = is_space c && all_space s

-- The digits of a numeral behind its first one; a `_` stands between two digits.
abbrev pub digits : ℕ → Bool → List ℕ → Option ℕ
digits n under [] = if under then none else some n
digits n under (c ∷ s) =
    let next = digits (n * 10 + (c - 48)) false s in
    let skip = digits n true s in
    if is_digit c
    then next
    else if c == b'_' && not under
    then skip
    else if not under && all_space (c ∷ s)
    then some n
    else none

abbrev pub numeral : List ℕ → Option ℕ
numeral [] = none
numeral (c ∷ s) = if is_digit c then digits (c - 48) false s else none

abbrev pub negate : ℕ → ℤ
negate zero = pos 0
negate (suc n) = negsuc n

abbrev pub signed : List ℕ → Option ℤ
signed [] = none
signed (c ∷ s) =
    if c == b'-'
    then elim (numeral s) [ none ↦ none | some n ↦ some (negate n) ]
    else if c == b'+'
    then elim (numeral s) [ none ↦ none | some n ↦ some (pos n) ]
    else elim (numeral (c ∷ s)) [ none ↦ none | some n ↦ some (pos n) ]

-- `int(text)`, `none` for a `ValueError`
unfoldable pub int_of_text : String → Option ℤ
int_of_text s = signed (strip_left (codes s))

-- `_counter`
unfoldable pub counter : Value → Option (Option ℤ)
unfolding int_of_text
counter null = some none
counter (int n) = some (some n)
counter (flag true) = some (some (pos 1))
counter (flag false) = some (some (pos 0))
counter (real n exact) = some (some n)
counter nan = some none
counter infinite = none
counter (written s) = some (int_of_text s)
counter other = some none
