-- ===== src/Docsis.antt =====
-- app/docsis_utils.py: the names of modulations. A text is the codes of its characters, all ASCII.
pub mod Formats
pub mod Family
mod Tests
use docsight.Prelude.{
  ℕ, ◌+◌, ◌-◌, ◌*◌, Bool, true, false, not, ◌&&◌, ◌||◌, Option, none, some, List, [], ◌∷◌, ◌++◌,
  map, keep, leb, ◌==◌, if◌then◌else◌,
}
use docsight.Values.{is_space, is_digit, strip_left}

abbrev pub upper : ℕ → ℕ
upper c = if leb 97 c && leb c 122 then c - 32 else c

abbrev pub no_separator : ℕ → Bool
no_separator c = not (c == b'-') && not (c == b'_')

unfoldable pub strip_right : List ℕ → List ℕ
strip_right [] = []
strip_right (c ∷ s) = elim (strip_right s) [
  | [] ↦ (if is_space c then [] else c ∷ [])
  | x ∷ xs ↦ c ∷ x ∷ xs
]

-- `str(modulation).upper().replace("-", "").replace("_", "").strip()`
unfoldable pub clean : List ℕ → List ℕ
clean s = strip_right (strip_left (keep no_separator (map upper s)))

abbrev pub same_codes : List ℕ → List ℕ → Bool
same_codes [] [] = true
same_codes [] (c ∷ t) = false
same_codes (c ∷ s) [] = false
same_codes (c ∷ s) (d ∷ t) = c == d && same_codes s t

abbrev pub qam : List ℕ
qam = b'Q' ∷ b'A' ∷ b'M' ∷ []

abbrev pub qpsk : List ℕ
qpsk = b'Q' ∷ b'P' ∷ b'S' ∷ b'K' ∷ []

-- The value of the digits at the front, and what is behind them.
unfoldable pub read_digits : ℕ → List ℕ → ℕ × List ℕ
read_digits n [] = (n, [])
read_digits n (c ∷ s) =
    let rest = read_digits (n * 10 + (c - 48)) s in if is_digit c then rest else (n, c ∷ s)

-- `(\d+)\s*QAM` on the whole text
unfoldable pub number_qam : List ℕ → Option ℕ
number_qam [] = none
number_qam (c ∷ s) =
    let r = read_digits 0 (c ∷ s) in
    if is_digit c && same_codes (strip_left r.1) qam then some r.0 else none

-- One or more digits that are the whole text.
unfoldable pub only_digits : List ℕ → Option ℕ
only_digits [] = none
only_digits (c ∷ s) =
    let r = read_digits 0 (c ∷ s) in if is_digit c && same_codes r.1 [] then some r.0 else none

-- `QAM\s*(\d+)` on the whole text
unfoldable pub qam_number : List ℕ → Option ℕ
qam_number (a ∷ b ∷ c ∷ s) =
    if same_codes (a ∷ b ∷ c ∷ []) qam then only_digits (strip_left s) else none
qam_number s = none

-- The order of a cleaned text.
unfoldable pub order_of : List ℕ → Option ℕ
order_of s =
    if same_codes s qpsk
    then some 4
    else elim (number_qam s) [ some n ↦ some n | none ↦ qam_number s ]

-- `parse_qam_order`
unfoldable pub parse_qam_order : List ℕ → Option ℕ
parse_qam_order s = order_of (clean s)

-- `QAM_ORDER`, by the order of the modulation.
abbrev pub order_rank : ℕ → ℕ
order_rank n =
    if n == 4
    then 1
    else if n == 8
    then 2
    else if n == 16
    then 3
    else if n == 32
    then 4
    else if n == 64
    then 5
    else if n == 128
    then 6
    else if n == 256
    then 7
    else if n == 512
    then 8
    else if n == 1024
    then 9
    else if n == 2048
    then 10
    else if n == 4096
    then 11
    else 0

-- `qam_rank`
unfoldable pub qam_rank : List ℕ → ℕ
qam_rank s = elim (parse_qam_order s) [ none ↦ 0 | some n ↦ order_rank n ]

-- A label for display: the order of a QAM, OFDM, OFDMA or nothing known.
pub data Label : Type 0 where
  qam_label : ℕ → Label
  ofdm ofdma unknown : Label

-- Here only the dash is taken out.
unfoldable pub raw_text : List ℕ → List ℕ
raw_text s = strip_right (strip_left (keep (λ c. not (c == b'-')) (map upper s)))

-- `canonical_modulation_label`
unfoldable pub canonical_modulation_label : List ℕ → Label × Option ℕ
canonical_modulation_label s = elim (parse_qam_order s) [
  | some n ↦ (qam_label n, some n)
  | none ↦
      if same_codes (raw_text s) (b'O' ∷ b'F' ∷ b'D' ∷ b'M' ∷ [])
      then (ofdm, none)
      else if same_codes (raw_text s) (b'O' ∷ b'F' ∷ b'D' ∷ b'M' ∷ b'A' ∷ [])
      then (ofdma, none)
      else (unknown, none)
]
