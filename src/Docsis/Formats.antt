-- ===== src/Docsis/Formats.antt =====
-- app/docsis_utils.py: the formats of the drivers agree.
use docsight.Prelude.{
  ℕ, ◌+◌, ◌-◌, ◌*◌, ◌≡◌, refl, ap, ◌∙◌, true, false, some, List, [], ◌∷◌, ◌++◌, map, keep, All,
  ◌==◌, arith,
}
use docsight.Values.{is_space, is_digit}
use docsight.Docsis.{
  upper, no_separator, strip_right, clean, qam, read_digits, number_qam, only_digits, qam_number,
  parse_qam_order, order_of,
}

abbrev pub IsDigit : ℕ → Type 0
IsDigit c = is_digit c ≡ true

-- The number that digits write.
abbrev pub value : ℕ → List ℕ → ℕ
value n [] = n
value n (c ∷ s) = value (n * 10 + (c - 48)) s

read_digits_lem :
    (n : ℕ) (ds rest : List ℕ)
    → All IsDigit ds
    → (read_digits n (ds ++ qam) ≡ (value n ds, qam)) × (read_digits n ds ≡ (value n ds, []))
unfolding read_digits
read_digits_lem n [] rest h = (refl, refl)
read_digits_lem n (c ∷ ds) rest h =
    let r = read_digits_lem (n * 10 + (c - 48)) ds rest h.1 in (rw h.0 r.0, rw h.0 r.1)

-- Digits are kept by `upper` and by the removal of separators.
keep_digits :
    (ds t : List ℕ)
    → All IsDigit ds
    → keep no_separator (map upper (ds ++ t)) ≡ ds ++ keep no_separator (map upper t)
keep_digits [] t h = refl
keep_digits (c ∷ ds) t h = let r = keep_digits ds t h.1 in ground (arith, h.0, r)

NoSpace : ℕ → Type 0
NoSpace c = is_space c ≡ false

strip_right-All : (s : List ℕ) → All NoSpace s → strip_right s ≡ s
unfolding strip_right NoSpace
strip_right-All [] h = refl
strip_right-All (c ∷ []) h = rw h.0 refl
strip_right-All (c ∷ d ∷ s) h = rw (strip_right-All (d ∷ s) h.1) refl

digits-All : (ds t : List ℕ) → All IsDigit ds → All NoSpace t → All NoSpace (ds ++ t)
unfolding NoSpace
digits-All [] t h k = k
digits-All (c ∷ ds) t h k = (ground (arith, h.0), digits-All ds t h.1 k)

digit_no_space : (c : ℕ) → IsDigit c → is_space c ≡ false
digit_no_space c h = ground (arith, h)

clean_suffix :
    (c : ℕ) (ds : List ℕ) → IsDigit c → All IsDigit ds → clean (c ∷ ds ++ qam) ≡ c ∷ ds ++ qam
unfolding clean NoSpace
clean_suffix c ds h k =
    rw (keep_digits (c ∷ ds) qam (h, k), digit_no_space c h)
      (strip_right-All (c ∷ ds ++ qam) (digits-All (c ∷ ds) qam (h, k) (refl, (refl, (refl, tt)))))

keep_all : (ds : List ℕ) → All IsDigit ds → keep no_separator (map upper ds) ≡ ds
keep_all [] h = refl
keep_all (c ∷ ds) h = let r = keep_all ds h.1 in ground (arith, h.0, r)

all-NoSpace : (ds : List ℕ) → All IsDigit ds → All NoSpace ds
unfolding NoSpace
all-NoSpace [] h = tt
all-NoSpace (c ∷ ds) h = (digit_no_space c h.0, all-NoSpace ds h.1)

clean_prefix :
    (ds : List ℕ)
    → All IsDigit ds
    → clean (b'q' ∷ b'a' ∷ b'm' ∷ b'_' ∷ ds) ≡ b'Q' ∷ b'A' ∷ b'M' ∷ ds
unfolding clean NoSpace
clean_prefix ds k =
    rw (keep_all ds k)
      (strip_right-All (b'Q' ∷ b'A' ∷ b'M' ∷ ds) (refl, (refl, (refl, all-NoSpace ds k))))

order_suffix :
    (c : ℕ) (ds : List ℕ)
    → IsDigit c
    → All IsDigit ds
    → order_of (c ∷ ds ++ qam) ≡ some (value 0 (c ∷ ds))
unfolding order_of number_qam
order_suffix c ds h k =
    let r = (read_digits_lem 0 (c ∷ ds) [] (h, k)).0 in
    let not_q : (c == b'Q') ≡ false = ground (arith, h) in rw (not_q, h, r) refl

order_prefix :
    (c : ℕ) (ds : List ℕ)
    → IsDigit c
    → All IsDigit ds
    → order_of (b'Q' ∷ b'A' ∷ b'M' ∷ c ∷ ds) ≡ some (value 0 (c ∷ ds))
unfolding order_of number_qam qam_number only_digits
order_prefix c ds h k =
    let r = (read_digits_lem 0 (c ∷ ds) [] (h, k)).1 in rw (digit_no_space c h, h, r) refl

-- A number in digits names the same modulation in both formats of the drivers, as in 256QAM and
-- qam_256: the order is the value of the digits.
pub formats_agree :
    (c : ℕ) (ds : List ℕ)
    → IsDigit c
    → All IsDigit ds
    → (parse_qam_order (c ∷ ds ++ qam) ≡ some (value 0 (c ∷ ds)))
      × (parse_qam_order (b'q' ∷ b'a' ∷ b'm' ∷ b'_' ∷ c ∷ ds) ≡ some (value 0 (c ∷ ds)))
unfolding parse_qam_order
formats_agree c ds h k = (
  ap order_of (clean_suffix c ds h k) ∙ order_suffix c ds h k,
  ap order_of (clean_prefix (c ∷ ds) (h, k)) ∙ order_prefix c ds h k,
)
