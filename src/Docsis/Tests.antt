-- ===== src/Docsis/Tests.antt =====
-- app/docsis_utils.py: runs at concrete names.
use docsight.Prelude.{◌≡◌, refl, some, none, [], ◌∷◌}
use docsight.Values.{codes}
use docsight.Docsis.{
  strip_right, clean, qam, read_digits, number_qam, only_digits, qam_number, order_of,
  parse_qam_order, qam_rank, ofdma, raw_text, canonical_modulation_label,
}
use docsight.Docsis.Formats.{formats_agree}

rank_test : qam_rank (codes " 256 QAM ") ≡ 7
unfolding qam_rank parse_qam_order order_of clean strip_right number_qam read_digits
rank_test = refl

label_test : canonical_modulation_label (codes "ofdm-a") ≡ (ofdma, none)
unfolding canonical_modulation_label raw_text parse_qam_order order_of clean strip_right number_qam
    qam_number read_digits only_digits
label_test = refl

formats_agree_test :
    (parse_qam_order (b'6' ∷ b'4' ∷ qam) ≡ some 64)
    × (parse_qam_order (b'q' ∷ b'a' ∷ b'm' ∷ b'_' ∷ b'6' ∷ b'4' ∷ []) ≡ some 64)
formats_agree_test = formats_agree b'6' (b'4' ∷ []) refl (refl, tt)
