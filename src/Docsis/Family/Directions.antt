-- ===== src/Docsis/Family/Directions.antt =====
-- app/docsis_utils.py: which families `classify_channel_family` gives in which direction.
use docsight.Prelude.{
  Bool-cases, inl, inr, ◌⊎◌, ◌≡◌, ◌≢◌, refl, Bool, true, false, arith, [], ◌∷◌, ◌||◌, ◌++◌,
  if◌then◌else◌, not, ◌&&◌,
}
use docsight.Values.{codes}
use docsight.Docsis.Family.{
  Family, sc_qam, ofdm, ofdma, unknown, ds, us, Carrier, classify_channel_family, classify_ds,
  classify_us, is_docsis31_plus, contains, compact,
}

abbrev pub is_ofdma_family : Family → Bool
is_ofdma_family ofdma = true
is_ofdma_family sc_qam = false
is_ofdma_family ofdm = false
is_ofdma_family unknown = false

abbrev pub is_ofdm_family : Family → Bool
is_ofdm_family ofdm = true
is_ofdm_family sc_qam = false
is_ofdm_family ofdma = false
is_ofdm_family unknown = false

-- A text of the type, or of the multiplex, that names the older carriers.
abbrev pub names_sc_qam : Carrier → Bool
unfolding compact contains
names_sc_qam ch =
    let both = compact (ch.kind ∷ ch.channel_type ∷ []) ++ b' ' ∷ compact (ch.multiplex ∷ []) in
    contains (codes "ATDMA") both || contains (codes "SCQAM") both || contains (codes "TDMA") both

abbrev pub names_ofdma : Carrier → Bool
unfolding compact contains
names_ofdma ch =
    contains (codes "OFDMA") (compact (ch.kind ∷ ch.channel_type ∷ []))
    || contains (codes "OFDMA") (compact (ch.multiplex ∷ []))

-- The families of the downstream.
data Downstream : Family → Type 0 where
  is_sc_qam : Downstream sc_qam
  is_ofdm : Downstream ofdm
  is_unknown : Downstream unknown

choose : (b : Bool) (f g : Family) → Downstream f → Downstream g → Downstream (if b then f else g)
choose true f g p q = p
choose false f g p q = q

ds-Downstream : (ch : Carrier) → Downstream (classify_channel_family ds ch)
unfolding classify_channel_family classify_ds
ds-Downstream ch = search (choose, is_ofdm, is_sc_qam, is_unknown) depth 20

downstream_lem : (f : Family) → Downstream f → is_ofdma_family f ≡ false
downstream_lem sc_qam d = refl
downstream_lem ofdm d = refl
downstream_lem ofdma d = elim d [ ]
downstream_lem unknown d = refl

ds_families : (ch : Carrier) → is_ofdma_family (classify_channel_family ds ch) ≡ false
ds_families ch = downstream_lem (classify_channel_family ds ch) (ds-Downstream ch)

us_families : (ch : Carrier) → is_ofdm_family (classify_channel_family us ch) ≡ false
unfolding classify_channel_family classify_us
us_families ch = ground arith

ds_known :
    (ch : Carrier)
    → is_docsis31_plus ch.docsis_version ≡ true
    → classify_channel_family ds ch ≢ unknown
unfolding classify_channel_family classify_ds
ds_known ch e = ground (arith, e)

us_known :
    (ch : Carrier)
    → is_docsis31_plus ch.docsis_version ≡ true
    → classify_channel_family us ch
      ≡ (if names_sc_qam ch && not (names_ofdma ch) then sc_qam else ofdma)
unfolding classify_channel_family classify_us
us_known ch e = ground (arith, e)

-- No downstream channel is taken for OFDMA and no upstream channel for OFDM. From DOCSIS 3.1 on no
-- channel is left unknown, and an upstream channel is SC-QAM exactly when its type or multiplex names an
-- older carrier and neither of them names OFDMA; otherwise it is OFDMA.
pub families_by_direction :
    (ch : Carrier)
    → (classify_channel_family ds ch ≢ ofdma)
      × (classify_channel_family us ch ≢ ofdm)
      × ((is_docsis31_plus ch.docsis_version ≡ false)
          ⊎ ((classify_channel_family ds ch ≢ unknown)
              × (classify_channel_family us ch
                  ≡ (if names_sc_qam ch && not (names_ofdma ch) then sc_qam else ofdma))))
families_by_direction ch =
    let d = ds_families ch in
    let u = us_families ch in
    (
      ground (arith, d),
      ground (arith, u),
      elim (Bool-cases (is_docsis31_plus ch.docsis_version)) [
        | inl e ↦ inr (ds_known ch e, us_known ch e)
        | inr e ↦ inl e
      ],
    )
