-- ===== src/Gaming/Tests.antt =====
-- app/gaming_index.py: runs at concrete speedtests.
use docsight.Prelude.{ℕ, ◌<◌, ◌≤◌, ◌≡◌, ◌↔◌, refl, subst, false, none, some, arith}
use docsight.Gaming.{
  Measure, Speedtest, number, absent, grade_a, grade_b, score_latency, score_jitter,
  score_packet_loss, grade, Index, usable, index_of, compute_gaming_index,
}
use docsight.Gaming.Score.{number_injective, ◌≤m◌, index_falls, grade_a_lem, NoBetter}

abbrev measure : ℕ → Measure
measure n = record { hundredths = n; has_rest = false }

abbrev good : Speedtest
good = record {
  ping_ms = number (measure 1250);
  jitter_ms = number (measure 499);
  packet_loss_pct = number (measure 0);
}

abbrev lossy : Speedtest
lossy = record good { packet_loss_pct = number (measure 40) }

abbrev good_index : Index
good_index = record {
  score = 100;
  letter = grade_a;
  latency = 100;
  jitter = 100;
  packet_loss = 100;
}

abbrev lossy_index : Index
lossy_index = record { score = 80; letter = grade_b; latency = 100; jitter = 100; packet_loss = 80 }

good_test : compute_gaming_index (some good) ≡ some good_index
unfolding compute_gaming_index usable index_of score_latency score_jitter score_packet_loss grade
good_test = refl

lossy_test : compute_gaming_index (some lossy) ≡ some lossy_index
unfolding compute_gaming_index usable index_of score_latency score_jitter score_packet_loss grade
lossy_test = refl

missing_test : compute_gaming_index (some (record good { jitter_ms = absent })) ≡ none
unfolding compute_gaming_index usable index_of score_latency score_jitter score_packet_loss grade
missing_test = refl

measures_lem : (a b : ℕ) → b ≤ a → measure b ≤m measure a
measures_lem a b h = ground arith

no_better : (a b : ℕ) → b ≤ a → NoBetter (number (measure a)) (number (measure b))
no_better a b h m n e f =
    let em : measure a ≡ m = number_injective e in
    let en : measure b ≡ n = number_injective f in
    subst (λ x. x ≤m m) en (subst (λ y. measure b ≤m y) em (measures_lem a b h))

index_falls_example : 80 ≤ 100
index_falls_example =
    index_falls good lossy {i = good_index} {k = lossy_index} good_test lossy_test
      (no_better 1250 1250 (omega arith)) (no_better 499 499 (omega arith))
      (no_better 40 0 (omega arith))

grade_a_lem_test :
    (grade_a ≡ grade_a)
    ↔ ((1250 < 2000) × (499 < 500) × ((measure 0).hundredths ≡ 0) × (false ≡ false))
grade_a_lem_test =
    grade_a_lem good (measure 1250) (measure 499) (measure 0) {i = good_index} refl refl refl
      good_test
