-- ===== src/Gaming.antt =====
-- app/gaming_index.py: the quality index of a speedtest.
-- A value that `float` makes finite is a number of hundredths, rounded towards zero, with a flag for a
-- rest: the thresholds of the code are whole hundredths, so every test comes out the same.
pub mod Score
mod Tests
use docsight.Prelude.{
  ℕ, ◌*◌, min, Bool, true, false, not, ◌&&◌, ◌||◌, Option, none, some, ltb, leb, ◌==◌,
  if◌then◌else◌, ◌>>=◌,
}

-- A measured value.
pub record Measure : Type 0 where
  pub hundredths : ℕ
  pub has_rest : Bool

-- What a field of the speedtest is: absent, a Boolean or something that `float` refuses (`unusable`),
-- a value that is not finite or below 0 (`invalid`), or a number from 0.
pub data Reading : Type 0 where
  absent unusable invalid : Reading
  number : Measure → Reading

pub record Speedtest : Type 0 where
  pub ping_ms : Reading
  pub jitter_ms : Reading
  pub packet_loss_pct : Reading

-- The tests `value < n` and `value <= n`, n in hundredths.
abbrev pub below : Measure → ℕ → Bool
below m n = ltb m.hundredths n

abbrev pub at_most : Measure → ℕ → Bool
at_most m n = ltb m.hundredths n || m.hundredths == n && not m.has_rest

-- `_score_latency`
pub score_latency : Measure → ℕ
score_latency m =
    if below m 2000
    then 100
    else if at_most m 5000
    then 80
    else if at_most m 8000
    then 60
    else if at_most m 12000
    then 30
    else 0

-- `_score_jitter`
pub score_jitter : Measure → ℕ
score_jitter m =
    if below m 500
    then 100
    else if at_most m 1500
    then 80
    else if at_most m 3000
    then 60
    else if at_most m 5000
    then 30
    else 0

-- `_score_packet_loss`
pub score_packet_loss : Measure → ℕ
score_packet_loss m =
    if at_most m 0
    then 100
    else if below m 50
    then 80
    else if below m 100
    then 60
    else if below m 200
    then 30
    else 0

pub data Grade : Type 0 where
  grade_a grade_b grade_c grade_d grade_f : Grade

-- `_grade`
pub grade : ℕ → Grade
grade score =
    if leb 90 score
    then grade_a
    else if leb 75 score
    then grade_b
    else if leb 50 score
    then grade_c
    else if leb 25 score
    then grade_d
    else grade_f

pub record Index : Type 0 where
  pub score : ℕ
  pub letter : Grade
  pub latency : ℕ
  pub jitter : ℕ
  pub packet_loss : ℕ

-- The checks of one component; only a packet loss has an upper bound.
pub usable : Reading → Option ℕ → Option Measure
usable absent bound = none
usable unusable bound = none
usable invalid bound = none
usable (number m) none = some m
usable (number m) (some n) = if at_most m n then some m else none

-- The index of three values.
pub index_of : Measure → Measure → Measure → Index
unfolding score_latency score_jitter score_packet_loss grade
index_of ping jitter loss =
    let score = min (min (score_latency ping) (score_jitter jitter)) (score_packet_loss loss) in
    record {
      score = score;
      letter = grade score;
      latency = score_latency ping;
      jitter = score_jitter jitter;
      packet_loss = score_packet_loss loss;
    }

-- `compute_gaming_index`
pub compute_gaming_index : Option Speedtest → Option Index
unfolding usable index_of
compute_gaming_index none = none
compute_gaming_index (some s) = do
  ping ← usable s.ping_ms none
  jitter ← usable s.jitter_ms none
  loss ← usable s.packet_loss_pct (some 10000)
  some (index_of ping jitter loss)
