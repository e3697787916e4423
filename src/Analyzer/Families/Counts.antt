-- ===== src/Analyzer/Families/Counts.antt =====
-- app/analyzer.py: the families of a direction hold each channel once, and their counts add up.
use docsight.Prelude.{
  ℕ, suc, ◌+◌, ◌≡◌, refl, sym, ap, ◌∙◌, Bool, true, List, [], ◌∷◌, count_if, length, arith,
}
use docsight.Docsis.Family.{Family, Direction, ds, us}
use docsight.Analyzer.{Health, good, bad, tolerated, warning, critical}
use docsight.Analyzer.Summary.{Channel}
use docsight.Analyzer.Families.{same_health}
use docsight.Analyzer.Families.Groups.{
  Counts, health_counts, FamilySummary, family_summary, group_of, families_of, summarised,
  summaries, direction_summary,
}

-- A count of a summary, by the health.
abbrev pub counted : Health → Counts → ℕ
counted good c = c.good_channels
counted (bad tolerated) c = c.tolerated_channels
counted (bad warning) c = c.warning_channels
counted (bad critical) c = c.critical_channels

abbrev pub total : {A : Type 0} → (A → ℕ) → List A → ℕ
total w [] = 0
total w (x ∷ xs) = w x + total w xs

abbrev pub has : Health → Channel → Bool
has h c = same_health c.health h

counted_lem :
    (h : Health) (chs : List Channel) → counted h (health_counts chs) ≡ count_if (has h) chs
unfolding health_counts
counted_lem good chs = refl
counted_lem (bad tolerated) chs = refl
counted_lem (bad warning) chs = refl
counted_lem (bad critical) chs = refl

-- The four healths, of a channel each one.
healths_split :
    (chs : List Channel)
    → count_if (has good) chs
        + (count_if (has (bad tolerated)) chs
            + (count_if (has (bad warning)) chs + count_if (has (bad critical)) chs))
      ≡ length chs
healths_split [] = refl
healths_split (c ∷ chs) = let rest = healths_split chs in ground (arith, rest)

-- The families, of a channel each one.
families_split :
    (p : Channel → Bool) (dir : Direction) (chs : List Channel)
    → total (λ f. count_if p (group_of f chs)) (families_of dir) ≡ count_if p chs
families_split p ds [] = refl
families_split p us [] = refl
families_split p ds (c ∷ chs) = let rest = families_split p ds chs in ground (arith, rest)
families_split p us (c ∷ chs) = let rest = families_split p us chs in ground (arith, rest)

summary_weight :
    (dir : Direction) (cs : List Channel) (f : Family) (w : FamilySummary → ℕ)
    (g : List Channel → ℕ)
    → g [] ≡ 0
    → ((f : Family) (cs : List Channel) → w (family_summary dir f cs) ≡ g cs)
    → (rest : List FamilySummary) → total w (summarised dir f cs rest) ≡ g cs + total w rest
summary_weight dir [] f w g z e rest = omega (arith, z)
summary_weight dir (c ∷ cs) f w g z e rest = rw (e f (c ∷ cs)) refl

-- A weight that an empty group does not have.
total-summaries :
    (dir : Direction) (chs : List Channel) (fs : List Family) (w : FamilySummary → ℕ)
    (g : List Channel → ℕ)
    → g [] ≡ 0
    → ((f : Family) (cs : List Channel) → w (family_summary dir f cs) ≡ g cs)
    → total w (summaries dir chs fs) ≡ total (λ f. g (group_of f chs)) fs
unfolding summaries
total-summaries dir chs [] w g z e = refl
total-summaries dir chs (f ∷ fs) w g z e =
    let rest = total-summaries dir chs fs w g z e in
    summary_weight dir (group_of f chs) f w g z e (summaries dir chs fs)
    ∙ ap (λ n. g (group_of f chs) + n) rest

count_all : (cs : List Channel) → length cs ≡ count_if (λ c. true) cs
count_all [] = refl
count_all (c ∷ cs) = ap suc (count_all cs)

-- A weight that counts channels adds up over the families.
direction_total :
    (dir : Direction) (chs : List Channel) (w : FamilySummary → ℕ) (p : Channel → Bool)
    → ((f : Family) (cs : List Channel) → w (family_summary dir f cs) ≡ count_if p cs)
    → total w (direction_summary dir chs).families ≡ count_if p chs
unfolding direction_summary
direction_total dir chs w p e =
    total-summaries dir chs (families_of dir) w (count_if p) refl e ∙ families_split p dir chs

abbrev pub all_counts : Counts → ℕ
all_counts c = c.good_channels + (c.tolerated_channels + (c.warning_channels + c.critical_channels))

all_counts_lem :
    (dir : Direction) (f : Family) (cs : List Channel)
    → all_counts (family_summary dir f cs).counts ≡ count_if (λ c. true) cs
unfolding family_summary health_counts
all_counts_lem dir f cs = healths_split cs ∙ count_all cs

-- The families of a direction hold each of its channels exactly once: their counts add up to the number
-- of channels, the channels of any one health are those that the families count under it, and the four
-- counts of the families together leave no channel out.
pub direction_counts :
    (dir : Direction) (chs : List Channel) (h : Health)
    → (total (λ s. s.count) (direction_summary dir chs).families ≡ length chs)
      × (total (λ s. counted h s.counts) (direction_summary dir chs).families
          ≡ count_if (has h) chs)
      × (total (λ s. all_counts s.counts) (direction_summary dir chs).families ≡ length chs)
unfolding family_summary
direction_counts dir chs h = (
  direction_total dir chs (λ s. s.count) (λ c. true) (λ f cs. count_all cs) ∙ sym (count_all chs),
  direction_total dir chs (λ s. counted h s.counts) (has h) (λ f cs. counted_lem h cs),
  direction_total dir chs (λ s. all_counts s.counts) (λ c. true) (all_counts_lem dir)
      ∙ sym (count_all chs),
)
