-- ===== src/Counters/Coverage.antt =====
-- app/error_counters.py: what the counts of `_coverage` add up to.
use docsight.Prelude.{
  All, Option-cases, inl, inr, subst, ℕ, ◌+◌, ◌*◌, ◌≤◌, ◌≡◌, String, none, some, List, [], ◌∷◌, map,
  length, count_if, arith, length-append,
}
use docsight.Prelude.Dict.{Dict}
use docsight.Counters.{
  ErrorCounterAggregate, CounterCoverage, Reading, has_corr, has_uncorr, is_comparable,
  is_unsupported, coverage, add_to, group, family_of, cover_group, aggregate, read_each,
  aggregate_error_counters, Channel,
}
use docsight.Values.{counter}

-- Between the five counts of a list of readings.
abbrev pub Partition : CounterCoverage → Type 0
Partition c =
    (c.comparable_channels + c.partial_channels + c.unsupported_channels ≡ c.total_channels)
    × (c.correctable_channels + c.uncorrectable_channels
        ≡ 2 * c.comparable_channels + c.partial_channels)

counts_lem :
    (rs : List Reading)
    → (count_if is_comparable rs + count_if is_unsupported rs ≤ length rs)
      × (count_if has_corr rs + count_if has_uncorr rs + count_if is_unsupported rs
          ≡ count_if is_comparable rs + length rs)
counts_lem [] = omega arith
counts_lem ((ch, none, none) ∷ rs) = let h = counts_lem rs in omega arith
counts_lem ((ch, none, some u) ∷ rs) = let h = counts_lem rs in omega arith
counts_lem ((ch, some c, none) ∷ rs) = let h = counts_lem rs in omega arith
counts_lem ((ch, some c, some u) ∷ rs) = let h = counts_lem rs in omega arith

coverage-Partition : (rs : List Reading) → Partition (coverage rs)
unfolding coverage
coverage-Partition rs = let h = counts_lem rs in (omega arith, omega arith)

-- The totals of the families.
abbrev pub sum_totals : Dict CounterCoverage → ℕ
sum_totals [] = 0
sum_totals ((k, c) ∷ d) = c.total_channels + sum_totals d

total_add_to :
    (k : String) (r : Reading) (d : Dict (List Reading))
    → sum_totals (map cover_group (add_to k r d)) ≡ 1 + sum_totals (map cover_group d)
unfolding add_to coverage
total_add_to k r [] = omega arith
total_add_to k r ((j, rs) ∷ d) =
    let rec = total_add_to k r d in ground (arith, rec, length-append rs (r ∷ []))

total_group :
    (rs : List Reading) (d : Dict (List Reading))
    → sum_totals (map cover_group (group rs d)) ≡ length rs + sum_totals (map cover_group d)
unfolding group
total_group [] d = omega arith
total_group (r ∷ rs) d =
    let d' = add_to (family_of r) r d in
    omega (arith, total_group rs d', total_add_to (family_of r) r d)

length-read_each :
    (chs : List Channel) {rs : List Reading} → read_each chs ≡ some rs → length rs ≡ length chs
unfolding read_each
length-read_each [] h = ground arith
length-read_each (ch ∷ chs) h = elim (Option-cases (counter ch.correctable_errors)) [
  | inl e ↦ ground (arith, e)
  | inr (c, e) ↦ elim (Option-cases (counter ch.uncorrectable_errors)) [
    | inl e' ↦ ground (arith, e, e')
    | inr (u, e') ↦ elim (Option-cases (read_each chs)) [
      | inl n ↦ ground (arith, e, e', n)
      | inr (rest, n) ↦ ground (arith, e, e', n, length-read_each chs n)
    ]
  ]
]

families-Partition : (d : Dict (List Reading)) → All (λ kc. Partition kc.1) (map cover_group d)
families-Partition [] = tt
families-Partition ((k, rs) ∷ d) = (coverage-Partition rs, families-Partition d)

-- When the counters of all channels can be read, the coverage of the aggregate counts every channel
-- once: comparable, partial and unsupported channels add up to the total, and the channels of the two
-- counters together are two for a comparable one and one for a partial one. The same holds in each
-- family, and the totals of the families add up to the number of channels.
pub aggregate-Partition :
    (chs : List Channel) {agg : ErrorCounterAggregate}
    → aggregate_error_counters chs ≡ some agg
    → (agg.counter_coverage.total_channels ≡ length chs)
      × Partition agg.counter_coverage
      × All (λ kc. Partition kc.1) agg.family_coverage
      × (sum_totals agg.family_coverage ≡ length chs)
unfolding aggregate_error_counters aggregate coverage
aggregate-Partition chs {agg} h = elim (Option-cases (read_each chs)) [
  | inl e ↦ ground (arith, e)
  | inr (rs, e) ↦
      let same : aggregate rs ≡ agg = ground (arith, e) in
      subst
        (λ a.
          (a.counter_coverage.total_channels ≡ length chs)
          × Partition a.counter_coverage
          × All (λ kc. Partition kc.1) a.family_coverage
          × (sum_totals a.family_coverage ≡ length chs))
        same
        (
          length-read_each chs e,
          coverage-Partition rs,
          families-Partition (group rs []),
          omega (arith, total_group rs [], length-read_each chs e),
        )
]
