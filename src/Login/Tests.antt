-- ===== src/Login/Tests.antt =====
-- Runs of the login limiter, and the theorems at concrete inputs.
use docsight.Prelude.{ℕ, ◌+◌, ◌-◌, ◌*◌, ◌^◌, ◌≤◌, ◌<◌, String, ◌≡◌, ◌≢◌, List, [], ◌∷◌, refl, arith}
use docsight.Prelude.Dict.{lookup, insert, erase}
use docsight.Login.{
  Policy, Attempts, prune_buckets, insert_by_stamp, oldest, drop_first, prune, bucket, retry_after,
  record_failure, reset,
}
use docsight.Login.Buckets.{IsValid, limiter-IsValid}
use docsight.Login.Lockout.{reset_forgets, retry_after_bound, fail_all, lockout_engages}

-- The defaults of the class, with room for two addresses.
abbrev policy : Policy
policy = record { max_attempts = 5; window = 900; lockout_base = 30; max_tracked_ips = 2 }

abbrev table : Attempts
table = ("10.0.0.1", 100 ∷ 130 ∷ []) ∷ ("10.0.0.2", 120 ∷ []) ∷ []

table-IsValid : IsValid policy table
unfolding lookup
table-IsValid = record { distinct = (refl, (refl, tt)); bounded = omega arith }

-- A third address pushes out the one that was quiet for longest.
evicts :
    record_failure policy 200 "10.0.0.3" table
    ≡ ("10.0.0.1", 100 ∷ 130 ∷ []) ∷ ("10.0.0.3", 200 ∷ []) ∷ []
unfolding record_failure prune prune_buckets insert_by_stamp oldest drop_first lookup insert erase
evicts = refl

limiter-IsValid_example :
    IsValid policy (prune policy 200 table)
    × IsValid policy (retry_after policy 200 "10.0.0.3" table).1
    × IsValid policy (record_failure policy 200 "10.0.0.3" table)
    × IsValid policy (reset "10.0.0.3" table)
limiter-IsValid_example = limiter-IsValid policy 200 "10.0.0.3" table table-IsValid

reset_forgets_test :
    ((retry_after policy 200 "10.0.0.1" (reset "10.0.0.1" table)).0 ≡ 0)
    × ((j : String) → j ≢ "10.0.0.1" → bucket j (reset "10.0.0.1" table) ≡ bucket j table)
reset_forgets_test = reset_forgets policy 200 "10.0.0.1" table table-IsValid (omega arith)

retry_after_bound_test : (retry_after policy 200 "10.0.0.1" table).0 ≤ 30 * 256
unfolding prune prune_buckets lookup
retry_after_bound_test = retry_after_bound policy 200 "10.0.0.1" table (omega arith)

abbrev failures : List ℕ
failures = 10 ∷ 20 ∷ 30 ∷ 40 ∷ 50 ∷ 60 ∷ 70 ∷ []

abbrev after_failures : Attempts
after_failures = fail_all policy "10.0.0.9" failures []

lockout_engages_example :
    (5 ≤ 7 → (retry_after policy 75 "10.0.0.9" after_failures).0 ≡ 30 * 2 ^ 2 + 70 - 75)
    × (7 < 5 → (retry_after policy 75 "10.0.0.9" after_failures).0 ≡ 0)
unfolding lookup
lockout_engages_example =
    lockout_engages policy 0 75 "10.0.0.9" failures []
      (record { distinct = tt; bounded = omega arith }) (omega arith) refl (omega arith)
      (omega arith)
