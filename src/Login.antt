-- ===== src/Login.antt =====
-- app/runtime.py, `LoginRateLimiter`: login failures counted for each address.
-- Time is a natural number of the clock's own ticks, and so are the window and the lockout;
-- `now - stamp < window` is written `now < stamp + window`. The lock makes each method one step.
pub mod Buckets
pub mod Lockout
mod Tests
use docsight.Prelude.{
  ℕ, zero, suc, ◌+◌, ◌-◌, ◌*◌, ◌^◌, min, String, Bool, true, false, Option, none, some, List, [],
  ◌∷◌, ◌++◌, length, keep, last?, ltb, leb, if◌then◌else◌,
}
use docsight.Prelude.Dict.{Dict, lookup, insert, erase}

pub record Policy : Type 0 where
  pub max_attempts : ℕ
  pub window : ℕ
  pub lockout_base : ℕ
  pub max_tracked_ips : ℕ

-- The stamps of the failures of each address, oldest first.
abbrev pub Attempts : Type 0
Attempts = Dict (List ℕ)

abbrev pub fresh : ℕ → ℕ → ℕ → Bool
fresh window now stamp = ltb now (stamp + window)

-- The first loop of `_prune_locked`: each bucket keeps its current stamps, an empty one goes.
pub prune_buckets : ℕ → ℕ → Attempts → Attempts
prune_buckets window now [] = []
prune_buckets window now ((ip, stamps) ∷ d) =
    let rest = prune_buckets window now d in
    elim (keep (fresh window now) stamps) [ [] ↦ rest | s ∷ ss ↦ (ip, s ∷ ss) ∷ rest ]

-- The key of the `sorted` call.
abbrev pub last_stamp : List ℕ → ℕ
last_stamp stamps = elim (last? stamps) [ none ↦ 0 | some s ↦ s ]

pub insert_by_stamp : String × List ℕ → Attempts → Attempts
insert_by_stamp e [] = e ∷ []
insert_by_stamp e (f ∷ d) =
    if leb (last_stamp e.1) (last_stamp f.1) then e ∷ f ∷ d else f ∷ insert_by_stamp e d

-- A stable sort, the longest untouched buckets first.
pub oldest : Attempts → Attempts
oldest [] = []
oldest (e ∷ d) = insert_by_stamp e (oldest d)

-- `for ip in oldest[:n]: self._attempts.pop(ip, None)`
pub drop_first : ℕ → Attempts → Attempts → Attempts
drop_first zero order d = d
drop_first (suc n) [] d = d
drop_first (suc n) (e ∷ order) d = drop_first n order (erase e.0 d)

-- `_prune_locked`, and `prune` with its lock taken
pub prune : Policy → ℕ → Attempts → Attempts
unfolding prune_buckets
prune p now d =
    let current = prune_buckets p.window now d in
    if ltb p.max_tracked_ips (length current)
    then drop_first (length current - p.max_tracked_ips) (oldest current) current
    else current

abbrev pub bucket : String → Attempts → List ℕ
bucket ip d = elim (lookup ip d) [ none ↦ [] | some stamps ↦ stamps ]

-- `max(0, lockout - (now - attempts[-1]))`, for at least `max_attempts` failures. It is read for
-- policies with `max_attempts` of at least 1, as the program has them: with 0 and no failure the code's
-- `attempts[-1]` raises an `IndexError`, and here the last stamp counts as 0.
abbrev pub lockout_left : Policy → ℕ → List ℕ → ℕ
lockout_left p now stamps =
    if ltb (length stamps) p.max_attempts
    then 0
    else p.lockout_base * 2 ^ min (length stamps - p.max_attempts) 8 + last_stamp stamps - now

pub retry_after : Policy → ℕ → String → Attempts → ℕ × Attempts
retry_after p now ip d = let d' = prune p now d in (lockout_left p now (bucket ip d'), d')

pub record_failure : Policy → ℕ → String → Attempts → Attempts
record_failure p now ip d =
    let d' = prune p now d in prune p now (insert ip (bucket ip d' ++ now ∷ []) d')

pub reset : String → Attempts → Attempts
reset ip d = erase ip d
