-- ===== src/Login/Lockout.antt =====
-- When `LoginRateLimiter` locks an address out, for how long, and what it leaves alone.
use mathlib.Core.List.{append-nil, append_assoc}
use native.Mathlib.Nat.{pow-le-pow_right}
use docsight.Prelude.{
  ℕ, ◌+◌, ◌-◌, ◌*◌, ◌^◌, min, ◌≤◌, ◌<◌, String, eq_iff, ◌≡◌, ◌≢◌, refl, List, [], ◌∷◌, ◌++◌, length,
  keep, All, All-append, arith, inl, inr, Option-cases, ◌∙◌, sym, ap,
}
use docsight.Prelude.Dict.{
  lookup, insert, erase, lookup-insert, lookup-erase, length-insert_new, length-insert_old,
}
use docsight.Login.{
  Policy, Attempts, fresh, prune_buckets, last_stamp, prune, bucket, lockout_left, retry_after,
  record_failure, reset,
}
use docsight.Login.Buckets.{IsValid, Unique-insert, lookup-prune_buckets, limiter-IsValid}

length-prune_buckets-le :
    (window now : ℕ) (d : Attempts) → length (prune_buckets window now d) ≤ length d
unfolding prune_buckets
length-prune_buckets-le window now [] = omega arith
length-prune_buckets-le window now (e ∷ d) = ground (arith, length-prune_buckets-le window now d)

-- A table that is not too long loses only expired stamps.
prune-eq :
    (p : Policy) (now : ℕ) (d : Attempts)
    → length d ≤ p.max_tracked_ips
    → prune p now d ≡ prune_buckets p.window now d
unfolding prune
prune-eq p now d h = ground (arith, length-prune_buckets-le p.window now d)

bucket-prune :
    (p : Policy) (now : ℕ) (ip : String) (d : Attempts)
    → IsValid p d
    → bucket ip (prune p now d) ≡ keep (fresh p.window now) (bucket ip d)
bucket-prune p now ip d v =
    rw (prune-eq p now d v.bounded)
      (ground (arith, lookup-prune_buckets p.window now ip d v.distinct))

-- Forgetting an address ends its lockout, and keeps the failures of every other address.
pub reset_forgets :
    (p : Policy) (now : ℕ) (ip : String) (d : Attempts)
    → IsValid p d
    → 0 < p.max_attempts
    → ((retry_after p now ip (reset ip d)).0 ≡ 0)
      × ((j : String) → j ≢ ip → bucket j (reset ip d) ≡ bucket j d)
unfolding retry_after reset
reset_forgets p now ip d v h = (
  ground (
    arith,
    bucket-prune p now ip (erase ip d) (unfold reset in (limiter-IsValid p now ip d v).3),
    lookup-erase ip ip d,
    eq_iff ip ip,
  ),
  λ j ne. ground (arith, lookup-erase ip j d, eq_iff ip j),
)

mul_bound : (b x : ℕ) → x ≤ 256 → b * x ≤ b * 256
mul_bound b x h = grind arith

doubled_bound : (b n : ℕ) → b * 2 ^ min n 8 ≤ b * 256
doubled_bound b n =
    mul_bound b (2 ^ min n 8)
      (pow-le-pow_right {n = 2} (omega arith) {i = min n 8} {j = 8} (omega arith))

lockout_left-le :
    (p : Policy) (now : ℕ) (stamps : List ℕ)
    → last_stamp stamps ≤ now
    → lockout_left p now stamps ≤ p.lockout_base * 256
lockout_left-le p now stamps h =
    ground (arith, doubled_bound p.lockout_base (length stamps - p.max_attempts))

-- Waiting times are bounded by the base lockout doubled eight times, for a clock that is not behind
-- the last stamp of the address.
pub retry_after_bound :
    (p : Policy) (now : ℕ) (ip : String) (d : Attempts)
    → last_stamp (bucket ip (prune p now d)) ≤ now
    → (retry_after p now ip d).0 ≤ p.lockout_base * 256
unfolding retry_after
retry_after_bound p now ip d h = lockout_left-le p now (bucket ip (prune p now d)) h

keep-All :
    (window now : ℕ) (stamps : List ℕ)
    → All (λ s. now < s + window) stamps
    → keep (fresh window now) stamps ≡ stamps
keep-All window now [] h = refl
keep-All window now (s ∷ stamps) h = ground (arith, keep-All window now stamps h.1)

-- The address has a stamp, or there is room for one more.
abbrev pub HasRoom : Policy → String → Attempts → Type 0
HasRoom p ip d = bucket ip d ≡ [] → length d < p.max_tracked_ips

length-insert-le :
    (p : Policy) (ip : String) (v : List ℕ) (d : Attempts)
    → length d ≤ p.max_tracked_ips
    → HasRoom p ip d
    → length (insert ip v d) ≤ p.max_tracked_ips
length-insert-le p ip v d h room = elim (Option-cases (lookup ip d)) [
  | inl e ↦ omega (arith, length-insert_new ip v d e, room (ground arith))
  | inr (w, e) ↦ omega (arith, length-insert_old ip v d e)
]

bucket-insert_self : (ip : String) (v : List ℕ) (d : Attempts) → bucket ip (insert ip v d) ≡ v
bucket-insert_self ip v d = ground (arith, lookup-insert ip ip v d, eq_iff ip ip)

-- A failure is added to the stamps of its address while these are all current.
bucket-record_failure :
    (p : Policy) (now : ℕ) (ip : String) (d : Attempts)
    → IsValid p d
    → HasRoom p ip d
    → 0 < p.window
    → All (λ s. now < s + p.window) (bucket ip d)
    → bucket ip (record_failure p now ip d) ≡ bucket ip d ++ now ∷ []
unfolding record_failure
bucket-record_failure p now ip d v room w h =
    let b = bucket ip d in
    let d' = prune p now d in
    let v' = (limiter-IsValid p now ip d v).0 in
    let same : bucket ip d' ≡ b = bucket-prune p now ip d v ∙ keep-All p.window now b h in
    let shrink : length d' ≤ length d =
      rw (prune-eq p now d v.bounded) (length-prune_buckets-le p.window now d) in
    let fits =
      length-insert-le p ip (bucket ip d' ++ now ∷ []) d' v'.bounded
        (λ e. omega (arith, room (sym same ∙ e), shrink)) in
    let v'' : IsValid p (insert ip (bucket ip d' ++ now ∷ []) d') = record {
      distinct = Unique-insert ip (bucket ip d' ++ now ∷ []) d' v'.distinct;
      bounded = fits;
    } in
    bucket-prune p now ip (insert ip (bucket ip d' ++ now ∷ []) d') v''
    ∙ ap (keep (fresh p.window now))
        (bucket-insert_self ip (bucket ip d' ++ now ∷ []) d' ∙ ap (λ l. l ++ now ∷ []) same)
    ∙ keep-All p.window now (b ++ now ∷ [])
        (All-append (λ s. now < s + p.window) b (now ∷ []) h (omega arith, tt))

append-ne-nil : (xs : List ℕ) (x : ℕ) → xs ++ x ∷ [] ≢ []
append-ne-nil [] x e = cc
append-ne-nil (y ∷ xs) x e = cc

-- Failures of one address, one after the other.
unfoldable pub fail_all : Policy → String → List ℕ → Attempts → Attempts
unfolding record_failure
fail_all p ip [] d = d
fail_all p ip (t ∷ ts) d = fail_all p ip ts (record_failure p t ip d)

-- All of these stamps lie in one stretch of time that is shorter than the window.
abbrev pub InStretch : ℕ → ℕ → List ℕ → Type 0
InStretch lo window ts = All (λ t. (lo ≤ t) × (t < lo + window)) ts

stretch_fresh :
    (lo window now : ℕ) (ts : List ℕ)
    → now < lo + window
    → InStretch lo window ts
    → All (λ s. now < s + window) ts
stretch_fresh lo window now [] h a = tt
stretch_fresh lo window now (t ∷ ts) h a = (omega arith, stretch_fresh lo window now ts h a.1)

bucket-fail_all :
    (p : Policy) (lo : ℕ) (ip : String) (ts : List ℕ) (d : Attempts)
    → IsValid p d
    → HasRoom p ip d
    → InStretch lo p.window (bucket ip d)
    → InStretch lo p.window ts
    → (bucket ip (fail_all p ip ts d) ≡ bucket ip d ++ ts) × IsValid p (fail_all p ip ts d)
unfolding fail_all
bucket-fail_all p lo ip [] d v room hb ht = (sym (append-nil (bucket ip d)), v)
bucket-fail_all p lo ip (t ∷ ts) d v room hb ht =
    let fresh_at = stretch_fresh lo p.window t (bucket ip d) ht.0.1 hb in
    let step = bucket-record_failure p t ip d v room (omega arith) fresh_at in
    let d' = record_failure p t ip d in
    let room' : HasRoom p ip d' = λ e. absurd (append-ne-nil (bucket ip d) t (sym step ∙ e)) in
    let hb' : InStretch lo p.window (bucket ip d') =
      rw step
        (All-append (λ s. (lo ≤ s) × (s < lo + p.window)) (bucket ip d) (t ∷ []) hb (ht.0, tt)) in
    let rest = bucket-fail_all p lo ip ts d' (limiter-IsValid p t ip d v).2 room' hb' ht.1 in
    (rest.0 ∙ ap (λ l. l ++ ts) step ∙ append_assoc (bucket ip d) (t ∷ []) ts, rest.1)

-- An address that fails at the times `ts`, all in one stretch shorter than the window, from a table
-- with room and no earlier failure of it, is locked out from the `max_attempts`-th failure on: the
-- wait is counted from the last failure, the base doubled for each failure in excess, eight times at
-- most. Before that it need not wait.
pub lockout_engages :
    (p : Policy) (lo now : ℕ) (ip : String) (ts : List ℕ) (d : Attempts)
    → IsValid p d
    → length d < p.max_tracked_ips
    → bucket ip d ≡ []
    → InStretch lo p.window ts
    → now < lo + p.window
    → let wait = (retry_after p now ip (fail_all p ip ts d)).0 in
      (p.max_attempts ≤ length ts
        → wait ≡ p.lockout_base * 2 ^ min (length ts - p.max_attempts) 8 + last_stamp ts - now)
      × (length ts < p.max_attempts → wait ≡ 0)
unfolding retry_after
lockout_engages p lo now ip ts d v room e ht h =
    let (got, v') = bucket-fail_all p lo ip ts d v (λ _. room) (rw e tt) ht in
    let seen : bucket ip (prune p now (fail_all p ip ts d)) ≡ ts =
      bucket-prune p now ip (fail_all p ip ts d) v'
      ∙ ap (keep (fresh p.window now)) (got ∙ ap (λ l. l ++ ts) e)
      ∙ keep-All p.window now ts (stretch_fresh lo p.window now ts h ht) in
    rw seen (ground arith)
