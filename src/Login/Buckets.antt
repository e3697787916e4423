-- ===== src/Login/Buckets.antt =====
-- The table of `LoginRateLimiter`: its addresses stay distinct, its buckets current, its size bounded.
use docsight.Prelude.{
  ℕ, zero, suc, ◌+◌, ◌-◌, ◌≤◌, ◌<◌, String, str_eq, eq_iff, ◌≡◌, ◌≢◌, refl, Option, none, some,
  List, [], ◌∷◌, ◌++◌, length, keep, if◌then◌else◌, arith, ◌∙◌,
}
use docsight.Prelude.Dict.{lookup, insert, erase, lookup-insert, lookup-erase}
use docsight.Login.{
  Policy, Attempts, fresh, prune_buckets, insert_by_stamp, oldest, drop_first, prune, bucket,
  retry_after, record_failure, reset,
}

-- No address is listed twice.
abbrev pub Unique : Attempts → Type 0
Unique [] = Unit
Unique ((ip, stamps) ∷ d) = (lookup ip d ≡ none) × Unique d

-- What pruning leaves of a bucket.
abbrev pub current : ℕ → ℕ → Option (List ℕ) → Option (List ℕ)
current window now none = none
current window now (some stamps) = elim (keep (fresh window now) stamps) [
  | [] ↦ none
  | s ∷ ss ↦ some (s ∷ ss)
]

pub lookup-prune_buckets :
    (window now : ℕ) (ip : String) (d : Attempts)
    → Unique d
    → lookup ip (prune_buckets window now d) ≡ current window now (lookup ip d)
unfolding prune_buckets lookup
lookup-prune_buckets window now ip [] u = refl
lookup-prune_buckets window now ip ((j, stamps) ∷ d) u =
    ground (arith, eq_iff j ip, lookup-prune_buckets window now ip d u.1)

Unique-prune_buckets :
    (window now : ℕ) (d : Attempts) → Unique d → Unique (prune_buckets window now d)
unfolding prune_buckets lookup
Unique-prune_buckets window now [] u = tt
Unique-prune_buckets window now ((j, stamps) ∷ d) u =
    ground (arith, Unique-prune_buckets window now d u.1, lookup-prune_buckets window now j d u.1)

pub Unique-erase : (ip : String) (d : Attempts) → Unique d → Unique (erase ip d)
unfolding erase
Unique-erase ip [] u = tt
Unique-erase ip ((j, stamps) ∷ d) u =
    ground (arith, eq_iff j ip, eq_iff ip j, lookup-erase ip j d, Unique-erase ip d u.1)

pub Unique-insert : (ip : String) (v : List ℕ) (d : Attempts) → Unique d → Unique (insert ip v d)
unfolding insert lookup
Unique-insert ip v [] u = (refl, tt)
Unique-insert ip v ((j, stamps) ∷ d) u =
    ground (arith, eq_iff j ip, eq_iff ip j, lookup-insert ip j v d, Unique-insert ip v d u.1)

length-erase-le : (ip : String) (d : Attempts) → length (erase ip d) ≤ length d
unfolding erase
length-erase-le ip [] = omega arith
length-erase-le ip ((j, stamps) ∷ d) = ground (arith, length-erase-le ip d)

length-erase-lt : (ip : String) (d : Attempts) → lookup ip d ≢ none → length (erase ip d) < length d
unfolding erase lookup
length-erase-lt ip [] h = absurd (h refl)
length-erase-lt ip ((j, stamps) ∷ d) h = ground (arith, length-erase-le ip d, length-erase-lt ip d)

lookup-insert_by_stamp :
    (ip : String) (e : String × List ℕ) (d : Attempts)
    → lookup e.0 d ≡ none
    → lookup ip (insert_by_stamp e d) ≡ (if str_eq e.0 ip then some e.1 else lookup ip d)
unfolding insert_by_stamp lookup
lookup-insert_by_stamp ip e [] h = refl
lookup-insert_by_stamp ip e ((j, stamps) ∷ d) h =
    ground (arith, eq_iff j ip, eq_iff e.0 ip, eq_iff j e.0, lookup-insert_by_stamp ip e d)

Unique-insert_by_stamp :
    (e : String × List ℕ) (d : Attempts)
    → lookup e.0 d ≡ none
    → Unique d
    → Unique (insert_by_stamp e d)
unfolding insert_by_stamp lookup
Unique-insert_by_stamp e [] h u = (refl, tt)
Unique-insert_by_stamp e ((j, stamps) ∷ d) h u =
    ground
      (arith, eq_iff j e.0, eq_iff e.0 j, lookup-insert_by_stamp j e d, Unique-insert_by_stamp e d)

-- Sorting rearranges the entries: it finds the same bucket for every address.
lookup-oldest : (ip : String) (d : Attempts) → Unique d → lookup ip (oldest d) ≡ lookup ip d
unfolding oldest lookup
lookup-oldest ip [] u = refl
lookup-oldest ip ((j, stamps) ∷ d) u = ground (
  arith,
  lookup-insert_by_stamp ip (j, stamps) (oldest d),
  lookup-oldest ip d u.1,
  lookup-oldest j d u.1,
)

Unique-oldest : (d : Attempts) → Unique d → Unique (oldest d)
unfolding oldest
Unique-oldest [] u = tt
Unique-oldest ((j, stamps) ∷ d) u =
    Unique-insert_by_stamp (j, stamps) (oldest d) (lookup-oldest j d u.1 ∙ u.0)
      (Unique-oldest d u.1)

length-insert_by_stamp :
    (e : String × List ℕ) (d : Attempts) → length (insert_by_stamp e d) ≡ suc (length d)
unfolding insert_by_stamp
length-insert_by_stamp e [] = refl
length-insert_by_stamp e (f ∷ d) = ground (arith, length-insert_by_stamp e d)

length-oldest : (d : Attempts) → length (oldest d) ≡ length d
unfolding oldest
length-oldest [] = refl
length-oldest (e ∷ d) = omega (arith, length-insert_by_stamp e (oldest d), length-oldest d)

-- Every address of `order` has a bucket in `d`.
abbrev Within : Attempts → Attempts → Type 0
Within [] d = Unit
Within (e ∷ order) d = (lookup e.0 d ≢ none) × Within order d

Within-erase :
    (ip : String) (order d : Attempts)
    → lookup ip order ≡ none
    → Within order d
    → Within order (erase ip d)
unfolding lookup
Within-erase ip [] d h w = tt
Within-erase ip ((j, stamps) ∷ order) d h w =
    ground (arith, eq_iff j ip, eq_iff ip j, lookup-erase ip j d, Within-erase ip order d)

Within-mono :
    (order d d' : Attempts)
    → ((ip : String) → lookup ip d ≢ none → lookup ip d' ≢ none)
    → Within order d
    → Within order d'
Within-mono [] d d' f w = tt
Within-mono (e ∷ order) d d' f w = (f e.0 w.0, Within-mono order d d' f w.1)

Within-self : (d : Attempts) → Unique d → Within d d
unfolding lookup
Within-self [] u = tt
Within-self ((j, stamps) ∷ d) u = (
  ground (arith, eq_iff j j),
  Within-mono d d ((j, stamps) ∷ d) (λ ip h. ground (arith, eq_iff j ip)) (Within-self d u.1),
)

Within-oldest : (d : Attempts) → Unique d → Within (oldest d) d
Within-oldest d u =
    Within-mono (oldest d) (oldest d) d (λ ip h e. h (lookup-oldest ip d u ∙ e))
      (Within-self (oldest d) (Unique-oldest d u))

-- Dropping the buckets of `n` distinct addresses of the table leaves `n` fewer.
length-drop_first :
    (n : ℕ) (order d : Attempts)
    → Unique order
    → Within order d
    → n ≤ length order
    → length (drop_first n order d) + n ≤ length d
unfolding drop_first
length-drop_first zero order d u w h = omega arith
length-drop_first (suc n) [] d u w h = absurd (omega arith)
length-drop_first (suc n) (e ∷ order) d u w h = omega (
  arith,
  length-erase-lt e.0 d w.0,
  length-drop_first n order (erase e.0 d) u.1 (Within-erase e.0 order d u.0 w.1) (omega arith),
)

Unique-drop_first : (n : ℕ) (order d : Attempts) → Unique d → Unique (drop_first n order d)
unfolding drop_first
Unique-drop_first zero order d u = u
Unique-drop_first (suc n) [] d u = u
Unique-drop_first (suc n) (e ∷ order) d u =
    Unique-drop_first n order (erase e.0 d) (Unique-erase e.0 d u)

pub Unique-prune : (p : Policy) (now : ℕ) (d : Attempts) → Unique d → Unique (prune p now d)
unfolding prune
Unique-prune p now d u =
    let c = prune_buckets p.window now d in
    let uc = Unique-prune_buckets p.window now d u in
    ground (arith, Unique-drop_first (length c - p.max_tracked_ips) (oldest c) c uc, uc)

pub length-prune-le :
    (p : Policy) (now : ℕ) (d : Attempts) → Unique d → length (prune p now d) ≤ p.max_tracked_ips
unfolding prune
length-prune-le p now d u =
    let c = prune_buckets p.window now d in
    let uc = Unique-prune_buckets p.window now d u in
    ground (
      arith,
      length-drop_first (length c - p.max_tracked_ips) (oldest c) c (Unique-oldest c uc)
          (Within-oldest c uc),
      length-oldest c,
    )

-- The invariant of the limiter: distinct addresses, at most `max_tracked_ips` of them.
pub record IsValid (p : Policy) (d : Attempts) : Type 0 where
  pub distinct : Unique d
  pub bounded : length d ≤ p.max_tracked_ips

prune-IsValid : (p : Policy) (now : ℕ) (d : Attempts) → Unique d → IsValid p (prune p now d)
prune-IsValid p now d u = record {
  distinct = Unique-prune p now d u;
  bounded = length-prune-le p now d u;
}

-- Every method keeps the addresses distinct and at most `max_tracked_ips` of them in the table,
-- whatever the readings of the clock.
pub limiter-IsValid :
    (p : Policy) (now : ℕ) (ip : String) (d : Attempts)
    → IsValid p d
    → IsValid p (prune p now d)
      × IsValid p (retry_after p now ip d).1
      × IsValid p (record_failure p now ip d)
      × IsValid p (reset ip d)
unfolding retry_after record_failure reset
limiter-IsValid p now ip d v =
    let d' = prune p now d in
    let u' = Unique-prune p now d v.distinct in
    (
      prune-IsValid p now d v.distinct,
      prune-IsValid p now d v.distinct,
      prune-IsValid p now (insert ip (bucket ip d' ++ now ∷ []) d') (Unique-insert ip _ d' u'),
      record {
        distinct = Unique-erase ip d v.distinct;
        bounded = omega (arith, length-erase-le ip d, v.bounded);
      },
    )
