-- ===== src/Sharded/Pools.antt =====
-- The pools of sharded.go, which BulkUpdate takes its scratch slices from. A sync.Pool may drop what was
-- put into it, and hands out any of it or a new item; a slice from a pool shows what its array holds.
use smt.Prelude.{
  ℕ, zero, suc, ◌+◌, ◌*◌, ◌/◌, ◌≤◌, ◌≡◌, refl, sym, ◌∙◌, Bool-cases, true, inl, inr, Option, none,
  some, List, [], ◌∷◌, ◌++◌, length, length-replicate, length-take, take, replicate, leb,
  if◌then◌else◌, arith, All,
}
use smt.Res.{Res, ok, panic, Returns}
use smt.Res
use smt.Bytes.{Bytes}

pub record ShardScratch : Type 0 where
  pub k : List (List Bytes)
  pub v : List (List Bytes)

-- `New` of the pool for `n` shards.
unfoldable pub new_shard_scratch : ℕ → ShardScratch
new_shard_scratch n = record { k = replicate n []; v = replicate n [] }

-- The loop over the first slice: both buckets are cut to length 0.
unfoldable pub reset_buckets :
    List (List Bytes) → List (List Bytes) → Res (List (List Bytes) × List (List Bytes))
reset_buckets [] bucket_v = ok ([], bucket_v)
reset_buckets (b ∷ bucket_k) [] = panic
reset_buckets (b ∷ bucket_k) (c ∷ bucket_v) =
    Res.◌>>=◌ (reset_buckets bucket_k bucket_v) λ rest. ok ([] ∷ rest.0, [] ∷ rest.1)

unfoldable pub put_shard_scratch :
    List (List Bytes) → List (List Bytes) → List ShardScratch → Res (List ShardScratch)
unfolding reset_buckets
put_shard_scratch bucket_k bucket_v pool =
    Res.◌>>=◌ (reset_buckets bucket_k bucket_v) λ b. ok (record { k = b.0; v = b.1 } ∷ pool)

-- What getShardScratch may return, with the pool after it.
pub data Gets (n : ℕ) : List ShardScratch → ShardScratch → List ShardScratch → Type 0 where
  made : {pool : List ShardScratch} → Gets n pool (new_shard_scratch n) pool
  reused :
      (front back : List ShardScratch) {s : ShardScratch}
      → Gets n (front ++ s ∷ back) s (front ++ back)

-- The states of the pool for `n` shards: buckets that come back are those of `n` shards.
pub data Pooled (n : ℕ) : List ShardScratch → Type 0 where
  at_first : Pooled n []
  taken :
      {pool pool' : List ShardScratch} {s : ShardScratch}
      → Pooled n pool
      → Gets n pool s pool'
      → Pooled n pool'
  returned :
      {pool pool' : List ShardScratch} (bucket_k bucket_v : List (List Bytes))
      → Pooled n pool
      → length bucket_k ≡ n
      → length bucket_v ≡ n
      → put_shard_scratch bucket_k bucket_v pool ≡ ok pool'
      → Pooled n pool'

reset_buckets-replicate :
    (n : ℕ) (bucket_k bucket_v : List (List Bytes))
    → length bucket_k ≡ n
    → length bucket_v ≡ n
    → reset_buckets bucket_k bucket_v ≡ ok (replicate n [], replicate n [])
unfolding reset_buckets
reset_buckets-replicate zero [] [] ek ev = refl
reset_buckets-replicate zero [] (c ∷ bv) ek ev = absurd (omega (arith, ev))
reset_buckets-replicate zero (b ∷ bk) bv ek ev = absurd (omega (arith, ek))
reset_buckets-replicate (suc n) [] bv ek ev = absurd (omega (arith, ek))
reset_buckets-replicate (suc n) (b ∷ bk) [] ek ev = absurd (omega (arith, ev))
reset_buckets-replicate (suc n) (b ∷ bk) (c ∷ bv) ek ev =
    rw (reset_buckets-replicate n bk bv (omega (arith, ek)) (omega (arith, ev))) refl

put_shard_scratch-new :
    (n : ℕ) (bucket_k bucket_v : List (List Bytes)) (pool : List ShardScratch)
    → length bucket_k ≡ n
    → length bucket_v ≡ n
    → put_shard_scratch bucket_k bucket_v pool ≡ ok (new_shard_scratch n ∷ pool)
unfolding put_shard_scratch new_shard_scratch
put_shard_scratch-new n bk bv pool ek ev = rw (reset_buckets-replicate n bk bv ek ev) refl

All-remove :
    (n : ℕ) (front back : List ShardScratch) (s : ShardScratch)
    → All (λ x. x ≡ new_shard_scratch n) (front ++ s ∷ back)
    → (s ≡ new_shard_scratch n) × All (λ x. x ≡ new_shard_scratch n) (front ++ back)
All-remove n [] back s all = all
All-remove n (x ∷ front) back s (e, all) =
    let (own, rest) = All-remove n front back s all in (own, (e, rest))

got-new :
    {n : ℕ} {pool pool' : List ShardScratch} {s : ShardScratch}
    → Gets n pool s pool'
    → All (λ x. x ≡ new_shard_scratch n) pool
    → (s ≡ new_shard_scratch n) × All (λ x. x ≡ new_shard_scratch n) pool'
got-new made all = (refl, all)
got-new {n} (reused front back {s = s}) all = All-remove n front back s all

Pooled-All :
    {n : ℕ} {pool : List ShardScratch} → Pooled n pool → All (λ x. x ≡ new_shard_scratch n) pool
Pooled-All at_first = tt
Pooled-All (taken before gets) = (got-new gets (Pooled-All before)).1
Pooled-All {n} (returned {pool = pool} {pool' = pool'} bk bv before ek ev run) =
    let same : pool' ≡ new_shard_scratch n ∷ pool =
      ok-inj (sym run ∙ put_shard_scratch-new n bk bv pool ek ev) in
    rw same (refl, Pooled-All before)
  where
    ok-inj : {a b : List ShardScratch} → ◌≡◌ {A = Res (List ShardScratch)} (ok a) (ok b) → a ≡ b
    ok-inj e = cc

-- In every state of the pool for `n` shards, what getShardScratch returns has `n` empty buckets for keys
-- and `n` for values, as new ones have; and putShardScratch takes back any buckets of `n` shards without
-- a panic.
pub Pooled-new :
    (n : ℕ) (pool : List ShardScratch)
    → Pooled n pool
    → ((s : ShardScratch) (pool' : List ShardScratch)
        → Gets n pool s pool'
        → s ≡ new_shard_scratch n)
      × ((bucket_k bucket_v : List (List Bytes))
          → length bucket_k ≡ n
          → length bucket_v ≡ n
          → Returns (put_shard_scratch bucket_k bucket_v pool) (Pooled n))
Pooled-new n pool state = (
  λ s pool' gets. (got-new gets (Pooled-All state)).0,
  λ bk bv ek ev.
      let run = put_shard_scratch-new n bk bv pool ek ev in
      (_, run, returned bk bv state ek ev run),
)

-- getShardIdxBuf for `n` keys: the array of the pooled slice if it is large enough, or a new one, rounded
-- up to a multiple of 4096.
unfoldable pub get_shard_idx_buf : Option (List ℕ) → ℕ → List ℕ
get_shard_idx_buf pooled n =
    let fresh = replicate ((n + 4095) / 4096 * 4096) 0 in
    elim pooled [ none ↦ fresh | some buf ↦ if leb n (length buf) then buf else fresh ]

-- A slice of the first `n` entries of an array.
unfoldable pub first_entries : List ℕ → ℕ → Res (List ℕ)
first_entries buf n = if leb n (length buf) then ok (take n buf) else panic

enough-fresh : (n : ℕ) → leb n (length (replicate {A = ℕ} ((n + 4095) / 4096 * 4096) 0)) ≡ true
enough-fresh n =
    let size = length-replicate {A = ℕ} ((n + 4095) / 4096 * 4096) 0 in
    let rounded : n ≤ (n + 4095) / 4096 * 4096 = omega arith in ground (arith, size, rounded)

first_entries-enough :
    (buf : List ℕ) (n : ℕ)
    → leb n (length buf) ≡ true
    → Returns (first_entries buf n) λ idxs. length idxs ≡ n
unfolding first_entries
first_entries-enough buf n e = (take n buf, rw e refl, length-take n buf (ground (arith, e)))

-- Whatever slice the pool holds, BulkUpdate's buffer for `n` keys is cut from it without a panic and has
-- `n` entries.
pub first_entries-get_shard_idx_buf :
    (pooled : Option (List ℕ)) (n : ℕ)
    → Returns (first_entries (get_shard_idx_buf pooled n) n) λ idxs. length idxs ≡ n
unfolding get_shard_idx_buf
first_entries-get_shard_idx_buf none n = first_entries-enough _ n (enough-fresh n)
first_entries-get_shard_idx_buf (some buf) n = elim (Bool-cases (leb n (length buf))) [
  | inl e ↦ rw e (first_entries-enough buf n e)
  | inr e ↦ rw e (first_entries-enough _ n (enough-fresh n))
]
