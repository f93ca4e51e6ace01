-- ===== src/Sharded/Routing.antt =====
-- NewShardedSMT and shardOf of sharded.go: every key is routed to a shard that is there.
use smt.Prelude.{ℕ, zero, suc, ◌-◌, ◌/◌, ◌^◌, ◌≤◌, ◌<◌, ◌≡◌, refl, ap, [], ◌∷◌, length, arith, All}
use smt.Res.{ok, Returns, ◌>>=◌}
use smt.Bytes.{Bytes, IsByte, index}
use smt.TreeHasher.{Hasher}
use smt.Sharded.{ShardedSmt, count_bits, new_shards, new_sharded_smt, shard_of}

pub shift_lt : (k b : ℕ) → k ≤ 8 → b < 256 → b / 2 ^ (8 - k) < 2 ^ k
shift_lt zero b le lt = omega arith
shift_lt (suc zero) b le lt = omega arith
shift_lt (suc (suc zero)) b le lt = omega arith
shift_lt (suc (suc (suc zero))) b le lt = omega arith
shift_lt (suc (suc (suc (suc zero)))) b le lt = omega arith
shift_lt (suc (suc (suc (suc (suc zero))))) b le lt = omega arith
shift_lt (suc (suc (suc (suc (suc (suc zero)))))) b le lt = omega arith
shift_lt (suc (suc (suc (suc (suc (suc (suc zero))))))) b le lt = omega arith
shift_lt (suc (suc (suc (suc (suc (suc (suc (suc zero)))))))) b le lt = omega arith
shift_lt (suc (suc (suc (suc (suc (suc (suc (suc (suc k))))))))) b le lt = absurd (omega arith)

-- The shard of a digest's first byte.
shard_in_range :
    (k : ℕ) (d : Bytes)
    → k ≤ 8
    → length d ≡ 32
    → All IsByte d
    → Returns (index d 0 >>= λ b. ok (b / 2 ^ (8 - k))) λ idx. idx < 2 ^ k
unfolding index
shard_in_range k [] le size bytes = absurd (omega arith)
shard_in_range k (b ∷ d) le size bytes = (b / 2 ^ (8 - k), refl, shift_lt k b le bytes.0)

module _ ⦃h : Hasher⦄ {N V : Type 0} (mapstore_factory : ℕ → N × V) where
  pub length-new_shards : (n i : ℕ) → length (new_shards n i mapstore_factory) ≡ n
  unfolding new_shards
  length-new_shards zero i = refl
  length-new_shards (suc n) i = ap suc (length-new_shards n (suc i))

  abbrev pub made : ℕ → ShardedSmt N V
  made k = record { shards = new_shards (2 ^ k) 0 mapstore_factory; shard_bits = k }

  pub new_sharded_smt-made :
      (k : ℕ) → k ≤ 8 → new_sharded_smt (2 ^ k) mapstore_factory ≡ ok (made k)
  unfolding new_sharded_smt count_bits
  new_sharded_smt-made zero le = refl
  new_sharded_smt-made (suc zero) le = refl
  new_sharded_smt-made (suc (suc zero)) le = refl
  new_sharded_smt-made (suc (suc (suc zero))) le = refl
  new_sharded_smt-made (suc (suc (suc (suc zero)))) le = refl
  new_sharded_smt-made (suc (suc (suc (suc (suc zero))))) le = refl
  new_sharded_smt-made (suc (suc (suc (suc (suc (suc zero)))))) le = refl
  new_sharded_smt-made (suc (suc (suc (suc (suc (suc (suc zero))))))) le = refl
  new_sharded_smt-made (suc (suc (suc (suc (suc (suc (suc (suc zero)))))))) le = refl
  new_sharded_smt-made (suc (suc (suc (suc (suc (suc (suc (suc (suc k))))))))) le =
      absurd (omega arith)

  -- For a power of two up to 256, where the routing hash returns 32 bytes, NewShardedSMT succeeds with
  -- that many shards, and every key is routed to one of them.
  pub new_sharded_smt-shard_of :
      (sum256 : Bytes → Bytes)
      → ((key : Bytes) → length (sum256 key) ≡ 32)
      → ((key : Bytes) → All IsByte (sum256 key))
      → (k : ℕ) → k ≤ 8
      → Returns (new_sharded_smt (2 ^ k) mapstore_factory) λ s.
        (length s.shards ≡ 2 ^ k)
        × ((key : Bytes) → Returns (shard_of sum256 s key) λ idx. idx < length s.shards)
  unfolding shard_of
  new_sharded_smt-shard_of sum256 size bytes k le = (
    made k,
    new_sharded_smt-made k le,
    (
      length-new_shards (2 ^ k) 0,
      λ key.
          let (idx, run, below) = shard_in_range k (sum256 key) le (size key) (bytes key) in
          (idx, run, rw (length-new_shards (2 ^ k) 0) below),
    ),
  )
