-- ===== src/Sharded.antt =====
-- ShardedSMT of sharded.go: a tree per shard, routing by a key's digest, and the combined root. The
-- routing hash is crypto/sha256 of the standard library, a parameter here.
pub mod Root
pub mod Routing
pub mod Parallel
pub mod Chunks
pub mod Schedules
pub mod Bulk
pub mod Steps
pub mod Order
pub mod Buckets
pub mod Pools
pub mod Updates
pub mod History
use smt.Prelude.{
  ℕ, zero, suc, ◌+◌, ◌-◌, ◌/◌, ◌^◌, Bool, ◌||◌, not, List, [], ◌∷◌, ◌++◌, length, map, set, ltb,
  ◌==◌, bit_and, if◌then◌else◌,
}
use smt.Res.{Res, ok, err, panic, invalid_shard_count}
use smt.Res
use smt.Bytes.{Bytes, bytes_equal, index}
use smt.TreeHasher.{Hasher, digest, node_prefix}
use smt.MapStore.{MapStore}
use smt.Tree.{SparseMerkleTree}
use smt.Tree.Run.{Run, ◌>>=◌, ◌>>◌, return, lift}
use smt.Tree.Api
use smt.Tree.Api.{new_sparse_merkle_tree}

pub record ShardedSmt (N V : Type 0) : Type 0 where
  pub shards : List (SparseMerkleTree N V)
  pub shard_bits : ℕ

-- "bits++" for as long as `x > 1`; `x` halvings are enough.
unfoldable pub count_bits : ℕ → ℕ → ℕ
count_bits zero x = 0
count_bits (suc fuel) x = let rest = count_bits fuel (x / 2) in if ltb 1 x then suc rest else 0

-- `Equal`
unfoldable pub equal : Bytes → Bytes → Bool
unfolding bytes_equal
equal a b = bytes_equal a b

module _ ⦃h : Hasher⦄ where
  unfoldable pub merge_hash : Bytes → Bytes → Bytes
  merge_hash left_hash right_hash = digest (node_prefix ++ (left_hash ++ right_hash))

  -- One level over another; a node that is left over is hashed with itself.
  unfoldable pub next_level : List Bytes → List Bytes
  unfolding merge_hash
  next_level [] = []
  next_level (a ∷ []) = merge_hash a a ∷ []
  next_level (a ∷ b ∷ rest) = merge_hash a b ∷ next_level rest

  -- The loop over the levels; as many rounds as there are roots are enough.
  unfoldable pub fold_levels : ℕ → List Bytes → List Bytes
  unfolding next_level
  fold_levels zero level = level
  fold_levels (suc fuel) level =
      let above = fold_levels fuel (next_level level) in
      if ltb 1 (length level) then above else level

  unfoldable pub combine : List Bytes → Res Bytes
  unfolding fold_levels index
  combine roots = index (fold_levels (length roots) roots) 0

  module _ {N V : Type 0} where
    unfoldable pub compute_root : Run (ShardedSmt N V) Bytes
    unfolding combine
    compute_root s = (combine (map (λ (t : SparseMerkleTree N V). t.root) s.shards), s)

    unfoldable pub root : Run (ShardedSmt N V) Bytes
    unfolding compute_root
    root = compute_root

    unfoldable pub shard_root : ShardedSmt N V → ℕ → Res Bytes
    unfolding index
    shard_root s idx = Res.◌>>=◌ (index s.shards idx) (λ (t : SparseMerkleTree N V). ok t.root)

    unfoldable pub shard_count : ShardedSmt N V → ℕ
    shard_count s = length s.shards

    -- The trees of the shards from `i` on.
    unfoldable pub new_shards : ℕ → ℕ → (ℕ → N × V) → List (SparseMerkleTree N V)
    unfolding new_sparse_merkle_tree
    new_shards zero i mapstore_factory = []
    new_shards (suc n) i mapstore_factory =
        let stores = mapstore_factory i in
        new_sparse_merkle_tree stores.0 stores.1 [] ∷ new_shards n (suc i) mapstore_factory

    unfoldable pub new_sharded_smt : ℕ → (ℕ → N × V) → Res (ShardedSmt N V)
    unfolding count_bits new_shards
    new_sharded_smt shard_count mapstore_factory =
        if ltb shard_count 1 || ltb 256 shard_count
        then err invalid_shard_count
        else (if not (bit_and shard_count (shard_count - 1) == 0)
            then err invalid_shard_count
            else ok (record {
              shards = new_shards shard_count 0 mapstore_factory;
              shard_bits = count_bits shard_count shard_count;
            }))

  module _ (sum256 : Bytes → Bytes) {N V : Type 0} where
    unfoldable pub shard_of : ShardedSmt N V → Bytes → Res ℕ
    unfolding index
    shard_of s key = Res.◌>>=◌ (index (sum256 key) 0) λ b. ok (b / 2 ^ (8 - s.shard_bits))

    -- A call of one shard's tree.
    unfoldable pub on_shard :
        {A : Type 0} → ℕ → Run (SparseMerkleTree N V) A → Run (ShardedSmt N V) A
    unfolding index
    on_shard idx call s = elim (index s.shards idx) [
      | ok t ↦ let r = call t in (r.0, record s { shards = set s.shards idx r.1 })
      | err e ↦ (err e, s)
      | panic ↦ (panic, s)
    ]

    module _ ⦃ns : MapStore N⦄ ⦃vs : MapStore V⦄ where
      unfoldable pub update : Bytes → Bytes → Run (ShardedSmt N V) Bytes
      unfolding shard_of on_shard compute_root
      update key value s =
          (lift (shard_of s key) >>= λ idx.
          on_shard idx (Api.update key value) >>= λ r. compute_root)
            s

      unfoldable pub get : Bytes → Run (ShardedSmt N V) Bytes
      unfolding shard_of on_shard
      get key s = (lift (shard_of s key) >>= λ idx. on_shard idx (Api.get key)) s
