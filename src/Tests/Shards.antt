-- ===== src/Tests/Shards.antt =====
-- Runs of ShardedSMT on the small hash, which routes as well, and its combined root.
use smt.Prelude.{
  ℕ, some, List, map, get_or, ◌∙◌, sym, length-replicate, length, zero, suc, ◌<◌, All, replicate,
  arith, ◌≡◌, refl, [], ◌∷◌,
}
use smt.Res.{Returns, Res, ok, err, invalid_shard_count}
use smt.Bytes.{IsByte, Bytes}
use smt.MapStore.Simple.{SimpleMap, new_simple_map}
use smt.Tree.{SparseMerkleTree}
use smt.Tree.Run.{◌>>=◌}
use smt.Sharded.{ShardedSmt, new_sharded_smt, shard_of, on_shard, update, get, compute_root}
use smt.Sharded.Bulk
use smt.Sharded.Bulk.{fill_buckets}
use smt.Sharded.Parallel.{positions, goroutines, shard_idx, write_idxs, Computes, in_line}
use smt.Sharded.Chunks.{joined, goroutines-positions}
use smt.Sharded.Schedules.{Computes-map}
use smt.Sharded.Buckets.{of_shard, fill_buckets-of_shard}
use smt.Sharded.Order.{SameEnd, IsSchedule, unchanged, exchanged, bulk_update-SameEnd}
use smt.Sharded.Pools.{
  ShardScratch, new_shard_scratch, put_shard_scratch, reset_buckets, Gets, made, Pooled, at_first,
  taken, returned, Pooled-new, first_entries, get_shard_idx_buf, first_entries-get_shard_idx_buf,
}
use smt.Sharded.Routing.{new_sharded_smt-shard_of}
use smt.Sharded.Root.{balanced, compute_root-balanced}
use smt.Tests.{tiny_hash, store, program, empty}

abbrev Shards : Type 0
Shards = ShardedSmt SimpleMap SimpleMap

abbrev four : Res Shards
four = new_sharded_smt 4 (λ i. (new_simple_map, new_simple_map))

three_refused :
    ◌≡◌ {A = Res Shards}
      (new_sharded_smt 3 (λ i. (new_simple_map, new_simple_map)))
      (err invalid_shard_count)
unfolding new_sharded_smt
three_refused = refl

abbrev tree : Bytes → SparseMerkleTree SimpleMap SimpleMap
tree r = record { nodes = new_simple_map; values = new_simple_map; root = r }

abbrev shards : Shards
shards = record {
  shards = tree (1 ∷ []) ∷ tree (2 ∷ []) ∷ tree (3 ∷ []) ∷ tree (4 ∷ []) ∷ [];
  shard_bits = 2;
}

abbrev fresh : Shards
fresh = record { shards = empty ∷ empty ∷ empty ∷ empty ∷ []; shard_bits = 2 }

-- The first bits of the digest 9 of the key 1 choose the first of four shards.
reads_back :
    ((update tiny_hash.digest (1 ∷ []) (10 ∷ []) >>= λ r. get tiny_hash.digest (1 ∷ [])) fresh).0
    ≡ ok (10 ∷ [])
unfolding program update get shard_of on_shard
reads_back = refl

compute_root-balanced_example :
    compute_root shards ≡ (ok (balanced 2 ((1 ∷ []) ∷ (2 ∷ []) ∷ (3 ∷ []) ∷ (4 ∷ []) ∷ [])), shards)
compute_root-balanced_example = compute_root-balanced 2 shards refl

abbrev digest32 : Bytes → Bytes
digest32 key = replicate 32 200

digest32-All : (n : ℕ) → All IsByte (replicate n 200)
digest32-All zero = tt
digest32-All (suc n) = (omega arith, digest32-All n)

new_sharded_smt-shard_of_example :
    Returns (new_sharded_smt 4 (λ (i : ℕ). (new_simple_map, new_simple_map))) λ s.
      (length s.shards ≡ 4)
      × ((key : Bytes) → Returns (shard_of digest32 s key) λ idx. idx < length s.shards)
new_sharded_smt-shard_of_example =
    new_sharded_smt-shard_of (λ i. (new_simple_map, new_simple_map)) digest32 (λ key. refl)
      (λ key. digest32-All 32) 2 (omega arith)

goroutines-positions_example : joined (goroutines 4 10) ≡ positions 0 10
goroutines-positions_example = goroutines-positions 4 10 (omega arith) (omega arith)

abbrev keys : List Bytes
keys = (1 ∷ []) ∷ (2 ∷ []) ∷ (3 ∷ []) ∷ []

abbrev new_values : List Bytes
new_values = (10 ∷ []) ∷ (20 ∷ []) ∷ (30 ∷ []) ∷ []

-- As many keys as it takes to start goroutines.
Computes-map_example :
    ((out : List ℕ) × Computes digest32 2 4 (replicate 1024 (1 ∷ [])) (replicate 1024 0) out)
    × ((out : List ℕ)
        → Computes digest32 2 4 (replicate 1024 (1 ∷ [])) (replicate 1024 0) out
        → out ≡ map (shard_idx digest32 2) (replicate 1024 (1 ∷ [])))
Computes-map_example =
    Computes-map digest32 2 (replicate 1024 (1 ∷ [])) 4 (replicate 1024 0) (omega arith)
      (length-replicate {A = ℕ} 1024 0 ∙ sym (length-replicate {A = Bytes} 1024 (1 ∷ [])))

fill_buckets-of_shard_example :
    Returns
      (fill_buckets
        (map (shard_idx digest32 2) keys)
        keys
        new_values
        (replicate 4 [])
        (replicate 4 []))
      λ b.
        (j : ℕ)
        → (get_or b.0 j [] ≡ of_shard j (map (shard_idx digest32 2) keys) keys)
          × (get_or b.1 j [] ≡ of_shard j (map (shard_idx digest32 2) keys) new_values)
fill_buckets-of_shard_example =
    fill_buckets-of_shard digest32 (λ key. digest32-All 32) 2 (omega arith) keys new_values refl

-- The buffers that the indices are written to hold what earlier calls left there.
abbrev computed : List ℕ → List ℕ
computed buffer = write_idxs tiny_hash.digest 2 keys (positions 0 3) buffer

-- The first two goroutines in the other order.
abbrev turned : List ℕ → List ℕ
turned [] = []
turned (x ∷ []) = x ∷ []
turned (x ∷ y ∷ rest) = y ∷ x ∷ rest

turned-IsSchedule : IsSchedule turned
turned-IsSchedule [] = unchanged
turned-IsSchedule (x ∷ []) = unchanged
turned-IsSchedule (x ∷ y ∷ rest) = exchanged

bulk_update-SameEnd_example :
    SameEnd
      (Bulk.bulk_update tiny_hash.digest
        (computed (7 ∷ 7 ∷ 7 ∷ []))
        (λ xs. xs)
        keys
        new_values
        fresh)
      (Bulk.bulk_update tiny_hash.digest (computed (0 ∷ 1 ∷ 2 ∷ [])) turned keys new_values fresh)
bulk_update-SameEnd_example =
    bulk_update-SameEnd tiny_hash.digest fresh keys new_values 4 (7 ∷ 7 ∷ 7 ∷ []) (0 ∷ 1 ∷ 2 ∷ [])
      (computed (7 ∷ 7 ∷ 7 ∷ [])) (computed (0 ∷ 1 ∷ 2 ∷ [])) (λ xs. xs) turned (omega arith) refl
      refl (in_line (omega arith)) (in_line (omega arith)) (λ xs. unchanged) turned-IsSchedule

-- A pool that got back the buckets of one batch.
used : Pooled 2 (new_shard_scratch 2 ∷ [])
unfolding put_shard_scratch reset_buckets new_shard_scratch
used =
    returned (((1 ∷ []) ∷ []) ∷ [] ∷ []) (((10 ∷ []) ∷ []) ∷ [] ∷ []) (taken at_first made) refl
      refl refl

Pooled-new_example :
    ((s : ShardScratch) (pool' : List ShardScratch)
      → Gets 2 (new_shard_scratch 2 ∷ []) s pool'
      → s ≡ new_shard_scratch 2)
    × ((bucket_k bucket_v : List (List Bytes))
        → length bucket_k ≡ 2
        → length bucket_v ≡ 2
        → Returns (put_shard_scratch bucket_k bucket_v (new_shard_scratch 2 ∷ [])) (Pooled 2))
Pooled-new_example = Pooled-new 2 (new_shard_scratch 2 ∷ []) used

first_entries-get_shard_idx_buf_example :
    Returns (first_entries (get_shard_idx_buf (some (7 ∷ 7 ∷ [])) 3) 3) λ idxs. length idxs ≡ 3
first_entries-get_shard_idx_buf_example = first_entries-get_shard_idx_buf (some (7 ∷ 7 ∷ [])) 3
