-- ===== src/Sharded/Bulk.antt =====
-- BulkUpdate of sharded.go. The goroutine of a shard is one step, the whole BulkUpdate of its tree: the
-- trees share no store. A schedule is the order in which these steps are taken.
use smt.Prelude.{
  ℕ, suc, ◌==◌, not, Option, none, some, List, [], ◌∷◌, ◌++◌, length, set, replicate, if◌then◌else◌,
}
use smt.Res.{Res, ok, err, panic, Error, bulk_input_mismatch}
use smt.Res
use smt.Bytes.{Bytes, index}
use smt.TreeHasher.{Hasher}
use smt.MapStore.{MapStore}
use smt.Tree.Run.{Run, ◌>>=◌, lift}
use smt.Bulk.Walk
use smt.Sharded.{ShardedSmt, compute_root, on_shard}

-- Appends to a shard's bucket.
unfoldable pub push : List (List Bytes) → ℕ → Bytes → Res (List (List Bytes))
unfolding index
push bucket idx x = Res.◌>>=◌ (index bucket idx) λ b. ok (set bucket idx (b ++ x ∷ []))

-- The loop over the keys, with the shard index of each.
unfoldable pub fill_buckets :
    List ℕ
    → List Bytes
    → List Bytes
    → List (List Bytes)
    → List (List Bytes)
    → Res (List (List Bytes) × List (List Bytes))
unfolding push
fill_buckets idxs [] values bucket_k bucket_v = ok (bucket_k, bucket_v)
fill_buckets (idx ∷ idxs) (k ∷ keys) (v ∷ values) bucket_k bucket_v =
    Res.◌>>=◌ (push bucket_k idx k) λ bucket_k'.
      Res.◌>>=◌ (push bucket_v idx v) λ bucket_v'. fill_buckets idxs keys values bucket_k' bucket_v'
fill_buckets [] (k ∷ keys) values bucket_k bucket_v = panic
fill_buckets (idx ∷ idxs) (k ∷ keys) [] bucket_k bucket_v = panic

-- The shards from `i` on that have a goroutine: those with a key in their bucket.
unfoldable pub started : ℕ → List (List Bytes) → List ℕ
started i [] = []
started i (bucket ∷ rest) =
    let after = started (suc i) rest in if length bucket == 0 then after else i ∷ after

-- `gotErr`: the first error that occurred.
unfoldable pub record_error : Option Error → Error → Option Error
record_error none e = some e
record_error (some first) e = some first

module _ ⦃h : Hasher⦄ (sum256 : Bytes → Bytes) {N V : Type 0} ⦃ns : MapStore N⦄
    ⦃vs : MapStore V⦄ where
  -- What a goroutine does with its shard.
  unfoldable pub shard_update :
      List (List Bytes) → List (List Bytes) → ℕ → Run (ShardedSmt N V) Bytes
  unfolding index on_shard Walk.bulk_update
  shard_update bucket_k bucket_v idx = lift (index bucket_k idx) >>= λ ks.
      lift (index bucket_v idx) >>= λ vals. on_shard sum256 idx (Walk.bulk_update ks vals)

  -- What follows a goroutine: an error is recorded, and a panic ends the program.
  unfoldable pub after_shard :
      (Option Error → Run (ShardedSmt N V) (Option Error))
      → Option Error
      → Res Bytes
      → Run (ShardedSmt N V) (Option Error)
  unfolding record_error
  after_shard rest got_err (ok root) s = rest got_err s
  after_shard rest got_err (err e) s = rest (record_error got_err e) s
  after_shard rest got_err panic s = (panic, s)

  -- The goroutines in the order of the schedule, up to `wg.Wait()`.
  unfoldable pub run_shards :
      List (List Bytes)
      → List (List Bytes)
      → List ℕ
      → Option Error
      → Run (ShardedSmt N V) (Option Error)
  unfolding shard_update after_shard
  run_shards bucket_k bucket_v [] got_err s = (ok got_err, s)
  run_shards bucket_k bucket_v (idx ∷ rest) got_err s =
      let r = shard_update bucket_k bucket_v idx s in
      after_shard (run_shards bucket_k bucket_v rest) got_err r.0 r.1

  unfoldable pub finish : Option Error → Run (ShardedSmt N V) Bytes
  unfolding compute_root
  finish none s = compute_root s
  finish (some e) s = (err e, s)

  -- With the shard index of each key; `schedule` gives the order in which started goroutines run.
  unfoldable pub bulk_update :
      List ℕ → (List ℕ → List ℕ) → List Bytes → List Bytes → Run (ShardedSmt N V) Bytes
  unfolding fill_buckets started run_shards finish compute_root
  bulk_update idxs schedule keys values s =
      if not (length keys == length values)
      then (err bulk_input_mismatch, s)
      else (if length keys == 0
          then compute_root s
          else (let none_yet = replicate (length s.shards) [] in
                lift (fill_buckets idxs keys values none_yet none_yet) >>= λ buckets.
                run_shards buckets.0 buckets.1 (schedule (started 0 buckets.0)) none >>= finish)
              s)
