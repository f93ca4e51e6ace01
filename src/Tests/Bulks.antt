-- ===== src/Tests/Bulks.antt =====
-- Runs of BulkUpdate on the small hash, beside iterated updates.
use smt.Prelude.{arith, ◌≡◌, refl, List, [], ◌∷◌}
use smt.Res.{ok, err, bulk_input_mismatch}
use smt.Bytes.{Bytes}
use smt.Tree.Run.{◌>>=◌}
use smt.Tree.Api.{update, get}
use smt.Utils.{bit_of}
use smt.Utils.Bits.{bit}
use smt.Bulk.Split.{partition_by_bit-length}
use smt.Bulk.Batch.{Increasing, last_value, dedup-sort_stable}
use smt.Bulk.{
  BulkKv, compare, insert_kv, sort_stable, dedup, search_loop, search, partition_by_bit,
  insert_index, is_shadowed, same_value, zip, non_deletes,
}
use smt.Bulk.Walk.{
  set_leaf, set_node, build_subtree, merged, merge_leaf_with_kvs, replace_node, apply_at,
  bulk_apply_at_root, delete_all, apply_batch, bulk_update,
}
use smt.Tests.{tiny_hash, store, program, empty, filled}

bulk_program : Unit {0}
unfolding program compare insert_kv sort_stable dedup search_loop search partition_by_bit
    insert_index is_shadowed same_value zip non_deletes set_leaf set_node build_subtree merged
    merge_leaf_with_kvs replace_node apply_at bulk_apply_at_root delete_all apply_batch bulk_update
bulk_program = tt

-- One batch gives the root of the updates, the last value of a key that occurs twice.
same_root :
    (bulk_update
      ((1 ∷ []) ∷ (2 ∷ []) ∷ (3 ∷ []) ∷ (4 ∷ []) ∷ (2 ∷ []) ∷ [])
      ((10 ∷ []) ∷ (20 ∷ []) ∷ (30 ∷ []) ∷ (40 ∷ []) ∷ (21 ∷ []) ∷ [])
      empty).0
    ≡ (filled empty).0
unfolding bulk_program
same_root = refl

-- A batch over a tree that is there.
same_root_after :
    ((update (3 ∷ []) (30 ∷ []) >>= λ a. update (2 ∷ []) (6 ∷ []) >>= λ b.
    bulk_update ((1 ∷ []) ∷ (2 ∷ []) ∷ (4 ∷ []) ∷ []) ((10 ∷ []) ∷ (21 ∷ []) ∷ (40 ∷ []) ∷ []))
      empty).0
    ≡ (filled empty).0
unfolding bulk_program
same_root_after = refl

-- A delete that stands after an insertion of its key in the batch is done before it.
insertion_stays :
    ((bulk_update ((2 ∷ []) ∷ (2 ∷ []) ∷ []) ((20 ∷ []) ∷ [] ∷ []) >>= λ r. get (2 ∷ [])) empty).0
    ≡ ok (20 ∷ [])
unfolding bulk_program
insertion_stays = refl

mismatch : (bulk_update ((1 ∷ []) ∷ []) [] empty).0 ≡ err bulk_input_mismatch
unfolding bulk_program
mismatch = refl

-- Two items with the path 9, and one before them in the order.
abbrev items : List BulkKv
items =
    record { path = 9 ∷ []; value = 1 ∷ [] }
    ∷ record { path = 7 ∷ []; value = 2 ∷ [] }
    ∷ record { path = 9 ∷ []; value = 3 ∷ [] }
    ∷ []

dedup-sort_stable_example :
    Increasing (dedup (sort_stable items))
    × ((p : Bytes) → last_value (dedup (sort_stable items)) p ≡ last_value items p)
dedup-sort_stable_example = dedup-sort_stable items

-- Paths whose bit 5 is 0, 0 and 1.
partition_by_bit-length_example :
    partition_by_bit
      (record { path = 9 ∷ []; value = 1 ∷ [] }
        ∷ record { path = 10 ∷ []; value = 2 ∷ [] }
        ∷ record { path = 12 ∷ []; value = 3 ∷ [] }
        ∷ [])
      5
    ≡ ok 2
unfolding bit bit_of
partition_by_bit-length_example =
    partition_by_bit-length 5
      (record { path = 9 ∷ []; value = 1 ∷ [] } ∷ record { path = 10 ∷ []; value = 2 ∷ [] } ∷ [])
      (record { path = 12 ∷ []; value = 3 ∷ [] } ∷ [])
      ((omega arith, refl), ((omega arith, refl), tt)) ((omega arith, refl), tt)
