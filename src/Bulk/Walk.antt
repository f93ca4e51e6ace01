-- ===== src/Bulk/Walk.antt =====
-- BulkUpdate of bulk.go and its walk.
use smt.Prelude.{
  ℕ, zero, suc, ◌+◌, not, ◌&&◌, List, [], ◌∷◌, ◌++◌, length, take, drop, ◌==◌, if◌then◌else◌,
}
use smt.Res.{ok, err, panic, bulk_input_mismatch}
use smt.Bytes.{Bytes, bytes_equal}
use smt.TreeHasher.{
  Hasher, digest, placeholder, is_leaf, parse_leaf, parse_node, digest_leaf, digest_node,
}
use smt.MapStore.{MapStore}
use smt.Tree.{SparseMerkleTree}
use smt.Tree.Run.{
  Run, ◌>>=◌, ◌>>◌, return, lift, nodes_get, nodes_set, nodes_delete, values_get, values_set,
}
use smt.Tree.Walk.{depth}
use smt.Tree.Api.{default_value, delete, set_root}
use smt.Bulk.{
  BulkKv, partition_by_bit, insert_index, is_shadowed, same_value, sort_stable, dedup, non_deletes,
  zip,
}

module _ ⦃h : Hasher⦄ {N V : Type 0} ⦃ns : MapStore N⦄ ⦃vs : MapStore V⦄ where
  unfoldable pub set_leaf : BulkKv → Run (SparseMerkleTree N V) Bytes
  unfolding digest_leaf
  set_leaf kv = do
    let leaf = digest_leaf kv.path (digest kv.value)
    nodes_set leaf.0 leaf.1
    values_set kv.path kv.value
    return leaf.0

  unfoldable pub set_node : Bytes → Bytes → Run (SparseMerkleTree N V) Bytes
  unfolding digest_node
  set_node left_hash right_hash = do
    let node = digest_node left_hash right_hash
    nodes_set node.0 node.1
    return node.0

  -- With `n` bits left at depth `i`.
  unfoldable pub build_subtree : ℕ → ℕ → List BulkKv → Run (SparseMerkleTree N V) Bytes
  unfolding set_leaf set_node partition_by_bit placeholder
  build_subtree n i [] = return placeholder
  build_subtree n i (kv ∷ []) = set_leaf kv
  build_subtree zero i (kv ∷ kv' ∷ rest) = lift panic
  build_subtree (suc n) i (kv ∷ kv' ∷ rest) = do
    let kvs = kv ∷ kv' ∷ rest
    split ← lift (partition_by_bit kvs i)
    left_hash ← build_subtree n (i + 1) (take split kvs)
    right_hash ← build_subtree n (i + 1) (drop split kvs)
    set_node left_hash right_hash

  -- The items with the leaf that was found among them, unless one has its path.
  unfoldable pub merged : Bytes → List BulkKv → Run (SparseMerkleTree N V) (List BulkKv)
  unfolding is_shadowed insert_index
  merged leaf_path kvs = if is_shadowed kvs leaf_path then return kvs else do
    old_value ← values_get leaf_path
    at ← lift (insert_index kvs leaf_path)
    let old : BulkKv = record { path = leaf_path; value = old_value }
    return (take at kvs ++ old ∷ drop at kvs)

  unfoldable pub merge_leaf_with_kvs :
      ℕ → ℕ → Bytes → Bytes → List BulkKv → Run (SparseMerkleTree N V) Bytes
  unfolding parse_leaf is_shadowed same_value merged build_subtree
  merge_leaf_with_kvs n i current_hash leaf_data kvs = do
    (leaf_path, existing_value_hash) ← lift (parse_leaf leaf_data)
    if is_shadowed kvs leaf_path && same_value kvs existing_value_hash
        then return current_hash
        else do nodes_delete current_hash; all ← merged leaf_path kvs; build_subtree n i all

  -- After both subtrees: an unchanged node stays.
  unfoldable pub replace_node :
      Bytes → Bytes × Bytes → Bytes → Bytes → Run (SparseMerkleTree N V) Bytes
  unfolding bytes_equal set_node
  replace_node current_hash children new_left new_right =
      if bytes_equal new_left children.0 && bytes_equal new_right children.1
      then return current_hash
      else (nodes_delete current_hash >> set_node new_left new_right)

  -- At a placeholder the items make a new subtree, at a leaf they are merged with it, and at an inner
  -- node they are handed to its children.
  unfoldable pub apply_at :
      (Bytes × Bytes → List BulkKv → Run (SparseMerkleTree N V) (Bytes × Bytes))
      → ℕ
      → ℕ
      → Bytes
      → List BulkKv
      → Run (SparseMerkleTree N V) Bytes
  unfolding bytes_equal placeholder is_leaf parse_node build_subtree merge_leaf_with_kvs
      replace_node
  apply_at below n i current_hash [] = return current_hash
  apply_at below n i current_hash (kv ∷ rest) =
      if bytes_equal current_hash placeholder then build_subtree n i (kv ∷ rest) else do
        node_data ← nodes_get current_hash
        leaf ← lift (is_leaf node_data)
        if leaf then merge_leaf_with_kvs n i current_hash node_data (kv ∷ rest) else do
          children ← lift (parse_node node_data)
          (new_left, new_right) ← below children (kv ∷ rest)
          replace_node current_hash children new_left new_right

  unfoldable pub bulk_apply_at_root : ℕ → ℕ → Bytes → List BulkKv → Run (SparseMerkleTree N V) Bytes
  unfolding apply_at partition_by_bit
  bulk_apply_at_root zero i = apply_at (λ children kvs. lift panic) zero i
  bulk_apply_at_root (suc n) i =
      let below = λ (children : Bytes × Bytes) (kvs : List BulkKv).
        lift (partition_by_bit kvs i) >>= λ split.
        bulk_apply_at_root n (i + 1) children.0 (take split kvs) >>= λ new_left.
        bulk_apply_at_root n (i + 1) children.1 (drop split kvs) >>= λ new_right.
        return (new_left, new_right) in
      apply_at below (suc n) i

  -- "Process deletes via the existing single-key path."
  unfoldable pub delete_all : List (Bytes × Bytes) → Run (SparseMerkleTree N V) (Unit {0})
  unfolding delete bytes_equal
  delete_all [] = return tt
  delete_all ((key, value) ∷ rest) =
      let first = delete key >>= λ root. delete_all rest in
      if bytes_equal value default_value then first else delete_all rest

  -- The sorted batch, applied at the root that the deletes left.
  unfoldable pub apply_batch : List BulkKv → Run (SparseMerkleTree N V) Bytes
  unfolding sort_stable dedup bulk_apply_at_root set_root
  apply_batch [] s = (ok s.root, s)
  apply_batch (kv ∷ rest) s =
      (bulk_apply_at_root depth 0 s.root (dedup (sort_stable (kv ∷ rest))) >>= λ new_root t.
      (ok new_root, set_root t new_root))
        s

  unfoldable pub bulk_update : List Bytes → List Bytes → Run (SparseMerkleTree N V) Bytes
  unfolding zip delete_all non_deletes apply_batch
  bulk_update keys values s =
      if not (length keys == length values)
      then (err bulk_input_mismatch, s)
      else (if length keys == 0
          then (ok s.root, s)
          else (delete_all (zip keys values) >> apply_batch (non_deletes (zip keys values))) s)
