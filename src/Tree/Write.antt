-- ===== src/Tree/Write.antt =====
-- updateWithSideNodes and deleteWithSideNodes of smt.go. The pooled hash buffers hold values that are
-- read before their buffer is written again, and are left out.
use smt.Prelude.{
  ℕ, zero, suc, ◌+◌, ◌-◌, Bool, true, false, not, ◌&&◌, Option, none, some, List, [], ◌∷◌, length,
  ◌==◌, ltb, if◌then◌else◌,
}
use mathlib.Core.Option.{get_or}
use smt.Res.{Res, ok, err, key_already_empty}
use smt.Res
use smt.Bytes.{Bytes, bytes_equal, index}
use smt.Utils.{get_bit_at_from_msb, count_common_prefix}
use smt.TreeHasher.{Hasher, digest, placeholder, parse_leaf, is_leaf, digest_leaf}
use smt.Proofs.{join}
use smt.MapStore.{MapStore}
use smt.Tree.{SparseMerkleTree}
use smt.Tree.Run.{
  Run, ◌>>=◌, ◌>>◌, return, lift, nodes_get, nodes_set, nodes_delete, values_set, values_delete,
}
use smt.Tree.Walk.{depth}

module _ ⦃h : Hasher⦄ where
  -- The bits that the path shares with the leaf that was found, and that leaf's value hash; the
  -- whole depth and nil if none was found.
  unfoldable pub common_prefix : Bytes → Bytes → Option Bytes → Res (ℕ × Option Bytes)
  unfolding bytes_equal placeholder parse_leaf count_common_prefix
  common_prefix p bottom old_leaf_data =
      let compared =
        Res.◌>>=◌ (parse_leaf (get_or old_leaf_data []))
          λ old. Res.◌>>=◌ (count_common_prefix p old.0) λ c. ok (c, some old.1) in
      if bytes_equal bottom placeholder then ok (depth, none) else compared

  -- The side node at height `i` of the climb, `n` below the top: a supplied one, a placeholder
  -- where the two leaves still share bits, or none.
  unfoldable pub side_at : List Bytes → ℕ → ℕ → ℕ → Res (Option Bytes)
  unfolding index placeholder
  side_at side_nodes common i n =
      if ltb (i + length side_nodes) depth
      then (if not (common == depth) && ltb n common then ok (some placeholder) else ok none)
      else Res.◌>>=◌ (index side_nodes (i + length side_nodes - depth)) (λ s. ok (some s))

  module _ {N V : Type 0} ⦃ns : MapStore N⦄ ⦃vs : MapStore V⦄ where
    unfoldable pub delete_nodes : List Bytes → Run (SparseMerkleTree N V) (Unit {0})
    delete_nodes [] = return tt
    delete_nodes (node ∷ rest) = nodes_delete node >> delete_nodes rest

    -- The node over the current hash and its side node, stored; its hash.
    unfoldable pub join_and_set : Bytes → ℕ → Bytes → Bytes → Run (SparseMerkleTree N V) Bytes
    unfolding join get_bit_at_from_msb
    join_and_set p position side current = do
      bit ← lift (get_bit_at_from_msb p position)
      let node = join bit side current
      nodes_set node.0 node.1
      return node.0

    -- The loop over the heights, with `n` rounds left: `i` is `depth - n`.
    unfoldable pub update_loop :
        ℕ → Bytes → List Bytes → ℕ → Bytes → Run (SparseMerkleTree N V) Bytes
    unfolding side_at join_and_set
    update_loop zero p side_nodes common current = return current
    update_loop (suc n) p side_nodes common current = do
      side ← lift (side_at side_nodes common (depth - suc n) n)
      elim side [
        | none ↦ update_loop n p side_nodes common current
        | some node ↦
            join_and_set p n node current >>= λ next. update_loop n p side_nodes common next
      ]

    -- From the deletion of the remaining path nodes on.
    unfoldable pub update_rest :
        Bytes → Bytes → List Bytes → List Bytes → ℕ → Bytes → Run (SparseMerkleTree N V) Bytes
    unfolding delete_nodes update_loop
    update_rest p value side_nodes above common current = do
      delete_nodes above
      top ← update_loop depth p side_nodes common current
      values_set p value
      return top

    -- `path_nodes` is `bottom ∷ above`: the walk appends the root first.
    unfoldable pub update_with_side_nodes :
        Bytes
        → Bytes
        → List Bytes
        → Bytes
        → List Bytes
        → Option Bytes
        → Run (SparseMerkleTree N V) Bytes
    unfolding digest_leaf common_prefix join_and_set update_rest bytes_equal
    update_with_side_nodes p value side_nodes bottom above old_leaf_data = do
      let value_hash = digest value
      let leaf = digest_leaf p value_hash
      nodes_set leaf.0 leaf.1
      (common, old_value_hash) ← lift (common_prefix p bottom old_leaf_data)
      let rest = update_rest p value side_nodes above common
      if not (common == depth)
          then (join_and_set p common bottom leaf.0 >>= rest)
          else elim old_value_hash [
            | none ↦ rest leaf.0
            | some old ↦
                if bytes_equal old value_hash
                then (λ s. (ok s.root, s))
                else (nodes_delete bottom >> (values_delete p >> rest leaf.0))
          ]

    -- One round of the deletion's climb, `position` from the root, going on by `next` with the
    -- current hash, the current data and whether a sibling that stays was reached.
    unfoldable pub delete_step :
        Bytes
        → Bytes
        → ℕ
        → Option Bytes
        → Option Bytes
        → Bool
        → (Option Bytes → Option Bytes → Bool → Run (SparseMerkleTree N V) (Option Bytes))
        → Run (SparseMerkleTree N V) (Option Bytes)
    unfolding is_leaf join_and_set placeholder bytes_equal
    delete_step p side position current_hash none reached next = do
      side_value ← nodes_get side
      leaf ← lift (is_leaf side_value)
      if leaf
          then next (some side) (some side) reached
          else (join_and_set p position side placeholder >>= λ top. next (some top) (some top) true)
    delete_step p side position current_hash (some current_data) reached next =
        if not reached && bytes_equal side placeholder
        then next current_hash (some current_data) reached
        else (join_and_set p position side current_data >>= λ top. next (some top) (some top) true)

    unfoldable pub delete_loop :
        Bytes
        → List Bytes
        → Option Bytes
        → Option Bytes
        → Bool
        → Run (SparseMerkleTree N V) (Option Bytes)
    unfolding delete_step
    delete_loop p [] current_hash current_data reached = return current_hash
    delete_loop p (side ∷ rest) current_hash current_data reached =
        delete_step p side (length rest) current_hash current_data reached (delete_loop p rest)

    unfoldable pub delete_with_side_nodes :
        Bytes → List Bytes → Bytes → List Bytes → Option Bytes → Run (SparseMerkleTree N V) Bytes
    unfolding bytes_equal placeholder parse_leaf delete_nodes delete_loop
    delete_with_side_nodes p side_nodes bottom above old_leaf_data =
        if bytes_equal bottom placeholder then lift (err key_already_empty) else do
          (actual_path, _) ← lift (parse_leaf (get_or old_leaf_data []))
          if not (bytes_equal p actual_path) then lift (err key_already_empty) else do
            delete_nodes (bottom ∷ above)
            current_hash ← delete_loop p side_nodes none none false
            return (get_or current_hash placeholder)
