-- ===== src/DeepSubTree.antt =====
-- deepsubtree.go: a subtree filled from proofs, and the lookup that descends from the root. The subtree
-- is a SparseMerkleTree with the root that the caller gives.
pub mod Branch
pub mod Added
use smt.Prelude.{
  ℕ, zero, suc, ◌+◌, ◌==◌, Bool, not, Option, none, some, List, [], ◌∷◌, if◌then◌else◌,
}
use smt.Res.{ok, err, bad_proof}
use smt.Bytes.{Bytes, bytes_equal}
use smt.Utils.{get_bit_at_from_msb}
use smt.TreeHasher.{Hasher, path, placeholder, parse_leaf, parse_node, is_leaf}
use smt.Proofs.{Update, SparseMerkleProof, verify_proof_with_updates}
use smt.MapStore.{MapStore}
use smt.Tree.{SparseMerkleTree}
use smt.Tree.Run.{Run, ◌>>=◌, ◌>>◌, return, lift, nodes_get, nodes_set, values_get, values_set}
use smt.Tree.Walk.{depth}
use smt.Tree.Api.{default_value, import_sparse_merkle_tree}

unfoldable pub new_deep_sparse_merkle_sub_tree :
    {N V : Type 0} → N → V → Bytes → SparseMerkleTree N V
unfolding import_sparse_merkle_tree
new_deep_sparse_merkle_sub_tree nodes values root = import_sparse_merkle_tree nodes values root

module _ ⦃h : Hasher⦄ {N V : Type 0} ⦃ns : MapStore N⦄ ⦃vs : MapStore V⦄ where
  -- "Update nodes along branch"
  unfoldable pub set_nodes : List Update → Run (SparseMerkleTree N V) (Unit {0})
  set_nodes [] = return tt
  set_nodes ((hash, value) ∷ rest) = nodes_set hash value >> set_nodes rest

  -- "Update sibling node"
  unfoldable pub set_sibling : Option Bytes → List Bytes → Run (SparseMerkleTree N V) (Unit {0})
  set_sibling none nodes = return tt
  set_sibling (some sibling) [] = return tt
  set_sibling (some sibling) (node ∷ rest) = nodes_set node sibling

  unfoldable pub set_member : Bytes → Bytes → Run (SparseMerkleTree N V) (Unit {0})
  unfolding bytes_equal
  set_member key value =
      if bytes_equal value default_value then return tt else values_set (path key) value

  unfoldable pub add_branch :
      SparseMerkleProof → Bytes → Bytes → Run (SparseMerkleTree N V) (Unit {0})
  add_branch proof key value smt =
      (lift (verify_proof_with_updates proof smt.root key value) >>= λ (result, updates).
      if not result
      then lift (err bad_proof)
      else set_member key value
        >> (set_nodes updates >> set_sibling proof.sibling_data proof.side_nodes))
        smt

  -- The loop of `get_descend`, with `n` rounds left at depth `i`. Past the last round the value store
  -- answers.
  unfoldable pub descend_loop : ℕ → Bytes → ℕ → Bytes → Run (SparseMerkleTree N V) Bytes
  descend_loop zero p i current_hash = values_get p
  descend_loop (suc n) p i current_hash = do
    current ← nodes_get current_hash
    leaf ← lift (is_leaf current)
    let at_leaf = lift (parse_leaf current) >>= λ (q, _).
        if not (bytes_equal p q) then return default_value else values_get p
    let at_node = lift (parse_node current) >>= λ (left_node, right_node).
        lift (get_bit_at_from_msb p i) >>= λ bit.
        let next = if bit == 1 then right_node else left_node in
        let rest = descend_loop n p (i + 1) next in
        if bytes_equal next placeholder then return default_value else rest
    if leaf then at_leaf else at_node

  unfoldable pub get_descend : Bytes → Run (SparseMerkleTree N V) Bytes
  get_descend key smt =
      if bytes_equal smt.root placeholder
      then (ok default_value, smt)
      else descend_loop depth (path key) 0 smt.root smt

  unfoldable pub has_descend : Bytes → Run (SparseMerkleTree N V) Bool
  unfolding get_descend bytes_equal
  has_descend key = do value ← get_descend key; return (not (bytes_equal default_value value))
