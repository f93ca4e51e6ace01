-- ===== src/Trie/Update/Steps.antt =====
-- The branches of updateWithSideNodes in smt.go, once the leaf is stored and the paths are compared.
use smt.Prelude.{ℕ, ◌<◌, ◌≡◌, false, true, Option, none, some, List, ◌==◌, arith}
use smt.Res.{ok}
use smt.Bytes.{Bytes, bytes_equal, bytes_equal_refl}
use smt.TreeHasher.{Hasher, digest, digest_leaf, leaf_value}
use smt.MapStore.{MapStore}
use smt.Tree.{SparseMerkleTree}
use smt.Tree.Run.{◌>>=◌, ◌>>◌, nodes_set, nodes_delete, values_delete}
use smt.Tree.Walk.{depth}
use smt.Trie.{leaf, root_hash}
use smt.Tree.Write.{common_prefix, join_and_set, update_rest, update_with_side_nodes}

module _ ⦃h : Hasher⦄ {N V : Type 0} ⦃ns : MapStore N⦄ ⦃vs : MapStore V⦄ (p v : Bytes)
    (sides : List Bytes) (end : Bytes) (above : List Bytes) (old_data : Option Bytes)
    (s s1 : SparseMerkleTree N V)
    (stored : nodes_set (digest (leaf_value p (digest v))) (leaf_value p (digest v)) s
      ≡ (ok tt, s1)) where
  abbrev leaf_hash : Bytes
  leaf_hash = root_hash (leaf p v)

  pub at_nothing :
      common_prefix p end old_data ≡ ok (depth, none)
      → update_with_side_nodes p v sides end above old_data s
        ≡ update_rest p v sides above depth leaf_hash s1
  unfolding update_with_side_nodes digest_leaf root_hash
  at_nothing e = let whole : (depth == depth) ≡ true = ground arith in rw (stored, e, whole)

  pub at_other :
      (c : ℕ) (old : Option Bytes)
      → common_prefix p end old_data ≡ ok (c, old)
      → c < depth
      → update_with_side_nodes p v sides end above old_data s
        ≡ (join_and_set p c end leaf_hash >>= update_rest p v sides above c) s1
  unfolding update_with_side_nodes digest_leaf root_hash
  at_other c old e lt = let less : (c == depth) ≡ false = ground (arith, lt) in rw (stored, e, less)

  pub at_same :
      common_prefix p end old_data ≡ ok (depth, some (digest v))
      → update_with_side_nodes p v sides end above old_data s ≡ (ok s1.root, s1)
  unfolding update_with_side_nodes digest_leaf root_hash
  at_same e =
      let whole : (depth == depth) ≡ true = ground arith in
      rw (stored, e, whole, bytes_equal_refl (digest v))

  pub at_replaced :
      (old : Bytes)
      → common_prefix p end old_data ≡ ok (depth, some old)
      → bytes_equal old (digest v) ≡ false
      → update_with_side_nodes p v sides end above old_data s
        ≡ (nodes_delete end >> (values_delete p >> update_rest p v sides above depth leaf_hash)) s1
  unfolding update_with_side_nodes digest_leaf root_hash
  at_replaced old e other =
      let whole : (depth == depth) ≡ true = ground arith in rw (stored, e, whole, other)
