-- ===== src/Tests.antt =====
-- Runs of the model on a small hash of one byte, with trees of depth 8 over SimpleMap stores.
mod Proving
mod Tries
mod Arenas
mod Bulks
mod Shards
mod Updates
mod Deletes
mod Batches
mod Branches
mod Routes
mod Slices
use smt.Prelude.{
  ℕ, ◌+◌, ◌*◌, ◌%◌, ◌<◌, ◌≡◌, refl, Bool, true, false, Option, none, some, List, [], ◌∷◌, length,
  All, arith,
}
use smt.Res.{Res, ok, err}
use smt.Bytes.{bytes_equal, Bytes, IsByte}
use smt.Tree.Walk.{choose, walk_child, walk_loop, finish_walk, fill_side_nodes}
use smt.Utils.{get_bit_at_from_msb, reverse_byte_slices_in_place}
use smt.TreeHasher.{parse_leaf, is_leaf, parse_node, placeholder, Hasher, digest, path}
use smt.MapStore.{MapStore}
use smt.MapStore.Simple
use smt.MapStore.Simple.{SimpleMap, simple_map, new_simple_map}
use smt.Proofs.{
  verify_proof_with_updates, SparseMerkleProof, verify_proof, compact_proof, verify_compact_proof,
}
use smt.Tree.{SparseMerkleTree}
use smt.Tree.Run.{Run, ◌>>=◌, ◌>>◌, return, lift}
use smt.Tree.Write.{delete_with_side_nodes, update_with_side_nodes}
use smt.Tree.Api.{
  unrelated_leaf, write_with_side_nodes, after_delete, new_sparse_merkle_tree, get, has, update,
  delete, prove,
}
use smt.DeepSubTree.{descend_loop, set_member, set_nodes, set_sibling, add_branch, get_descend}

unfoldable pub mix : ℕ → Bytes → ℕ
mix acc [] = acc % 251 + 1
mix acc (b ∷ bs) = mix (acc * 31 + b + 7) bs

pub mix_lt : (acc : ℕ) (d : Bytes) → mix acc d < 256
unfolding mix
mix_lt acc [] = omega arith
mix_lt acc (b ∷ bs) = mix_lt (acc * 31 + b + 7) bs

instance abbrev pub tiny_hash : Hasher
tiny_hash = record {
  size = 1;
  digest = λ d. mix 0 d ∷ [];
  length-digest = λ d. refl;
  digest-IsByte = λ d. (mix_lt 0 d, tt);
}

instance abbrev pub store : MapStore SimpleMap
store = simple_map

abbrev pub Tree : Type 0
Tree = SparseMerkleTree SimpleMap SimpleMap

-- What the tests compute with.
pub program : Unit {0}
unfolding mix new_simple_map new_sparse_merkle_tree get has update delete prove verify_proof
    compact_proof verify_compact_proof add_branch get_descend Simple.get Simple.set Simple.delete
    is_leaf parse_node choose walk_child walk_loop finish_walk fill_side_nodes get_bit_at_from_msb
    reverse_byte_slices_in_place bytes_equal placeholder unrelated_leaf write_with_side_nodes
    after_delete delete_with_side_nodes update_with_side_nodes descend_loop set_member set_nodes
    set_sibling verify_proof_with_updates parse_leaf
program = tt

abbrev pub empty : Tree
empty = new_sparse_merkle_tree new_simple_map new_simple_map []

abbrev pub filled : Run Tree Bytes
filled = do
  _ ← update (1 ∷ []) (10 ∷ [])
  _ ← update (2 ∷ []) (20 ∷ [])
  _ ← update (3 ∷ []) (30 ∷ [])
  _ ← update (4 ∷ []) (40 ∷ [])
  update (2 ∷ []) (21 ∷ [])

reads_back : ((filled >>= λ _. get (2 ∷ [])) empty).0 ≡ ok (21 ∷ [])
unfolding program
reads_back = refl

proves :
    ((filled >>= λ root. prove (2 ∷ []) >>= λ p. lift (verify_proof p root (2 ∷ []) (21 ∷ [])))
      empty).0
    ≡ ok true
unfolding program
proves = refl

-- Deleting what was written last gives the root before it.
deletes :
    ((update (1 ∷ []) (10 ∷ []) >>= λ _. update (2 ∷ []) (20 ∷ []) >>= λ _. delete (2 ∷ []))
      empty).0
    ≡ (update (1 ∷ []) (10 ∷ []) empty).0
unfolding program
deletes = refl

-- A subtree that was filled from one proof finds its key by descending.
finds_branch :
    ((filled >>= λ root.
    prove (2 ∷ []) >>= λ p. add_branch p (2 ∷ []) (21 ∷ []) >>= λ _. get_descend (2 ∷ []))
      empty).0
    ≡ ok (21 ∷ [])
unfolding program
finds_branch = refl
