-- ===== src/Tests/Branches.antt =====
-- A branch that is added to a deep subtree: the proof of one of two keys.
use smt.Prelude.{Option, some, replicate, ◌≡◌, refl, none, List, [], ◌∷◌, true, All}
use smt.Res.{Res, ok, err, panic, invalid_key}
use smt.Tree.Run.{◌>>=◌}
use smt.Bytes.{Bytes}
use smt.MapStore.Simple.{new_simple_map}
use smt.Proofs.{recompute_root, SparseMerkleProof, Update, verify_proof_with_updates}
use smt.DeepSubTree.{add_branch, get_descend}
use smt.DeepSubTree.Added.{add_branch-get_descend}
use smt.TreeHasher.{leaf_value, node_value, digest, placeholder}
use smt.Trie.{Trie, empty, leaf, node, root_hash}
use smt.Trie.Effects.{Held}
use smt.Tests.{tiny_hash, store, Tree, program}
use smt.Tests.Tries.{keyed, state}
use smt.Tests.Updates.{Seen, free, within}

abbrev subtree : Tree
subtree = record { nodes = new_simple_map; values = new_simple_map; root = state.root }

-- The subtries along the path of the first key, from the fork of the two keys up.
abbrev near : Trie
near = leaf (10 ∷ []) (20 ∷ [])

abbrev far : Trie
far = leaf (12 ∷ []) (40 ∷ [])

abbrev both : Trie
both = node near far

abbrev above : Trie
above = node empty both

abbrev proof : SparseMerkleProof
proof = record {
  side_nodes =
      root_hash far ∷ placeholder ∷ placeholder ∷ placeholder ∷ placeholder ∷ placeholder ∷ [];
  non_membership_leaf_data = none;
  sibling_data = none;
}

abbrev update_of : Trie → Trie → Update
update_of l r = (root_hash (node l r), node_value (root_hash l) (root_hash r))

abbrev updates : List Update
updates =
    (root_hash near, leaf_value (10 ∷ []) (digest (20 ∷ [])))
    ∷ update_of near far
    ∷ update_of empty both
    ∷ update_of above empty
    ∷ update_of (node above empty) empty
    ∷ update_of (node (node above empty) empty) empty
    ∷ update_of (node (node (node above empty) empty) empty) empty
    ∷ []

accepted : verify_proof_with_updates proof subtree.root (2 ∷ []) (20 ∷ []) ≡ ok (true, updates)
unfolding program verify_proof_with_updates root_hash
accepted = refl

seen : All (λ u. Seen u.1) updates
seen = (
  within.1.1.1.1.2.1.0,
  (
    within.1.1.1.1.2.0,
    (within.1.1.1.1.0, (within.1.1.1.0, (within.1.1.0, (within.1.0, (within.0, tt))))),
  ),
)

add_branch-get_descend_example :
    (s' : Tree) × (add_branch proof (2 ∷ []) (20 ∷ []) subtree ≡ (ok tt, s'))
    × (s'.root ≡ subtree.root)
    × ((d : Bytes) → Seen d → Held keyed subtree.nodes d → Held keyed s'.nodes d)
    × (get_descend (2 ∷ []) s' ≡ (ok (20 ∷ []), s'))
unfolding program
add_branch-get_descend_example =
    add_branch-get_descend keyed keyed Seen free (2 ∷ []) (20 ∷ []) proof updates subtree accepted
      seen (λ d e. absurd cc)

-- Proofs of as many side nodes as a path has bits, against the roots that they lead to.
abbrev full : Option Bytes → SparseMerkleProof
full leaf_data = record {
  side_nodes = replicate 8 placeholder;
  non_membership_leaf_data = leaf_data;
  sibling_data = none;
}

abbrev root_over : Bytes → Bytes
root_over current = elim (recompute_root (10 ∷ []) (replicate 8 placeholder) current []) [
  | ok r ↦ r.0
  | err e ↦ []
  | panic ↦ []
]

abbrev after : Bytes → SparseMerkleProof → Bytes → Res Bytes
after root branch value =
    ((add_branch branch (2 ∷ []) value >>= λ _. get_descend (2 ∷ []))
      (record subtree { root = root })).0

-- A value is found below them, and so is a placeholder.
reads_member :
    after (root_over (digest (leaf_value (10 ∷ []) (digest (20 ∷ []))))) (full none) (20 ∷ [])
    ≡ ok (20 ∷ [])
unfolding program recompute_root
reads_member = refl

reads_absent : after (root_over placeholder) (full none) [] ≡ ok []
unfolding program recompute_root
reads_absent = refl

-- Below them another key's leaf is not looked at: the value store answers.
reads_store :
    after
      (root_over (digest (leaf_value (12 ∷ []) (7 ∷ []))))
      (full (some (leaf_value (12 ∷ []) (7 ∷ []))))
      []
    ≡ err (invalid_key (10 ∷ []))
unfolding program recompute_root
reads_store = refl
