-- ===== src/Tests/Proving.antt =====
-- The theorems on proofs at a tree of four keys.
use smt.Prelude.{◌≡◌, refl, Bool, true, none, List, [], ◌∷◌, map, inl}
use smt.Int.{pos, negsuc}
use smt.Res.{Res, ok, err, panic, bad_proof, Returns}
use smt.Bytes.{Bytes}
use smt.TreeHasher.Collisions.{
  CollisionFree, Listed, All-Listed, collision_free, collision_free-CollisionFree,
}
use smt.Utils.Count.{CommonPrefix, count_common_prefix-CommonPrefix}
use smt.Utils.{count_common_prefix}
use smt.Proofs.{
  Update, SparseMerkleProof, SparseCompactMerkleProof, sanity_check, verify_proof,
  verify_proof_with_updates, compact_proof, verify_compact_proof, decompact_proof,
  compact_sanity_check,
}
use smt.Proofs.Soundness.{verify_proof_unique}
use smt.Proofs.Compact.{decompact-compact, verify_compact-compact}
use smt.Proofs.Padding.{HasPadding, decompact_proof-panic}
use smt.Tests.{tiny_hash, program}

-- What `prove` returns for the key 2 of the tree.
abbrev member : SparseMerkleProof
member = record {
  side_nodes =
      (52 ∷ [])
      ∷ (221 ∷ [])
      ∷ (93 ∷ [])
      ∷ (0 ∷ [])
      ∷ (0 ∷ [])
      ∷ (0 ∷ [])
      ∷ (0 ∷ [])
      ∷ (0 ∷ [])
      ∷ [];
  non_membership_leaf_data = none;
  sibling_data = none;
}

abbrev updates_of : Res (Bool × List Update) → List Update
updates_of (ok r) = r.1
updates_of _ = []

abbrev updates : List Update
updates = updates_of (verify_proof_with_updates member (78 ∷ []) (2 ∷ []) (21 ∷ []))

abbrev hashed : List Bytes
hashed = (21 ∷ []) ∷ map (λ u. u.1) updates

hashed-CollisionFree : CollisionFree (Listed hashed)
unfolding program collision_free
hashed-CollisionFree = collision_free-CollisionFree hashed refl

accepted : verify_proof_with_updates member (78 ∷ []) (2 ∷ []) (21 ∷ []) ≡ ok (true, updates)
unfolding program
accepted = refl

verify_proof_unique_example : ◌≡◌ {A = Bytes} (21 ∷ []) (21 ∷ [])
verify_proof_unique_example =
    verify_proof_unique (Listed hashed) (2 ∷ []) (78 ∷ []) (21 ∷ []) (21 ∷ []) member member updates
      updates hashed-CollisionFree (inl refl) (inl refl) (All-Listed ((21 ∷ []) ∷ []) updates)
      (All-Listed ((21 ∷ []) ∷ []) updates) accepted accepted

sane : sanity_check member ≡ true
unfolding program
sane = refl

verify_compact-compact_example : Returns (compact_proof member) λ small.
    verify_compact_proof small (78 ∷ []) (2 ∷ []) (21 ∷ [])
    ≡ verify_proof member (78 ∷ []) (2 ∷ []) (21 ∷ [])
verify_compact-compact_example = verify_compact-compact member (78 ∷ []) (2 ∷ []) (21 ∷ []) sane

decompact-compact_example :
    Returns (compact_proof member) (λ small. decompact_proof small ≡ ok member)
decompact-compact_example = decompact-compact member sane

-- One side node, marked as supplied, with a stray bit behind it in the mask, and none supplied.
abbrev stray : SparseCompactMerkleProof
stray = record {
  side_nodes = [];
  non_membership_leaf_data = none;
  bit_mask = 1 ∷ [];
  num_side_nodes = pos 1;
  sibling_data = none;
}

decompact_proof-panic_example :
    (decompact_proof stray ≡ panic → (compact_sanity_check stray ≡ ok true) × HasPadding stray)
    × ((compact_sanity_check stray ≡ ok true) × HasPadding stray → decompact_proof stray ≡ panic)
decompact_proof-panic_example = decompact_proof-panic stray

decompact-stray : decompact_proof stray ≡ panic
unfolding program decompact_proof
decompact-stray = refl

-- A negative number of side nodes is refused, before a slice of that length is made.
negative_refused :
    decompact_proof (record stray { bit_mask = []; num_side_nodes = negsuc 0 }) ≡ err bad_proof
unfolding program decompact_proof
negative_refused = refl

count_common_prefix-CommonPrefix_example :
    Returns (count_common_prefix (0xf0 ∷ []) (0xf4 ∷ [])) (CommonPrefix (0xf0 ∷ []) (0xf4 ∷ []) 8)
count_common_prefix-CommonPrefix_example =
    count_common_prefix-CommonPrefix (0xf0 ∷ []) (0xf4 ∷ []) refl
