-- ===== src/Trie/Prove.antt =====
-- doProveForRoot of smt.go and the verifier of proofs.go: a proof made from a trie is accepted.
use smt.Prelude.{
  length-reverse, ◌≤◌, ◌≡◌, refl, ap, ◌∙◌, true, Bool-cases, inl, inr, Option, none, some, List, [],
  ◌∷◌, length, if◌then◌else◌, arith, reverse, All, length-append,
}
use mathlib.Core.Option.{get_or}
use mathlib.Core.List.{reverse-reverse}
use smt.Res.{ok}
use smt.Bytes.{Bytes, bytes_equal, bytes_equal_refl, bytes_equal→eq}
use smt.TreeHasher.{Hasher, digest, path, placeholder, leaf_value, digest_leaf}
use smt.TreeHasher.Layout.{parse_leaf-leaf_value}
use smt.MapStore.{MapStore}
use smt.Proofs.{
  Update, SparseMerkleProof, sanity_check, leaf_data_fits, side_nodes_fit, start_hash, finish_proof,
  verify_proof_with_updates, verify_proof,
}
use smt.Proofs.Climb.{IsHash, fold_down, recompute_root_lem}
use smt.Proofs.Starts.{All-reverse}
use smt.Tree.{SparseMerkleTree}
use smt.Tree.Walk.{depth}
use smt.Tree.Api.{unrelated_leaf, do_prove_for_root, prove_for_root, prove}
use smt.Trie.{Trie, leaf, root_hash, find, spine, bottom, data_of, WellFormed, Stored}
use smt.Trie.Walk.{HashKeyed, not_placeholder, root_hash-empty, fill_side_nodes-slices_of}
use smt.Trie.Spine.{
  Bottom, nothing, at_leaf, bottom-Bottom, fold_down-spine, spine-IsHash, length-spine,
  path_nodes-bottom,
}

module _ ⦃h : Hasher⦄ where
  side_nodes_fit-All : (nodes : List Bytes) → All IsHash nodes → side_nodes_fit nodes ≡ true
  side_nodes_fit-All [] w = refl
  side_nodes_fit-All (s ∷ ss) w = ground (arith, side_nodes_fit-All ss w.1)

  -- A proof with no sibling data is checked by sizes alone.
  sanity_check-of_sizes :
      (proof : SparseMerkleProof)
      → All IsHash proof.side_nodes
      → length proof.side_nodes ≤ depth
      → leaf_data_fits proof.non_membership_leaf_data ≡ true
      → proof.sibling_data ≡ none
      → sanity_check proof ≡ true
  unfolding sanity_check
  sanity_check-of_sizes proof w n fits alone =
      rw (alone, fits, side_nodes_fit-All proof.side_nodes w) (ground arith)

  -- The verifier compares the hash folded from the leaf hash with the root.
  verify_proof-fold_down :
      (proof : SparseMerkleProof) (root key value leaf_hash : Bytes) (first : List Update)
      → sanity_check proof ≡ true
      → All IsHash proof.side_nodes
      → length proof.side_nodes ≤ depth
      → start_hash (path key) value proof.non_membership_leaf_data ≡ ok (some (leaf_hash, first))
      → verify_proof proof root key value
        ≡ ok (bytes_equal (fold_down (path key) 0 (reverse proof.side_nodes) leaf_hash) root)
  unfolding verify_proof verify_proof_with_updates finish_proof
  verify_proof-fold_down proof root key value leaf_hash first sane w n started = rw (
    sane,
    started,
    recompute_root_lem (path key) proof.side_nodes leaf_hash first w
        (omega (arith, h.length-digest key)),
  )

  -- The leaf data that a proof shows for a walk that ended at `b`.
  unrelated_of : Bytes → Trie → Option Bytes
  unrelated_of p (leaf q v) = if bytes_equal q p then none else some (leaf_value q (digest v))
  unrelated_of p b = none

  unrelated_of-fits :
      {held : Bytes → Option Bytes} {p : Bytes} {b : Trie} {o : Option Bytes}
      → Bottom held p b o
      → leaf_data_fits (unrelated_of p b) ≡ true
  unfolding unrelated_of leaf_value
  unrelated_of-fits (nothing e f) = rw e
  unrelated_of-fits {p} (at_leaf q v e f len ne st) =
      let size = h.length-digest v in
      rw e (elim (Bool-cases (bytes_equal q p)) [
        | inl same ↦ rw same
        | inr differs ↦ rw differs (ground (arith, length-append q (digest v)))
      ])

  unrelated_leaf_lem :
      {held : Bytes → Option Bytes} {p : Bytes} {b : Trie} {o : Option Bytes} (above : List Bytes)
      → Bottom held p b o
      → unrelated_leaf p (root_hash b ∷ above) (data_of b) ≡ ok (unrelated_of p b)
  unfolding unrelated_leaf unrelated_of
  unrelated_leaf_lem above (nothing e f) = rw e (rw (root_hash-empty, bytes_equal_refl placeholder))
  unrelated_leaf_lem above (at_leaf q v e f len ne st) =
      rw e (rw (not_placeholder _ st.1, parse_leaf-leaf_value q (digest v) len))

  -- With the value that the trie holds, the verifier starts from the hash at the end of the walk.
  start_hash_lem :
      {held : Bytes → Option Bytes} {p : Bytes} {b : Trie} {o : Option Bytes}
      → Bottom held p b o
      → (first : List Update) × (start_hash p (get_or o []) (unrelated_of p b)
          ≡ ok (some (root_hash b, first)))
  unfolding start_hash unrelated_of root_hash digest_leaf
  start_hash_lem (nothing e f) = ([], rw (e, f))
  start_hash_lem {p} (at_leaf q [] e f len ne st) = absurd (ne refl)
  start_hash_lem {p} (at_leaf q (c ∷ cs) e f len ne st) = elim (Bool-cases (bytes_equal q p)) [
    | inl same ↦
        (digest_leaf p (digest (c ∷ cs)) ∷ [], rw (e, f, same) (rw (bytes_equal→eq q p same)))
    | inr differs ↦ (
      digest_leaf q (digest (c ∷ cs)) ∷ [],
      rw (e, f, differs, parse_leaf-leaf_value q (digest (c ∷ cs)) len, differs),
    )
  ]

  abbrev proof_of : Trie → Bytes → SparseMerkleProof
  proof_of t p = record {
    side_nodes = reverse (spine t p 0);
    non_membership_leaf_data = unrelated_of p (bottom t p 0);
    sibling_data = none;
  }

module _ ⦃h : Hasher⦄ {N V : Type 0} ⦃ns : MapStore N⦄ ⦃vs : MapStore V⦄
    (store : HashKeyed ns) where
  module _ (s : SparseMerkleTree N V) (t : Trie) (top : s.root ≡ root_hash t)
      (held : Stored (store.lookup s.nodes) t) (wf : WellFormed 0 t) (key : Bytes) where
    ending : Bottom (store.lookup s.nodes) (path key) (bottom t (path key) 0) (find t (path key) 0)
    ending = bottom-Bottom (store.lookup s.nodes) t (path key) 0 wf held

    prove_for_root-proof_of : prove_for_root key (root_hash t) s ≡ (ok (proof_of t (path key)), s)
    unfolding prove_for_root do_prove_for_root
    prove_for_root-proof_of =
        let (above, e) = path_nodes-bottom t (path key) 0 in
        rw (
          fill_side_nodes-slices_of store s t (path key) (h.length-digest key) held wf,
          e,
          unrelated_leaf_lem above ending,
        )

    prove-proof_of : prove key s ≡ (ok (proof_of t (path key)), s)
    unfolding prove
    prove-proof_of = ap (λ r. prove_for_root key r s) top ∙ prove_for_root-proof_of

    proof_of-accepted :
        verify_proof (proof_of t (path key)) s.root key (get_or (find t (path key) 0) []) ≡ ok true
    proof_of-accepted =
        let p = path key in
        let sides = spine t p 0 in
        let sizes = All-reverse sides (spine-IsHash t p 0) in
        let count : length (reverse sides) ≤ depth =
          omega (arith, length-reverse sides, length-spine t p 0 (omega arith) wf) in
        let (first, started) = start_hash_lem ending in
        verify_proof-fold_down (proof_of t p) s.root key (get_or (find t p 0) []) _ first
          (sanity_check-of_sizes (proof_of t p) sizes count (unrelated_of-fits ending) refl) sizes
          count started
        ∙ rw (reverse-reverse sides, fold_down-spine t p 0, top, bytes_equal_refl (root_hash t))

    -- In a state whose root is the hash of a well-formed trie that the node store holds, Prove succeeds
    -- at every key, changes nothing, and VerifyProof accepts its proof against the root, for the value
    -- that the trie has at the key's path or, where it has none, for the default value.
    pub prove-verify :
        (proof : SparseMerkleProof) × (prove key s ≡ (ok proof, s))
        × (verify_proof proof s.root key (get_or (find t (path key) 0) []) ≡ ok true)
    prove-verify = (proof_of t (path key), prove-proof_of, proof_of-accepted)
