-- ===== src/DeepSubTree/Added.antt =====
-- AddBranch of deepsubtree.go with a proof that the verifier accepts, and GetDescend after it.
use smt.Prelude.{
  ℕ, ◌==◌, ◌&&◌, false, ◌≡◌, ◌≢◌, refl, sym, ap, ◌∙◌, true, Bool-cases, inl, inr, some, List, [],
  length, length-reverse, if◌then◌else◌, arith, All,
}
use mathlib.Core.Path.{subst}
use smt.Res.{Res, ok}
use smt.Bytes.{Bytes, bytes_equal, bytes_equal→eq, bytes_equal_iff, bytes_equal_refl}
use smt.TreeHasher.{Hasher, path, placeholder}
use smt.TreeHasher.Collisions.{CollisionFree}
use smt.MapStore.{MapStore}
use smt.Proofs.{Update, SparseMerkleProof, verify_proof_with_updates}
use smt.Proofs.Climb.{sanity_check-sizes}
use smt.Proofs.Soundness.{verify_proof_with_updates-Accepts}
use smt.Proofs.Digests.{verify_proof_with_updates-IsUpdate}
use smt.Tree.{SparseMerkleTree}
use smt.Tree.Walk.{depth}
use smt.Tree.Api.{default_value}
use smt.DeepSubTree.{set_nodes, set_sibling, set_member, add_branch, descend_loop, get_descend}
use smt.DeepSubTree.Branch.{
  There, Reads, Reads-down, Reads-end, get_value, shows_other, set_nodes_lem, set_sibling_lem,
  All-Keeps, sanity_check-sibling,
}
use smt.Trie.Walk.{HashKeyed}
use smt.Trie.Effects.{Held}
use smt.Trie.Update.Rest.{values_set_lem}

module _ ⦃h : Hasher⦄ {N V : Type 0} ⦃ns : MapStore N⦄ ⦃vs : MapStore V⦄ (nodes : HashKeyed ns)
    (values : HashKeyed vs) (Seen : Bytes → Type 0) (free : CollisionFree Seen)
    (key value : Bytes) where
  abbrev p : Bytes
  p = path key

  -- A value that is not the default is stored at the key's path.
  set_member_lem :
      (s : SparseMerkleTree N V)
      → (s' : SparseMerkleTree N V) × (set_member key value s ≡ (ok tt, s'))
        × (s'.nodes ≡ s.nodes)
        × (s'.root ≡ s.root)
        × (value ≢ [] → values.lookup s'.values p ≡ some value)
        × (value ≡ [] → s'.values ≡ s.values)
  unfolding set_member
  set_member_lem s = elim (Bool-cases (bytes_equal value default_value)) [
    | inl e ↦ (
      s,
      rw e refl,
      refl,
      refl,
      (λ ne. absurd (ne (bytes_equal→eq value default_value e))),
      λ nil. refl,
    )
    | inr e ↦
        let len = h.length-digest key in
        let (s1, run, same, root, now) = values_set_lem nodes values Seen free p value len s in
        (
          s1,
          rw (e, run) refl,
          same,
          root,
          (λ ne. now p len ∙ rw (bytes_equal_refl p) refl),
          λ nil. absurd (ground (arith, e, nil, bytes_equal_iff value [])),
        )
  ]

  adds :
      (proof : SparseMerkleProof) (updates : List Update) (s s1 s2 s3 : SparseMerkleTree N V)
      → verify_proof_with_updates proof s.root key value ≡ ok (true, updates)
      → set_member key value s ≡ (ok tt, s1)
      → set_nodes updates s1 ≡ (ok tt, s2)
      → set_sibling proof.sibling_data proof.side_nodes s2 ≡ (ok tt, s3)
      → add_branch proof key value s ≡ (ok tt, s3)
  unfolding add_branch
  adds proof updates s s1 s2 s3 verified a b c = rw (verified, a, b, c) refl

  descends :
      (s : SparseMerkleTree N V) (root : Bytes) (out : Res Bytes)
      → s.root ≡ root
      → Reads nodes values Seen free p value (h.length-digest key) s out depth 0 root
      → get_descend key s ≡ (out, s)
  unfolding get_descend
  descends s root out e reads =
      ap
        (λ r.
          if bytes_equal r placeholder
          then (ok default_value, s)
          else descend_loop depth (path key) 0 r s)
        e
      ∙ same_run root reads
    where
      same_run :
          (r : Bytes)
          → Reads nodes values Seen free p value (h.length-digest key) s out depth 0 r
          → ◌≡◌ {A = Res Bytes × SparseMerkleTree N V}
              (if bytes_equal r placeholder
                then (ok default_value, s)
                else descend_loop depth (path key) 0 r s)
              (out, s)
      same_run r reads = elim (Bool-cases (bytes_equal r placeholder)) [
        | inl a ↦ rw a (rw a at reads)
        | inr a ↦ rw a (rw a at reads)
      ]

  -- If the verifier accepts a proof against the tree's root, and the data of its updates and of the
  -- sibling are among data without collisions, then `add_branch` succeeds, keeps the root and loses
  -- no such data that was held; after it `get_descend` of the key returns the value that was proved,
  -- except where the proof shows another key's leaf below as many side nodes as a path has bits:
  -- there it returns what the value store had at the key's path before, or its error.
  pub add_branch-get_descend :
      (proof : SparseMerkleProof) (updates : List Update) (s : SparseMerkleTree N V)
      → verify_proof_with_updates proof s.root key value ≡ ok (true, updates)
      → All (λ u. Seen u.1) updates
      → ((d : Bytes) → proof.sibling_data ≡ some d → Seen d)
      → (s' : SparseMerkleTree N V) × (add_branch proof key value s ≡ (ok tt, s'))
        × (s'.root ≡ s.root)
        × ((d : Bytes) → Seen d → Held nodes s.nodes d → Held nodes s'.nodes d)
        × (get_descend key s' ≡ (
          if length proof.side_nodes == depth && shows_other value proof.non_membership_leaf_data
              then vs.get s.values (path key)
              else ok value,
          s',
        ))
  add_branch-get_descend proof updates s verified seen sibling_seen =
      let len = h.length-digest key in
      let (sane, are) =
        verify_proof_with_updates-IsUpdate proof s.root key value updates verified in
      let (s1, run1, same, root1, stored, kept) = set_member_lem s in
      let (s2, run2, all, k2) =
        set_nodes_lem nodes values Seen free p value len updates s1 are seen in
      let (s3, run3, k3) =
        set_sibling_lem nodes values Seen free p value len proof.sibling_data proof.side_nodes s2
          (λ d v rest at sides.
            (sanity_check-sibling proof d v rest sane at sides, sibling_seen d at)) in
      let here = All-Keeps nodes values Seen free p value len updates s2 s3 k3 all in
      let (a, given, begun) =
        verify_proof_with_updates-Accepts (There nodes values Seen free p value len s3) proof s.root
          key value updates verified here in
      let few = (sanity_check-sizes proof sane).1 in
      let count : length a.nodes ≡ length proof.side_nodes =
        ap length given ∙ length-reverse proof.side_nodes in
      let there =
        λ (ne : value ≢ []). ap (λ n. values.lookup n p) (k3.values ∙ k2.values) ∙ stored ne in
      let root = k3.root ∙ k2.root ∙ root1 in
      let at_end = λ (j : ℕ).
        Reads-end nodes values Seen free p value len s3 there (vs.get s.values p) value
          proof.non_membership_leaf_data j a.leaf
          (λ nil. ap (λ n. vs.get n p) (k3.values ∙ k2.values ∙ kept nil))
          (get_value nodes values Seen free p value len s3 there) begun in
      (
        s3,
        adds proof updates s s1 s2 s3 verified run1 run2 run3,
        root,
        (λ d sd was. k3.held d sd (k2.held d sd (subst (λ n. Held nodes n d) (sym same) was))),
        descends s3 _ _ (root ∙ sym a.top) (
            Reads-down nodes values Seen free p value len s3 there _ a.nodes a.leaf 0 depth
              (omega arith) (omega (arith, count, few))
              (λ lt.
                let off : (length proof.side_nodes == depth) ≡ false = ground (arith, lt, count) in
                rw off refl)
              (λ full j.
                let on : (length proof.side_nodes == depth) ≡ true = ground (arith, full, count) in
                rw on (at_end j))
              a.sizes a.start a.seen),
      )
