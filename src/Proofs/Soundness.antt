-- ===== src/Proofs/Soundness.antt =====
-- What an accepting run of the verifier of proofs.go shows: two accepted proofs for one key
-- against one root agree on the value.
use smt.Prelude.{
  ◌*◌, ◌≤◌, ◌≡◌, refl, sym, ap, ◌∙◌, true, List, [], ◌∷◌, ◌++◌, length, if◌then◌else◌, arith, All,
  reverse, Option, none, some, Bool-cases, inl, inr, All-append_left, All-append_right,
}
use mathlib.Core.Bool.{false≢true}
use mathlib.Core.Path.{subst}
use smt.Res.{Res, ok}
use smt.Bytes.{Bytes, bytes_equal, bytes_equal_iff, bytes_equal→eq}
use smt.TreeHasher.{Hasher, digest, path, placeholder, leaf_value, digest_leaf}
use smt.TreeHasher.Layout.{parse_leaf-long}
use smt.TreeHasher.Collisions.{CollisionFree}
use smt.Proofs.{
  Update, SparseMerkleProof, sanity_check, start_hash, finish_proof, verify_proof_with_updates,
  leaf_data_fits,
}
use smt.Proofs.Climb.{
  IsHash, fold_down, SeenDown, climb_updates, recompute_root_lem, climb_updates-SeenDown,
  sanity_check-sizes, sanity_check-leaf,
}
use smt.Proofs.Starts.{
  started_of, All-reverse, Start, absent, other, present, fold_down-injective, Start-injective,
}

module _ ⦃h : Hasher⦄ where
  -- An accepting run, read from the root down.
  pub record Accepts (Seen : Bytes → Type 0) (root p value : Bytes) : Type 0 where
    pub nodes : List Bytes
    pub leaf : Bytes
    pub sizes : All IsHash nodes
    pub start : Start Seen p value leaf
    pub seen : SeenDown Seen p 0 nodes leaf
    pub top : fold_down p 0 nodes leaf ≡ root

  module _ (Seen : Bytes → Type 0) where
    single_update :
        (d leaf : Bytes) (updates : List Update)
        → ◌≡◌ {A = Res (Option (Bytes × List Update))}
            (ok (some (digest d, (digest d, d) ∷ [])))
            (ok (some (leaf, updates)))
        → All (λ u. Seen u.1) updates
        → Seen d × (leaf ≡ digest d)
    single_update d leaf updates e seen =
        let listed : (digest d, d) ∷ [] ≡ updates = ground arith in
        ((subst (All (λ u. Seen u.1)) (sym listed) seen).0, ground arith)

    -- What the hash is that the verifier starts from, by the value and the leaf data.
    abbrev pub Begins : Bytes → Option Bytes → Bytes → Type 0
    Begins [] none leaf = leaf ≡ placeholder
    Begins [] (some leaf_data) leaf = (d : Bytes) × Seen d × (leaf ≡ digest d)
    Begins (b ∷ bs) leaf_data leaf = (d : Bytes) × Seen d × (leaf ≡ digest d)

    -- The verifier goes on from leaf data only if the path in it is another one.
    other-Start :
        (p q v leaf : Bytes) (updates : List Update)
        → IsHash q
        → ◌≡◌ {A = Res (Option (Bytes × List Update))}
            (ok (
              if bytes_equal q p
              then none
              else some (digest (leaf_value q v), (digest (leaf_value q v), leaf_value q v) ∷ [])))
            (ok (some (leaf, updates)))
        → All (λ u. Seen u.1) updates
        → Start Seen p [] leaf × ((d : Bytes) × Seen d × (leaf ≡ digest d))
    other-Start p q v leaf updates hq e seen = elim (Bool-cases (bytes_equal q p)) [
      | inl same ↦ ground arith
      | inr differs ↦
          let (s, at_leaf) = single_update (leaf_value q v) leaf updates (rw differs at e) seen in
          (
            other q v (λ n. absurd (false≢true (sym differs ∙ (bytes_equal_iff q p).1 n))) hq s
                at_leaf,
            (leaf_value q v, s, at_leaf),
          )
    ]

    start_hash-Start :
        (p value : Bytes) (leaf_data : Option Bytes) (leaf : Bytes) (updates : List Update)
        → leaf_data_fits leaf_data ≡ true
        → start_hash p value leaf_data ≡ ok (some (leaf, updates))
        → All (λ u. Seen u.1) updates
        → Start Seen p value leaf × Begins value leaf_data leaf
    unfolding start_hash digest_leaf
    start_hash-Start p [] none leaf updates fits e seen = (absent (ground arith), ground arith)
    start_hash-Start p [] (some d) leaf updates fits e seen =
        let (q, v, parsed, hq) = parse_leaf-long d (ground arith) in
        other-Start p q v leaf updates hq (rw parsed at e) seen
    start_hash-Start p (b ∷ bs) leaf_data leaf updates fits e seen =
        let (s, at_leaf) = single_update (leaf_value p (digest (b ∷ bs))) leaf updates e seen in
        (present b bs s at_leaf, (_, s, at_leaf))

    finish_proof-Accepts :
        (p value : Bytes) (leaf_data : Option Bytes) (nodes : List Bytes) (root : Bytes)
        → (start : Option (Bytes × List Update)) (updates : List Update) → All IsHash nodes
        → length nodes ≤ length p * 8
        → finish_proof p nodes root start ≡ ok (true, updates)
        → All (λ u. Seen u.1) updates
        → ((leaf : Bytes) (first : List Update)
            → start ≡ some (leaf, first)
            → All (λ u. Seen u.1) first
            → Start Seen p value leaf × Begins value leaf_data leaf)
        → (a : Accepts Seen root p value) × (a.nodes ≡ reverse nodes)
          × Begins value leaf_data a.leaf
    unfolding finish_proof
    finish_proof-Accepts p value leaf_data nodes root none updates w n e seen begin =
        absurd (ground arith)
    finish_proof-Accepts p value leaf_data nodes root (some (leaf, first)) updates w n e seen
          begin =
        let run = rw (recompute_root_lem p nodes leaf first w n) at e in
        let listed : first ++ climb_updates p nodes leaf ≡ updates = ground arith in
        let all = subst (All (λ u. Seen u.1)) (sym listed) seen in
        let begun = begin leaf first refl (All-append_left _ first _ all) in
        (
          record {
            nodes = reverse nodes;
            leaf = leaf;
            sizes = All-reverse nodes w;
            start = begun.0;
            seen = climb_updates-SeenDown Seen p nodes leaf (All-append_right _ first _ all);
            top = bytes_equal→eq _ root (ground arith);
          },
          refl,
          begun.1,
        )

    pub verify_proof_with_updates-Accepts :
        (proof : SparseMerkleProof) (root key value : Bytes) (updates : List Update)
        → verify_proof_with_updates proof root key value ≡ ok (true, updates)
        → All (λ u. Seen u.1) updates
        → (a : Accepts Seen root (path key) value) × (a.nodes ≡ reverse proof.side_nodes)
          × Begins value proof.non_membership_leaf_data a.leaf
    unfolding verify_proof_with_updates
    verify_proof_with_updates-Accepts proof root key value updates e seen =
        let sane : sanity_check proof ≡ true = ground arith in
        let (sizes, count) = sanity_check-sizes proof sane in
        let (start, finished, started) = started_of _ _ (rw sane at e) in
        finish_proof-Accepts (path key) value proof.non_membership_leaf_data proof.side_nodes root
          start updates sizes (omega (arith, h.length-digest key)) finished seen
          (λ leaf first s.
            start_hash-Start (path key) value proof.non_membership_leaf_data leaf first
              (sanity_check-leaf proof sane) (started ∙ ap ok s))

  -- Two accepted proofs for one key against one root agree on the value, where the hash has no
  -- collision among the values and the data that the two runs hash, and never the zero digest there.
  pub verify_proof_unique :
      (Seen : Bytes → Type 0) (key root : Bytes) (v w : Bytes)
      → (proof proof' : SparseMerkleProof) (updates updates' : List Update) → CollisionFree Seen
      → Seen v
      → Seen w
      → All (λ u. Seen u.1) updates
      → All (λ u. Seen u.1) updates'
      → verify_proof_with_updates proof root key v ≡ ok (true, updates)
      → verify_proof_with_updates proof' root key w ≡ ok (true, updates')
      → v ≡ w
  verify_proof_unique Seen key root v w proof proof' updates updates' free sv sw su su' e e' =
      let a = (verify_proof_with_updates-Accepts Seen proof root key v updates e su).0 in
      let b = (verify_proof_with_updates-Accepts Seen proof' root key w updates' e' su').0 in
      let same =
        fold_down-injective free (path key) 0 a.nodes b.nodes a.start b.start a.sizes b.sizes a.seen
          b.seen (a.top ∙ sym b.top) in
      Start-injective free (h.length-digest key) sv sw a.start
        (subst (Start Seen (path key) w) (sym same) b.start)
