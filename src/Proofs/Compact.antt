-- ===== src/Proofs/Compact.antt =====
-- CompactProof and DecompactProof of proofs.go: the round trip.
use smt.Prelude.{
  ℕ, ◌+◌, ◌-◌, ◌*◌, ◌≤◌, ◌<◌, ◌≡◌, refl, sym, ap, ◌∙◌, true, false, List, [], ◌∷◌, ◌++◌, length,
  if◌then◌else◌, arith, Bool-cases, inl, inr, All, length-append, replicate, length-replicate,
}
use mathlib.Core.List.{append_assoc, append-nil}
use smt.Int.{pos}
use smt.Res.{ok, Returns}
use smt.Bytes.{Bytes, IsByte, index-append, copy_into_lem, bytes_equal, bytes_equal→eq}
use smt.Utils.{empty_bytes}
use smt.Utils.Bits.{bit, set_bit_at_from_msb_lem, bit-replicate, replicate-IsByte}
use smt.Utils.Count.{ones, ones-add, ones-clear}
use smt.TreeHasher.{Hasher, placeholder, path_size}
use smt.Proofs.{
  SparseCompactMerkleProof, SparseMerkleProof, sanity_check, compact_loop, compact_proof,
  decompact_loop, decompact_proof, ceil_div8, verify_proof, verify_compact_proof,
}
use smt.Proofs.Climb.{IsHash, sanity_check-sizes}
use smt.Proofs.Supplied.{
  CompactSane, compact_sanity_check-CompactSane, decompact_loop_set, decompact_loop_clear,
  decompact_sane,
}

module _ ⦃h : Hasher⦄ where
  -- The side nodes that the compact form carries.
  kept : List Bytes → List Bytes
  kept [] = []
  kept (s ∷ ss) = if bytes_equal s placeholder then kept ss else s ∷ kept ss

  kept-placeholder :
      (s : Bytes) (ss : List Bytes) → bytes_equal s placeholder ≡ true → kept (s ∷ ss) ≡ kept ss
  unfolding kept
  kept-placeholder s ss e = rw e

  kept_other :
      (s : Bytes) (ss : List Bytes)
      → bytes_equal s placeholder ≡ false
      → kept (s ∷ ss) ≡ s ∷ kept ss
  unfolding kept
  kept_other s ss e = rw e

  -- From position `i` on, the mask marks the placeholders of the list.
  abbrev Marks : Bytes → ℕ → List Bytes → Type 0
  Marks mask i [] = Unit {0}
  Marks mask i (s ∷ ss) =
      (bit mask i ≡ (if bytes_equal s placeholder then 1 else 0)) × Marks mask (i + 1) ss

  record Compacted (ss acc : List Bytes) (i : ℕ) (mask : Bytes) (r : Bytes × List Bytes)
      : Type 0 where
    width : length r.0 ≡ length mask
    nodes : r.1 ≡ acc ++ kept ss
    below : (j : ℕ) → j < i → bit r.0 j ≡ bit mask j
    marks : Marks r.0 i ss
    above : (j : ℕ) → i + length ss ≤ j → bit r.0 j ≡ 0

  compact_loop-Compacted :
      (ss acc : List Bytes) (i : ℕ) (mask : Bytes)
      → All IsHash ss
      → All IsByte mask
      → i + length ss ≤ length mask * 8
      → ((j : ℕ) → i ≤ j → bit mask j ≡ 0)
      → Returns (compact_loop i ss mask acc) (Compacted ss acc i mask)
  unfolding compact_loop kept
  compact_loop-Compacted [] acc i mask w hb n clear = (
    (mask, acc),
    refl,
    record {
      width = refl;
      nodes = sym (append-nil acc);
      below = λ j lt. refl;
      marks = tt;
      above = λ j le. clear j (omega arith);
    },
  )
  compact_loop-Compacted (s ∷ ss) acc i mask w hb n clear =
      elim (Bool-cases (bytes_equal s placeholder)) [
        | inl empty ↦
            let (marked, run, len, hb', bits) = set_bit_at_from_msb_lem mask i hb (omega arith) in
            let (r, rest, c) =
              compact_loop-Compacted ss acc (i + 1) marked w.1 hb' (rw len (omega arith))
                (λ j le. bits j ∙ ground (arith, clear j)) in
            (
              r,
              rw (copy_into_lem path_size s w.0, empty, run) rest,
              record {
                width = c.width ∙ len;
                nodes = rw empty c.nodes;
                below = λ j lt. c.below j (omega arith) ∙ bits j ∙ ground arith;
                marks = (rw empty (c.below i (omega arith) ∙ bits i ∙ ground arith), c.marks);
                above = λ j le. c.above j (omega arith);
              },
            )
        | inr full ↦
            let (r, rest, c) =
              compact_loop-Compacted ss (acc ++ s ∷ []) (i + 1) mask w.1 hb (omega arith)
                (λ j le. clear j (omega arith)) in
            (
              r,
              rw (copy_into_lem path_size s w.0, full) rest,
              record {
                width = c.width;
                nodes = rw full (c.nodes ∙ append_assoc acc (s ∷ []) (kept ss));
                below = λ j lt. c.below j (omega arith);
                marks = (rw full (c.below i (omega arith) ∙ clear i (omega arith)), c.marks);
                above = λ j le. c.above j (omega arith);
              },
            )
      ]

  length-kept :
      (ss : List Bytes) (i : ℕ) (mask : Bytes)
      → Marks mask i ss
      → length (kept ss) + ones mask i (length ss) ≡ length ss
  unfolding kept ones
  length-kept [] i mask m = omega arith
  length-kept (s ∷ ss) i mask m = ground (arith, length-kept ss (i + 1) mask m.1)

  decompact_loop-kept :
      (ss before : List Bytes) (i : ℕ) (mask : Bytes)
      → Marks mask i ss
      → i + length ss ≤ length mask * 8
      → decompact_loop (length ss) mask (before ++ kept ss) i (length before) ≡ ok ss
  decompact_loop-kept [] before i mask m n = unfold decompact_loop in refl
  decompact_loop-kept (s ∷ ss) before i mask m n = elim (Bool-cases (bytes_equal s placeholder)) [
    | inl empty ↦
        let skip = kept-placeholder s ss empty in
        rw
          (
            decompact_loop_set (length ss) mask (before ++ kept (s ∷ ss)) i (length before)
                (omega arith) (m.0 ∙ rw empty),
            skip,
            decompact_loop-kept ss before (i + 1) mask m.1 (omega arith),
          )
          (ap (λ (x : Bytes). ok (x ∷ ss)) (sym (bytes_equal→eq s placeholder empty)))
    | inr full ↦
        let keep = kept_other s ss full in
        let rest =
          rw (append_assoc before (s ∷ []) (kept ss), length-append before (s ∷ [])) at
            (decompact_loop-kept ss (before ++ s ∷ []) (i + 1) mask m.1 (omega arith)) in
        rw (
          decompact_loop_clear (length ss) mask (before ++ kept (s ∷ ss)) i (length before)
              (omega arith) (m.0 ∙ rw full),
          keep,
          index-append before (kept ss) s,
          rest,
        )
  ]

  abbrev compact_form : SparseMerkleProof → Bytes × List Bytes → SparseCompactMerkleProof
  compact_form proof r = record {
    side_nodes = r.1;
    non_membership_leaf_data = proof.non_membership_leaf_data;
    bit_mask = r.0;
    num_side_nodes = pos (length proof.side_nodes);
    sibling_data = proof.sibling_data;
  }

  module _ (proof : SparseMerkleProof) (mask : Bytes)
      (width : length mask ≡ ceil_div8 (length proof.side_nodes))
      (depth : length proof.side_nodes ≤ path_size * 8) (r : Bytes × List Bytes)
      (c : Compacted proof.side_nodes [] 0 mask r) where
    all_ones : ones r.0 0 (length r.0 * 8) ≡ ones r.0 0 (length proof.side_nodes)
    all_ones =
        let n = length proof.side_nodes in
        let whole : length r.0 * 8 ≡ n + (length r.0 * 8 - n) = omega (arith, width, c.width) in
        ap (ones r.0 0) whole
        ∙ ones-add r.0 0 n (length r.0 * 8 - n)
        ∙ omega (arith, ones-clear r.0 (0 + n) (length r.0 * 8 - n) c.above)

    compact_form-CompactSane : CompactSane (compact_form proof r)
    compact_form-CompactSane = record {
      count = length proof.side_nodes;
      is_count = refl;
      depth = depth;
      mask = c.width ∙ width;
      supplied =
          λ _. rw c.nodes (omega (arith, all_ones, length-kept proof.side_nodes 0 r.0 c.marks));
    }

    decompact-compact_form : decompact_proof (compact_form proof r) ≡ ok proof
    decompact-compact_form =
        let sane =
          (compact_sanity_check-CompactSane (compact_form proof r)).1 compact_form-CompactSane in
        rw (
          decompact_sane (compact_form proof r) sane (length proof.side_nodes) refl,
          c.nodes,
          decompact_loop-kept proof.side_nodes [] 0 r.0 c.marks (omega (arith, width, c.width)),
        )

  -- CompactProof of a proof that passes the sanity check succeeds, and DecompactProof of its result
  -- gives back that very proof.
  pub decompact-compact :
      (proof : SparseMerkleProof)
      → sanity_check proof ≡ true
      → Returns (compact_proof proof) (λ small. decompact_proof small ≡ ok proof)
  unfolding compact_proof empty_bytes
  decompact-compact proof sane =
      let mask : Bytes = replicate (ceil_div8 (length proof.side_nodes)) 0 in
      let (sizes, count) = sanity_check-sizes proof sane in
      let width : length mask ≡ ceil_div8 (length proof.side_nodes) =
        length-replicate (ceil_div8 (length proof.side_nodes)) 0 in
      let (r, run, c) =
        compact_loop-Compacted proof.side_nodes [] 0 mask sizes
          (replicate-IsByte (ceil_div8 (length proof.side_nodes))) (omega (arith, width))
          (λ j le. bit-replicate (ceil_div8 (length proof.side_nodes)) j) in
      (compact_form proof r, rw (sane, run), decompact-compact_form proof mask width count r c)

  -- CompactProof of a proof that passes the sanity check succeeds, and VerifyCompactProof of its result
  -- answers as VerifyProof of the proof, for every root, key and value.
  pub verify_compact-compact :
      (proof : SparseMerkleProof) (root key value : Bytes)
      → sanity_check proof ≡ true
      → Returns
          (compact_proof proof)
          (λ small. verify_compact_proof small root key value ≡ verify_proof proof root key value)
  unfolding verify_compact_proof
  verify_compact-compact proof root key value sane =
      let (small, run, back) = decompact-compact proof sane in (small, run, rw back)
