-- ===== src/Proofs/Supplied.antt =====
-- DecompactProof of proofs.go: its sanity check in numbers, and the supplied side nodes that its loop
-- takes.
use smt.Prelude.{
  ℕ, zero, suc, ◌+◌, ◌*◌, ◌≤◌, ◌<◌, ◌≡◌, ◌↔◌, refl, ap, true, false, List, [], ◌∷◌, length, ◌==◌,
  arith, Bool-cases, inl, inr, ◌⊎◌, get_or,
}
use native.Mathlib.Decide.{dec_lt}
use smt.Int.{pos, ℤ-cases}
use smt.Res.{bad_proof, ok, err, panic, ◌>>=◌, Returns}
use smt.Bytes.{Bytes, index, index-get_or}
use smt.Utils.Bits.{bit, bit-le, get_bit_at_from_msb_lem}
use smt.Utils.Count.{ones, ones-le, count_set_bits-ones}
use smt.TreeHasher.{Hasher, placeholder, path_size}
use smt.Proofs.{
  SparseCompactMerkleProof, compact_sanity_check, decompact_loop, decompact_proof, ceil_div8,
}

bit-cases : (bytes : Bytes) (i : ℕ) → (bit bytes i ≡ 0) ⊎ (bit bytes i ≡ 1)
bit-cases bytes i = elim (Bool-cases (bit bytes i == 1)) [
  | inl e ↦ inr (ground arith)
  | inr e ↦ inl (ground (arith, bit-le bytes i))
]

index_past {ℓ} : {A : Type ℓ} (xs : List A) (i : ℕ) → length xs ≤ i → index xs i ≡ panic
unfolding index
index_past [] i h = refl
index_past (x ∷ xs) zero h = absurd (omega arith)
index_past (x ∷ xs) (suc i) h = index_past xs i (omega arith)

module _ ⦃h : Hasher⦄ where
  -- What the compact checks ask for, in numbers.
  pub record CompactSane (proof : SparseCompactMerkleProof) : Type 0 where
    pub count : ℕ
    pub is_count : proof.num_side_nodes ≡ pos count
    pub depth : count ≤ path_size * 8
    pub mask : length proof.bit_mask ≡ ceil_div8 count
    pub supplied :
        0 < count
        → length proof.side_nodes + ones proof.bit_mask 0 (length proof.bit_mask * 8) ≡ count

  pub compact_sanity_check-CompactSane :
      (proof : SparseCompactMerkleProof)
      → (compact_sanity_check proof ≡ ok true) ↔ CompactSane proof
  unfolding compact_sanity_check
  compact_sanity_check-CompactSane proof = rw (count_set_bits-ones proof.bit_mask) (
    (λ e. elim (ℤ-cases proof.num_side_nodes) [
      | inl (n, is) ↦
          let checks = rw is at e in
          record {
            count = n;
            is_count = is;
            depth = ground (arith, checks);
            mask = ground (arith, checks);
            supplied = λ lt. ground (arith, checks);
          }
      | inr (n, is) ↦ let checks = rw is at e in absurd (ground (arith, checks))
    ]),
    (λ s. rw s.is_count (ground (arith, s.supplied, s.depth, s.mask))),
  )

  pub compact_sanity_check-total :
      (proof : SparseCompactMerkleProof) → Returns (compact_sanity_check proof) (λ _. Unit {0})
  unfolding compact_sanity_check
  compact_sanity_check-total proof = rw (count_set_bits-ones proof.bit_mask) (_, refl, tt)

  -- One round of the loop, at a set bit and at a clear one.
  pub decompact_loop_set :
      (n : ℕ) (bit_mask : Bytes) (nodes : List Bytes) (i position : ℕ)
      → i < length bit_mask * 8
      → bit bit_mask i ≡ 1
      → decompact_loop (suc n) bit_mask nodes i position
        ≡ decompact_loop n bit_mask nodes (i + 1) position >>= λ rest. ok (placeholder ∷ rest)
  unfolding decompact_loop
  decompact_loop_set n bit_mask nodes i position w e = rw (get_bit_at_from_msb_lem bit_mask i w, e)

  pub decompact_loop_clear :
      (n : ℕ) (bit_mask : Bytes) (nodes : List Bytes) (i position : ℕ)
      → i < length bit_mask * 8
      → bit bit_mask i ≡ 0
      → decompact_loop (suc n) bit_mask nodes i position
        ≡ index nodes position >>= λ node.
            decompact_loop n bit_mask nodes (i + 1) (position + 1) >>= λ rest. ok (node ∷ rest)
  unfolding decompact_loop
  decompact_loop_clear n bit_mask nodes i position w e =
      rw (get_bit_at_from_msb_lem bit_mask i w, e)

  -- The loop takes one supplied node for each clear bit, and panics when they run out.
  pub decompact_loop-short :
      (n : ℕ) (bit_mask : Bytes) (nodes : List Bytes) (i position : ℕ)
      → i + n ≤ length bit_mask * 8
      → length nodes + ones bit_mask i n < position + n
      → position ≤ length nodes
      → decompact_loop n bit_mask nodes i position ≡ panic
  unfolding ones
  decompact_loop-short zero bit_mask nodes i position w few p = absurd (omega arith)
  decompact_loop-short (suc n) bit_mask nodes i position w few p = elim (bit-cases bit_mask i) [
    | inl clear ↦ elim (dec_lt position (length nodes)) [
      | yes there ↦ rw (
        decompact_loop_clear n bit_mask nodes i position (omega arith) clear,
        index-get_or nodes position [] there,
        decompact_loop-short n bit_mask nodes (i + 1) (position + 1) (omega arith) (omega arith)
            (omega arith),
      )
      | no past ↦ rw (
        decompact_loop_clear n bit_mask nodes i position (omega arith) clear,
        index_past nodes position (omega arith),
      )
    ]
    | inr set ↦ rw (
      decompact_loop_set n bit_mask nodes i position (omega arith) set,
      decompact_loop-short n bit_mask nodes (i + 1) position (omega arith) (omega arith) p,
    )
  ]

  pub decompact_loop-enough :
      (n : ℕ) (bit_mask : Bytes) (nodes : List Bytes) (i position : ℕ)
      → i + n ≤ length bit_mask * 8
      → position + n ≤ length nodes + ones bit_mask i n
      → Returns (decompact_loop n bit_mask nodes i position) (λ all. length all ≡ n)
  unfolding ones
  decompact_loop-enough zero bit_mask nodes i position w many =
      unfold decompact_loop in ([], refl, refl)
  decompact_loop-enough (suc n) bit_mask nodes i position w many = elim (bit-cases bit_mask i) [
    | inl clear ↦
        let (all, run, len) =
          decompact_loop-enough n bit_mask nodes (i + 1) (position + 1) (omega arith)
            (omega arith) in
        (
          get_or nodes position [] ∷ all,
          rw (
            decompact_loop_clear n bit_mask nodes i position (omega arith) clear,
            index-get_or nodes position [] (omega (arith, ones-le bit_mask (i + 1) n)),
            run,
          ),
          ap suc len,
        )
    | inr set ↦
        let (all, run, len) =
          decompact_loop-enough n bit_mask nodes (i + 1) position (omega arith) (omega arith) in
        (
          placeholder ∷ all,
          rw (decompact_loop_set n bit_mask nodes i position (omega arith) set, run),
          ap suc len,
        )
  ]

  pub decompact_sane :
      (proof : SparseCompactMerkleProof)
      → compact_sanity_check proof ≡ ok true
      → (n : ℕ) → proof.num_side_nodes ≡ pos n
      → decompact_proof proof
        ≡ decompact_loop n proof.bit_mask proof.side_nodes 0 0 >>= λ nodes. ok (record {
          side_nodes = nodes;
          non_membership_leaf_data = proof.non_membership_leaf_data;
          sibling_data = proof.sibling_data;
        })
  unfolding decompact_proof
  decompact_sane proof e n is = rw (e, is)

  -- A proof that fails its own check is refused.
  pub decompact_proof-refused :
      (proof : SparseCompactMerkleProof)
      → compact_sanity_check proof ≡ ok false
      → decompact_proof proof ≡ err bad_proof
  unfolding decompact_proof
  decompact_proof-refused proof e = rw e
