-- ===== src/Proofs/Padding.antt =====
-- DecompactProof of proofs.go: when its index into the supplied side nodes is out of range.
use smt.Prelude.{
  ℕ, ◌+◌, ◌-◌, ◌*◌, ◌≤◌, ◌<◌, ◌≡◌, ◌≢◌, ◌↔◌, sym, ap, ◌∙◌, true, false, length, arith, inl, inr,
  ◌⊎◌,
}
use native.Mathlib.Decide.{dec_lt}
use native.Mathlib.Nat.{zero-add}
use smt.Int.{pos}
use smt.Res.{Error, Res, ok, err, panic, Returns}
use smt.Utils.Bits.{bit}
use smt.Utils.Count.{ones, ones-add, ones-pos, pos-ones}
use smt.TreeHasher.{Hasher}
use smt.Proofs.{SparseCompactMerkleProof, compact_sanity_check, decompact_loop, decompact_proof}
use smt.Proofs.Supplied.{
  CompactSane, compact_sanity_check-CompactSane, compact_sanity_check-total, decompact_loop-short,
  decompact_loop-enough, decompact_sane, decompact_proof-refused,
}

ok-ne-panic {ℓ} : {A : Type ℓ} {a : A} → ok a ≢ panic
ok-ne-panic e = cc

err-ne-panic {ℓ} : {A : Type ℓ} {e : Error} → ◌≢◌ {A = Res A} (err e) panic
err-ne-panic e = cc

module _ ⦃h : Hasher⦄ where
  -- A compact proof's mask has a set bit behind its last side node.
  abbrev pub HasPadding : SparseCompactMerkleProof → Type 0
  HasPadding proof =
      (n : ℕ) × (k : ℕ) × (proof.num_side_nodes ≡ pos n)
      × (n ≤ k)
      × (k < length proof.bit_mask * 8)
      × (bit proof.bit_mask k ≡ 1)

  module _ (proof : SparseCompactMerkleProof) (sane : CompactSane proof) where
    fits : sane.count ≤ length proof.bit_mask * 8
    fits = omega (arith, sane.mask)

    -- Set bits in all, split at the number of side nodes.
    split :
        ones proof.bit_mask 0 (length proof.bit_mask * 8)
        ≡ ones proof.bit_mask 0 sane.count
          + ones proof.bit_mask sane.count (length proof.bit_mask * 8 - sane.count)
    split =
        let whole : length proof.bit_mask * 8
            ≡ sane.count + (length proof.bit_mask * 8 - sane.count) =
          omega (arith, fits) in
        ap (ones proof.bit_mask 0) whole ∙ ones-add proof.bit_mask 0 _ _ ∙ rw zero-add

    decompact_loop-panic :
        HasPadding proof → decompact_loop sane.count proof.bit_mask proof.side_nodes 0 0 ≡ panic
    decompact_loop-panic (n, k, is, lo', hi, e) =
        let same : pos n ≡ pos sane.count = sym is ∙ sane.is_count in
        let lo : sane.count ≤ k = ground (arith, same, lo') in
        let extra =
          pos-ones proof.bit_mask sane.count (length proof.bit_mask * 8 - sane.count) k lo
            (omega (arith, fits)) e in
        decompact_loop-short sane.count proof.bit_mask proof.side_nodes 0 0 (omega (arith, fits))
          (omega (arith, sane.supplied (omega (arith, sane.mask)), split, extra)) (omega arith)

    HasPadding-cases :
        HasPadding proof
        ⊎ (ones proof.bit_mask sane.count (length proof.bit_mask * 8 - sane.count) ≡ 0)
    HasPadding-cases =
        let n = length proof.bit_mask * 8 - sane.count in
        elim (dec_lt 0 (ones proof.bit_mask sane.count n)) [
          | yes some_set ↦
              let (k, lo, hi, e) = ones-pos proof.bit_mask sane.count n some_set in
              inl (sane.count, k, sane.is_count, lo, omega (arith, fits), e)
          | no none_set ↦ inr (omega arith)
        ]

    decompact_loop-full :
        ones proof.bit_mask sane.count (length proof.bit_mask * 8 - sane.count) ≡ 0
        → Returns
            (decompact_loop sane.count proof.bit_mask proof.side_nodes 0 0)
            (λ all. length all ≡ sane.count)
    decompact_loop-full clear =
        decompact_loop-enough sane.count proof.bit_mask proof.side_nodes 0 0 (omega (arith, fits))
          (elim (dec_lt 0 sane.count) [
            | yes some_node ↦ omega (arith, sane.supplied some_node, split)
            | no empty ↦ omega arith
          ])

  -- Whatever integer the number of side nodes is, `decompact_proof` panics on exactly the proofs
  -- that pass its own check and have a bit of the mask set behind their last side node.
  pub decompact_proof-panic :
      (proof : SparseCompactMerkleProof)
      → (decompact_proof proof ≡ panic)
        ↔ ((compact_sanity_check proof ≡ ok true) × HasPadding proof)
  decompact_proof-panic proof = (forward (compact_sanity_check-total proof), backward)
    where
      checked :
          compact_sanity_check proof ≡ ok true → decompact_proof proof ≡ panic → HasPadding proof
      checked e fails =
          let sane = (compact_sanity_check-CompactSane proof).0 e in
          elim (HasPadding-cases proof sane) [
            | inl padded ↦ padded
            | inr clear ↦
                let (all, run, _) = decompact_loop-full proof sane clear in
                absurd
                  (ok-ne-panic (rw (decompact_sane proof e sane.count sane.is_count, run) at fails))
          ]

      forward :
          Returns (compact_sanity_check proof) (λ _. Unit {0})
          → decompact_proof proof ≡ panic
          → (compact_sanity_check proof ≡ ok true) × HasPadding proof
      forward (true, e, _) fails = (e, checked e fails)
      forward (false, e, _) fails =
          absurd (err-ne-panic (rw (decompact_proof-refused proof e) at fails))

      backward :
          (compact_sanity_check proof ≡ ok true) × HasPadding proof → decompact_proof proof ≡ panic
      backward (e, padded) =
          let sane = (compact_sanity_check-CompactSane proof).0 e in
          rw (
            decompact_sane proof e sane.count sane.is_count,
            decompact_loop-panic proof sane padded,
          )
