-- ===== src/Proofs/Digests.antt =====
-- The updates that the verifier of proofs.go returns are data with their digests.
use smt.Prelude.{
  ◌*◌, ◌≤◌, ◌≡◌, refl, ap, ◌∙◌, true, Bool-cases, inl, inr, Option, none, some, List, [], ◌∷◌, ◌++◌,
  length, if◌then◌else◌, arith, All, All-append,
}
use mathlib.Core.Path.{subst}
use smt.Res.{Res, ok}
use smt.Bytes.{Bytes, bytes_equal}
use smt.Utils.Bits.{bit}
use smt.TreeHasher.{Hasher, digest, path, leaf_value, digest_leaf}
use smt.TreeHasher.Layout.{parse_leaf-long}
use smt.Proofs.{
  Update, SparseMerkleProof, sanity_check, start_hash, finish_proof, verify_proof_with_updates,
  leaf_data_fits,
}
use smt.Proofs.Climb.{
  IsHash, climb_updates, recompute_root_lem, sanity_check-sizes, sanity_check-leaf,
}
use smt.Proofs.Starts.{started_of, join-digest}

module _ ⦃h : Hasher⦄ where
  abbrev pub IsUpdate : Update → Type 0
  IsUpdate u = u.0 ≡ digest u.1

  climb_updates-IsUpdate :
      (p : Bytes) (nodes : List Bytes) (current : Bytes)
      → All IsUpdate (climb_updates p nodes current)
  unfolding climb_updates
  climb_updates-IsUpdate p [] current = tt
  climb_updates-IsUpdate p (s ∷ rest) current =
      (join-digest (bit p (length rest)) s current, climb_updates-IsUpdate p rest _)

  single-IsUpdate :
      (d leaf : Bytes) (updates : List Update)
      → ◌≡◌ {A = Res (Option (Bytes × List Update))}
          (ok (some (digest d, (digest d, d) ∷ [])))
          (ok (some (leaf, updates)))
      → All IsUpdate updates
  single-IsUpdate d leaf updates e =
      let listed : (digest d, d) ∷ [] ≡ updates = ground arith in
      subst (All IsUpdate) listed (refl, tt)

  other-IsUpdate :
      (p q v leaf : Bytes) (updates : List Update)
      → ◌≡◌ {A = Res (Option (Bytes × List Update))}
          (ok (
            if bytes_equal q p
            then none
            else some (digest (leaf_value q v), (digest (leaf_value q v), leaf_value q v) ∷ [])))
          (ok (some (leaf, updates)))
      → All IsUpdate updates
  other-IsUpdate p q v leaf updates e = elim (Bool-cases (bytes_equal q p)) [
    | inl same ↦ ground arith
    | inr differs ↦ single-IsUpdate (leaf_value q v) leaf updates (rw differs at e)
  ]

  start_hash-IsUpdate :
      (p value : Bytes) (leaf_data : Option Bytes) (leaf : Bytes) (updates : List Update)
      → leaf_data_fits leaf_data ≡ true
      → start_hash p value leaf_data ≡ ok (some (leaf, updates))
      → All IsUpdate updates
  unfolding start_hash digest_leaf
  start_hash-IsUpdate p [] none leaf updates fits e =
      let listed : [] ≡ updates = ground arith in subst (All IsUpdate) listed tt
  start_hash-IsUpdate p [] (some d) leaf updates fits e =
      let (q, v, parsed, hq) = parse_leaf-long d (ground arith) in
      other-IsUpdate p q v leaf updates (rw parsed at e)
  start_hash-IsUpdate p (b ∷ bs) leaf_data leaf updates fits e =
      single-IsUpdate (leaf_value p (digest (b ∷ bs))) leaf updates e

  finish_proof-IsUpdate :
      (p : Bytes) (nodes : List Bytes) (root : Bytes) (start : Option (Bytes × List Update))
      → (updates : List Update) → All IsHash nodes
      → length nodes ≤ length p * 8
      → finish_proof p nodes root start ≡ ok (true, updates)
      → ((leaf : Bytes) (first : List Update) → start ≡ some (leaf, first) → All IsUpdate first)
      → All IsUpdate updates
  unfolding finish_proof
  finish_proof-IsUpdate p nodes root none updates w n e begin = absurd (ground arith)
  finish_proof-IsUpdate p nodes root (some (leaf, first)) updates w n e begin =
      let run = rw (recompute_root_lem p nodes leaf first w n) at e in
      let listed : first ++ climb_updates p nodes leaf ≡ updates = ground arith in
      subst (All IsUpdate) listed
        (All-append IsUpdate first _ (begin leaf first refl) (climb_updates-IsUpdate p nodes leaf))

  pub verify_proof_with_updates-IsUpdate :
      (proof : SparseMerkleProof) (root key value : Bytes) (updates : List Update)
      → verify_proof_with_updates proof root key value ≡ ok (true, updates)
      → (sanity_check proof ≡ true) × All IsUpdate updates
  unfolding verify_proof_with_updates
  verify_proof_with_updates-IsUpdate proof root key value updates e =
      let sane : sanity_check proof ≡ true = ground arith in
      let (sizes, count) = sanity_check-sizes proof sane in
      let (start, finished, started) = started_of _ _ (rw sane at e) in
      (
        sane,
        finish_proof-IsUpdate (path key) proof.side_nodes root start updates sizes
            (omega (arith, h.length-digest key, count)) finished
            (λ leaf first s.
              start_hash-IsUpdate (path key) value proof.non_membership_leaf_data leaf first
                (sanity_check-leaf proof sane) (started ∙ ap ok s)),
      )
