-- ===== src/Proofs.antt =====
-- proofs.go: Merkle proofs, their verification, and the compact form.
pub mod Climb
pub mod Starts
pub mod Soundness
pub mod Digests
pub mod Compact
pub mod Supplied
pub mod Padding
use smt.Prelude.{
  ℕ, zero, suc, ◌+◌, ◌-◌, ◌*◌, ◌/◌, ◌≡◌, Bool, true, false, not, ◌&&◌, ◌||◌, Option, none, some,
  List, [], ◌∷◌, ◌++◌, length, ◌==◌, ltb, if◌then◌else◌,
}
use smt.Int.{ℤ, pos, negsuc, sub_ℕ, ◌-ℤ◌, ltb_ℤ, eqb_ℤ}
use smt.Res.{Res, ok, err, panic, Error, bad_proof, ◌>>=◌}
use smt.Bytes.{Bytes, bytes_equal, index, copy_into}
use smt.Utils.{get_bit_at_from_msb, set_bit_at_from_msb, count_set_bits, empty_bytes}
use smt.TreeHasher.{
  Hasher, digest, path, path_size, placeholder, digest_leaf, digest_node, parse_leaf,
}

-- A nil slice is `none` where the code tells it from an empty one.
pub record SparseMerkleProof : Type 0 where
  pub side_nodes : List Bytes
  pub non_membership_leaf_data : Option Bytes
  pub sibling_data : Option Bytes

pub record SparseCompactMerkleProof : Type 0 where
  pub side_nodes : List Bytes
  pub non_membership_leaf_data : Option Bytes
  pub bit_mask : Bytes
  pub num_side_nodes : ℤ
  pub sibling_data : Option Bytes

-- One `update` of the verifier: a hash and the data that it is the digest of.
abbrev pub Update : Type 0
Update = Bytes × Bytes

-- `int(math.Ceil(float64(n) / 8))` of a length; float64 is exact at these sizes.
abbrev pub ceil_div8 : ℕ → ℕ
ceil_div8 n = (n + 7) / 8

-- The same of an int: a negative quotient is rounded towards 0.
abbrev pub ceil_div8_int : ℤ → ℤ
ceil_div8_int (pos n) = pos (ceil_div8 n)
ceil_div8_int (negsuc n) = sub_ℕ 0 ((n + 1) / 8)

-- `make` of a slice: a negative length panics.
abbrev pub make_length : ℤ → Res ℕ
make_length (pos n) = ok n
make_length (negsuc n) = panic

module _ ⦃h : Hasher⦄ where
  -- `len(leafPrefix)+th.pathSize()+th.hasher.Size()`, if there is leaf data at all
  abbrev pub leaf_data_fits : Option Bytes → Bool
  leaf_data_fits none = true
  leaf_data_fits (some d) = length d == 1 + path_size + path_size

  abbrev pub side_nodes_fit : List Bytes → Bool
  side_nodes_fit [] = true
  side_nodes_fit (v ∷ vs) = length v == path_size && side_nodes_fit vs

  -- The sibling data hashes to the first side node, if both are there.
  abbrev pub sibling_fits : Option Bytes → List Bytes → Bool
  sibling_fits none nodes = true
  sibling_fits (some d) [] = true
  sibling_fits (some d) (v ∷ vs) = bytes_equal v (digest d)

  unfoldable pub sanity_check : SparseMerkleProof → Bool
  unfolding bytes_equal
  sanity_check proof =
      if ltb (path_size * 8) (length proof.side_nodes)
        || not (leaf_data_fits proof.non_membership_leaf_data)
      then false
      else if not (side_nodes_fit proof.side_nodes)
      then false
      else sibling_fits proof.sibling_data proof.side_nodes

  unfoldable pub compact_sanity_check : SparseCompactMerkleProof → Res Bool
  unfolding count_set_bits
  compact_sanity_check proof = do
    count ← count_set_bits proof.bit_mask
    ok (
        not (
          ltb_ℤ proof.num_side_nodes (pos 0)
          || ltb_ℤ (pos (path_size * 8)) proof.num_side_nodes
          || not (eqb_ℤ (pos (length proof.bit_mask)) (ceil_div8_int proof.num_side_nodes))
          || (ltb_ℤ (pos 0) proof.num_side_nodes
              && not (eqb_ℤ (pos (length proof.side_nodes)) (proof.num_side_nodes -ℤ pos count)))))

  -- The node on the path from the current hash and its side node, by the path's bit.
  unfoldable pub join : ℕ → Bytes → Bytes → Bytes × Bytes
  unfolding digest_node
  join bit node current = if bit == 1 then digest_node node current else digest_node current node

  -- "Recompute root": the index `len(SideNodes)-1-i` counts the side nodes that are left.
  unfoldable pub recompute_root :
      Bytes → List Bytes → Bytes → List Update → Res (Bytes × List Update)
  unfolding get_bit_at_from_msb copy_into
  recompute_root p [] current updates = ok (current, updates)
  recompute_root p (side ∷ rest) current updates = do
    bit ← get_bit_at_from_msb p (length rest)
    let update = join bit (copy_into path_size side) current
    recompute_root p rest update.0 (updates ++ update ∷ [])

  -- What the leaf hash should be, with its update; `none` where the verifier answers false.
  unfoldable pub start_hash : Bytes → Bytes → Option Bytes → Res (Option (Bytes × List Update))
  unfolding bytes_equal digest_leaf parse_leaf placeholder
  start_hash p [] none = ok (some (placeholder, []))
  start_hash p [] (some leaf_data) = do
    (actual_path, value_hash) ← parse_leaf leaf_data
    let update = digest_leaf actual_path value_hash
    ok (if bytes_equal actual_path p then none else some (update.0, update ∷ []))
  start_hash p (b ∷ bs) leaf_data =
      let update = digest_leaf p (digest (b ∷ bs)) in ok (some (update.0, update ∷ []))

  -- The rest of the verifier, from the leaf hash on.
  unfoldable pub finish_proof :
      Bytes → List Bytes → Bytes → Option (Bytes × List Update) → Res (Bool × List Update)
  unfolding recompute_root bytes_equal
  finish_proof p side_nodes root none = ok (false, [])
  finish_proof p side_nodes root (some (current, updates)) = do
    (top, all_updates) ← recompute_root p side_nodes current updates
    ok (bytes_equal top root, all_updates)

  unfoldable pub verify_proof_with_updates :
      SparseMerkleProof → Bytes → Bytes → Bytes → Res (Bool × List Update)
  unfolding sanity_check start_hash finish_proof
  verify_proof_with_updates proof root key value =
      if not (sanity_check proof)
      then ok (false, [])
      else start_hash (path key) value proof.non_membership_leaf_data
        >>= finish_proof (path key) proof.side_nodes root

  unfoldable pub verify_proof : SparseMerkleProof → Bytes → Bytes → Bytes → Res Bool
  unfolding verify_proof_with_updates
  verify_proof proof root key value = do
    (result, _) ← verify_proof_with_updates proof root key value
    ok result

  -- The loop of `compact_proof`, from side node `i` on.
  unfoldable pub compact_loop : ℕ → List Bytes → Bytes → List Bytes → Res (Bytes × List Bytes)
  unfolding set_bit_at_from_msb copy_into bytes_equal placeholder
  compact_loop i [] bit_mask compacted = ok (bit_mask, compacted)
  compact_loop i (side ∷ rest) bit_mask compacted =
      let node = copy_into path_size side in
      let marked = set_bit_at_from_msb bit_mask i >>= λ m. compact_loop (i + 1) rest m compacted in
      let kept = compact_loop (i + 1) rest bit_mask (compacted ++ node ∷ []) in
      if bytes_equal node placeholder then marked else kept

  unfoldable pub compact_proof : SparseMerkleProof → Res SparseCompactMerkleProof
  unfolding sanity_check compact_loop empty_bytes
  compact_proof proof = if not (sanity_check proof) then err bad_proof else do
    (bit_mask, compacted) ←
        compact_loop 0 proof.side_nodes (empty_bytes (ceil_div8 (length proof.side_nodes))) []
    ok (record {
      side_nodes = compacted;
      non_membership_leaf_data = proof.non_membership_leaf_data;
      bit_mask = bit_mask;
      num_side_nodes = pos (length proof.side_nodes);
      sibling_data = proof.sibling_data;
    })

  -- The loop of `decompact_proof`, with `n` side nodes to go.
  unfoldable pub decompact_loop : ℕ → Bytes → List Bytes → ℕ → ℕ → Res (List Bytes)
  unfolding get_bit_at_from_msb index placeholder
  decompact_loop zero bit_mask side_nodes i position = ok []
  decompact_loop (suc n) bit_mask side_nodes i position = do
    bit ← get_bit_at_from_msb bit_mask i
    node ← if bit == 1 then ok placeholder else index side_nodes position
    rest ←
        decompact_loop n bit_mask side_nodes (i + 1) (if bit == 1 then position else position + 1)
    ok (node ∷ rest)

  unfoldable pub decompact_proof : SparseCompactMerkleProof → Res SparseMerkleProof
  unfolding compact_sanity_check decompact_loop
  decompact_proof proof = do
    sane ← compact_sanity_check proof
    if not sane then err bad_proof else do
      n ← make_length proof.num_side_nodes
      nodes ← decompact_loop n proof.bit_mask proof.side_nodes 0 0
      ok (record {
        side_nodes = nodes;
        non_membership_leaf_data = proof.non_membership_leaf_data;
        sibling_data = proof.sibling_data;
      })

  -- An error of the decompaction is a refusal; a panic goes on.
  unfoldable pub verify_decompacted : Res SparseMerkleProof → Bytes → Bytes → Bytes → Res Bool
  unfolding verify_proof
  verify_decompacted (ok proof) root key value = verify_proof proof root key value
  verify_decompacted (err e) root key value = ok false
  verify_decompacted panic root key value = panic

  unfoldable pub verify_compact_proof : SparseCompactMerkleProof → Bytes → Bytes → Bytes → Res Bool
  unfolding decompact_proof verify_decompacted
  verify_compact_proof proof root key value =
      verify_decompacted (decompact_proof proof) root key value
