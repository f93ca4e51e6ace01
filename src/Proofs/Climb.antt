-- ===== src/Proofs/Climb.antt =====
-- The root recomputation of proofs.go against its definition from the root down.
use smt.Prelude.{
  ℕ, suc, ◌+◌, ◌*◌, ◌≤◌, ◌≡◌, ap, ◌∙◌, true, List, [], ◌∷◌, ◌++◌, length, arith, All, reverse,
  length-reverse,
}
use mathlib.Core.List.{reverse-cons, append_assoc, append-nil}
use native.Mathlib.Nat.{zero-add, add-zero}
use smt.Res.{ok}
use smt.Bytes.{Bytes, copy_into_lem}
use smt.Utils.Bits.{bit, get_bit_at_from_msb_lem}
use smt.TreeHasher.{Hasher, path_size}
use smt.Proofs.{
  Update, join, recompute_root, side_nodes_fit, SparseMerkleProof, sanity_check, leaf_data_fits,
}

shift : (d n : ℕ) → d + suc n ≡ suc d + n
shift d n = omega arith

module _ ⦃h : Hasher⦄ where
  abbrev pub IsHash : Bytes → Type 0
  IsHash b = length b ≡ path_size

  -- The hash of the subtree at depth `d` over the path `p`, with the side nodes from there down.
  unfoldable pub fold_down : Bytes → ℕ → List Bytes → Bytes → Bytes
  fold_down p d [] leaf = leaf
  fold_down p d (s ∷ ss) leaf = (join (bit p d) s (fold_down p (suc d) ss leaf)).0

  -- The updates of the climb, in order.
  unfoldable pub climb_updates : Bytes → List Bytes → Bytes → List Update
  climb_updates p [] current = []
  climb_updates p (s ∷ rest) current =
      let update = join (bit p (length rest)) s current in update ∷ climb_updates p rest update.0

  -- Every node value on the way satisfies `Seen`.
  unfoldable pub SeenDown : (Bytes → Type 0) → Bytes → ℕ → List Bytes → Bytes → Type 0
  SeenDown Seen p d [] leaf = Unit
  SeenDown Seen p d (s ∷ ss) leaf =
      Seen (join (bit p d) s (fold_down p (suc d) ss leaf)).1 × SeenDown Seen p (suc d) ss leaf

  fold_down-snoc :
      (p : Bytes) (d : ℕ) (ss : List Bytes) (s leaf : Bytes)
      → fold_down p d (ss ++ s ∷ []) leaf ≡ fold_down p d ss (join (bit p (d + length ss)) s leaf).0
  unfolding fold_down
  fold_down-snoc p d [] s leaf = rw (add-zero d)
  fold_down-snoc p d (t ∷ ss) s leaf =
      ap (λ x. (join (bit p d) t x).0)
        (rw (shift d (length ss)) (fold_down-snoc p (suc d) ss s leaf))

  SeenDown-snoc :
      (Seen : Bytes → Type 0) (p : Bytes) (d : ℕ) (ss : List Bytes) (s leaf : Bytes)
      → Seen (join (bit p (d + length ss)) s leaf).1
      → SeenDown Seen p d ss (join (bit p (d + length ss)) s leaf).0
      → SeenDown Seen p d (ss ++ s ∷ []) leaf
  unfolding SeenDown fold_down
  SeenDown-snoc Seen p d [] s leaf a b = (rw (add-zero d) at a, tt)
  SeenDown-snoc Seen p d (t ∷ ss) s leaf a b = (
    rw (fold_down-snoc p (suc d) ss s leaf, ← shift d (length ss)) b.0,
    SeenDown-snoc Seen p (suc d) ss s leaf (rw (← shift d (length ss)) a)
        (rw (← shift d (length ss)) b.1),
  )

  SeenDown-unsnoc :
      (Seen : Bytes → Type 0) (p : Bytes) (d : ℕ) (ss : List Bytes) (s leaf : Bytes)
      → SeenDown Seen p d (ss ++ s ∷ []) leaf
      → Seen (join (bit p (d + length ss)) s leaf).1
        × SeenDown Seen p d ss (join (bit p (d + length ss)) s leaf).0
  unfolding SeenDown fold_down
  SeenDown-unsnoc Seen p d [] s leaf a = (rw (add-zero d) a.0, tt)
  SeenDown-unsnoc Seen p d (t ∷ ss) s leaf a =
      let below = rw (← shift d (length ss)) at (SeenDown-unsnoc Seen p (suc d) ss s leaf a.1) in
      let front = rw (fold_down-snoc p (suc d) ss s leaf, ← shift d (length ss)) at a.0 in
      (below.0, (front, below.1))

  -- The same from the root, with the number of side nodes above.
  module _ (p : Bytes) (front : List Bytes) (s leaf : Bytes) (n : ℕ) (size : length front ≡ n) where
    pub fold_down_last :
        fold_down p 0 (front ++ s ∷ []) leaf ≡ fold_down p 0 front (join (bit p n) s leaf).0
    fold_down_last = rw (size, zero-add) at (fold_down-snoc p 0 front s leaf)

    pub SeenDown_last :
        (Seen : Bytes → Type 0)
        → Seen (join (bit p n) s leaf).1
        → SeenDown Seen p 0 front (join (bit p n) s leaf).0
        → SeenDown Seen p 0 (front ++ s ∷ []) leaf
    SeenDown_last Seen a b =
        SeenDown-snoc Seen p 0 front s leaf (rw (size, zero-add) a) (rw (size, zero-add) b)

    pub SeenDown_unlast :
        (Seen : Bytes → Type 0)
        → SeenDown Seen p 0 (front ++ s ∷ []) leaf
        → Seen (join (bit p n) s leaf).1 × SeenDown Seen p 0 front (join (bit p n) s leaf).0
    SeenDown_unlast Seen a = rw (size, zero-add) at (SeenDown-unsnoc Seen p 0 front s leaf a)

  fold_down-reverse-cons :
      (p : Bytes) (s : Bytes) (rest : List Bytes) (leaf : Bytes)
      → fold_down p 0 (reverse (s ∷ rest)) leaf
        ≡ fold_down p 0 (reverse rest) (join (bit p (length rest)) s leaf).0
  fold_down-reverse-cons p s rest leaf = rw (reverse-cons, fold_down-snoc, length-reverse, zero-add)

  -- The loop climbs to the hash that is defined downwards, and records each node on the way.
  pub recompute_root_lem :
      (p : Bytes) (nodes : List Bytes) (leaf : Bytes) (updates : List Update)
      → All IsHash nodes
      → length nodes ≤ length p * 8
      → recompute_root p nodes leaf updates
        ≡ ok (fold_down p 0 (reverse nodes) leaf, updates ++ climb_updates p nodes leaf)
  unfolding recompute_root climb_updates
  recompute_root_lem p [] leaf updates w n = unfold fold_down in rw append-nil
  recompute_root_lem p (s ∷ rest) leaf updates w n =
      rw (get_bit_at_from_msb_lem p (length rest) (omega arith), copy_into_lem path_size s w.0)
        (recompute_root_lem p rest _ _ w.1 (omega arith)
          ∙ rw (fold_down-reverse-cons, append_assoc))

  pub climb_updates-SeenDown :
      (Seen : Bytes → Type 0) (p : Bytes) (nodes : List Bytes) (leaf : Bytes)
      → All (λ u. Seen u.1) (climb_updates p nodes leaf)
      → SeenDown Seen p 0 (reverse nodes) leaf
  unfolding climb_updates
  climb_updates-SeenDown Seen p [] leaf seen = unfold SeenDown in tt
  climb_updates-SeenDown Seen p (s ∷ rest) leaf seen = rw (reverse-cons) (
      SeenDown-snoc Seen p 0 (reverse rest) s leaf (rw (length-reverse, zero-add) seen.0)
        (rw (length-reverse, zero-add) (climb_updates-SeenDown Seen p rest _ seen.1)))

  side_nodes_fit→All : (nodes : List Bytes) → side_nodes_fit nodes ≡ true → All IsHash nodes
  side_nodes_fit→All [] e = tt
  side_nodes_fit→All (s ∷ rest) e = (ground arith, side_nodes_fit→All rest (ground arith))

  pub sanity_check-sizes :
      (proof : SparseMerkleProof)
      → sanity_check proof ≡ true
      → All IsHash proof.side_nodes × (length proof.side_nodes ≤ path_size * 8)
  unfolding sanity_check
  sanity_check-sizes proof e = (side_nodes_fit→All proof.side_nodes (ground arith), ground arith)

  pub sanity_check-leaf :
      (proof : SparseMerkleProof)
      → sanity_check proof ≡ true
      → leaf_data_fits proof.non_membership_leaf_data ≡ true
  unfolding sanity_check
  sanity_check-leaf proof e = ground arith
