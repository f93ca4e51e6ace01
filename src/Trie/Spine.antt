-- ===== src/Trie/Spine.antt =====
-- The spine of a trie along a path: its hash from the end of the walk, and its sizes.
use smt.Prelude.{
  ℕ, suc, ◌+◌, ◌≤◌, ◌≡◌, ◌≢◌, refl, ap, ◌∙◌, Bool-cases, inl, inr, Option, none, some, List, [],
  ◌∷◌, ◌++◌, length, ◌==◌, if◌then◌else◌, arith, reverse, All,
}
use mathlib.Core.List.{reverse-cons}
use smt.Bytes.{Bytes, bytes_equal}
use smt.Utils.Bits.{bit}
use smt.TreeHasher.{Hasher, path_size}
use smt.Tree.Walk.{depth}
use smt.Proofs.{join}
use smt.Proofs.Climb.{IsHash, fold_down}
use smt.Trie.{Trie, empty, leaf, node, root_hash, find, spine, hashes, bottom, WellFormed, Stored}
use smt.Trie.Child.{
  child, sibling, child-of, length-root_hash, spine-node, hashes-node, bottom-node, find-node,
}

module _ ⦃h : Hasher⦄ where
  -- The node over a child and its sibling is the join along the path.
  pub join-children :
      (l r : Trie) (b : ℕ)
      → (join b (root_hash (sibling b l r)) (root_hash (child b l r))).0 ≡ root_hash (node l r)
  unfolding join root_hash
  join-children l r b = elim (Bool-cases (b == 1)) [ inl e ↦ rw e | inr e ↦ rw e ]

  pub fold_down-cons :
      (p : Bytes) (i : ℕ) (side : Bytes) (rest : List Bytes) (end : Bytes)
      → fold_down p i (side ∷ rest) end ≡ (join (bit p i) side (fold_down p (suc i) rest end)).0
  unfolding fold_down
  fold_down-cons p i side rest end = refl

  -- Folding the spine over the hash at the end of the walk gives the trie's hash.
  pub fold_down-spine :
      (t : Trie) (p : Bytes) (i : ℕ)
      → fold_down p i (spine t p i) (root_hash (bottom t p i)) ≡ root_hash t
  fold_down-spine empty p i = unfold fold_down spine bottom in refl
  fold_down-spine (leaf q v) p i = unfold fold_down spine bottom in refl
  fold_down-spine (node l r) p i =
      let b = bit p i in
      let below =
        child-of
          (λ c.
            fold_down p (suc i) (spine c p (suc i)) (root_hash (bottom c p (suc i))) ≡ root_hash c)
          b l r (fold_down-spine l p (suc i)) (fold_down-spine r p (suc i)) in
      rw (spine-node l r p i, bottom-node l r p i)
        (fold_down-cons p i (root_hash (sibling b l r)) (spine (child b l r) p (suc i)) _
          ∙ ap (λ x. (join b (root_hash (sibling b l r)) x).0) below
          ∙ join-children l r b)

  pub spine-IsHash : (t : Trie) (p : Bytes) (i : ℕ) → All IsHash (spine t p i)
  unfolding spine
  spine-IsHash empty p i = tt
  spine-IsHash (leaf q v) p i = tt
  spine-IsHash (node l r) p i = elim (Bool-cases (bit p i == 1)) [
    | inl e ↦ rw e (length-root_hash l, spine-IsHash r p (suc i))
    | inr e ↦ rw e (length-root_hash r, spine-IsHash l p (suc i))
  ]

  pub length-spine :
      (t : Trie) (p : Bytes) (i : ℕ) → i ≤ depth → WellFormed i t → i + length (spine t p i) ≤ depth
  unfolding spine
  length-spine empty p i le wf = omega arith
  length-spine (leaf q v) p i le wf = omega arith
  length-spine (node l r) p i le wf = elim (Bool-cases (bit p i == 1)) [
    | inl e ↦ rw e (omega (arith, length-spine r p (suc i) (omega (arith, wf.0)) wf.4))
    | inr e ↦ rw e (omega (arith, length-spine l p (suc i) (omega (arith, wf.0)) wf.3))
  ]

  -- The path's hashes from the bottom up begin with the hash at the end of the walk.
  pub path_nodes-bottom :
      (t : Trie) (p : Bytes) (i : ℕ)
      → (above : List Bytes) × (reverse (root_hash t ∷ hashes t p i)
          ≡ root_hash (bottom t p i) ∷ above)
  path_nodes-bottom empty p i = unfold hashes bottom in ([], refl)
  path_nodes-bottom (leaf q v) p i = unfold hashes bottom in ([], refl)
  path_nodes-bottom (node l r) p i =
      let c = child (bit p i) l r in
      let (above, e) =
        child-of
          (λ c.
            (above : List Bytes) × (reverse (root_hash c ∷ hashes c p (suc i))
              ≡ root_hash (bottom c p (suc i)) ∷ above))
          (bit p i) l r (path_nodes-bottom l p (suc i)) (path_nodes-bottom r p (suc i)) in
      (
        above ++ root_hash (node l r) ∷ [],
        rw (hashes-node l r p i, bottom-node l r p i)
            (reverse-cons (root_hash (node l r)) (root_hash c ∷ hashes c p (suc i))
              ∙ ap (λ x. x ++ root_hash (node l r) ∷ []) e),
      )

  -- What a walk along `p` can end at: nothing, or a leaf.
  pub data Bottom (held : Bytes → Option Bytes) (p : Bytes) : Trie → Option Bytes → Type 0 where
    nothing : {b : Trie} {o : Option Bytes} → b ≡ empty → o ≡ none → Bottom held p b o
    at_leaf :
        {b : Trie} {o : Option Bytes} (q v : Bytes)
        → b ≡ leaf q v
        → o ≡ (if bytes_equal q p then some v else none)
        → length q ≡ path_size
        → v ≢ []
        → Stored held (leaf q v)
        → Bottom held p b o

  pub bottom-Bottom :
      (held : Bytes → Option Bytes) (t : Trie) (p : Bytes) (i : ℕ)
      → WellFormed i t
      → Stored held t
      → Bottom held p (bottom t p i) (find t p i)
  bottom-Bottom held empty p i wf st = unfold bottom find in nothing refl refl
  bottom-Bottom held (leaf q v) p i wf st = unfold bottom find in at_leaf q v refl refl wf.0 wf.2 st
  bottom-Bottom held (node l r) p i wf st =
      rw (bottom-node l r p i, find-node l r p i)
        (child-of (λ c. Bottom held p (bottom c p (suc i)) (find c p (suc i))) (bit p i) l r
          (bottom-Bottom held l p (suc i) wf.3 st.2) (bottom-Bottom held r p (suc i) wf.4 st.3))
