-- ===== src/Trie/Update/Nodes.antt =====
-- The end of the walk that an update in smt.go starts from: the path nodes that it returns, and the leaf
-- that it stops at.
use smt.Prelude.{
  ℕ, suc, ◌+◌, ◌≡◌, refl, sym, ap, ◌∙◌, true, false, Bool-cases, inl, inr, ◌⊎◌, [], ◌∷◌, ◌++◌,
  length, map, reverse, ◌==◌, arith,
}
use mathlib.Core.List.{reverse-cons, map-append}
use mathlib.Core.Path.{subst}
use smt.Bytes.{Bytes}
use smt.Utils.Bits.{bit}
use smt.TreeHasher.{Hasher, digest, path_size, node_value}
use smt.TreeHasher.Layout.{node_value-left, node_value-right}
use smt.TreeHasher.Collisions.{CollisionFree, Listed}
use smt.Trie.{Trie, empty, leaf, node, root_hash, spine, hashes, bottom, Side, WellFormed}
use smt.Trie.Child.{child, child-of, length-root_hash, spine-node, hashes-node, bottom-node}
use smt.Trie.Descend.{Agrees, Agrees-child}
use smt.Trie.Distinct.{Within, root_hash_injective}
use smt.Trie.Distinct.Along.{node_data, Listed-append}

module _ ⦃h : Hasher⦄ where
  node_data-node :
      (l r : Trie) (p : Bytes) (i : ℕ)
      → node_data (node l r) p i
        ≡ node_data (child (bit p i) l r) p (suc i) ++ node_value (root_hash l) (root_hash r) ∷ []
  unfolding node_data
  node_data-node l r p i = elim (Bool-cases (bit p i == 1)) [ inl e ↦ rw e | inr e ↦ rw e ]

  root_hash-node :
      (l r : Trie) → root_hash (node l r) ≡ digest (node_value (root_hash l) (root_hash r))
  unfolding root_hash
  root_hash-node l r = refl

  -- The path nodes from the bottom up are the end of the walk and the nodes over it.
  pub path_nodes-node_data :
      (t : Trie) (p : Bytes) (i : ℕ)
      → reverse (root_hash t ∷ hashes t p i)
        ≡ root_hash (bottom t p i) ∷ map digest (node_data t p i)
  path_nodes-node_data empty p i = unfold hashes bottom node_data in refl
  path_nodes-node_data (leaf q v) p i = unfold hashes bottom node_data in refl
  path_nodes-node_data (node l r) p i =
      let c = child (bit p i) l r in
      let below =
        child-of
          (λ c.
            reverse (root_hash c ∷ hashes c p (suc i))
            ≡ root_hash (bottom c p (suc i)) ∷ map digest (node_data c p (suc i)))
          (bit p i) l r (path_nodes-node_data l p (suc i)) (path_nodes-node_data r p (suc i)) in
      rw (hashes-node l r p i, bottom-node l r p i, node_data-node l r p i, map-append)
        (reverse-cons (root_hash (node l r)) (root_hash c ∷ hashes c p (suc i))
          ∙ ap (λ x. x ++ root_hash (node l r) ∷ []) below
          ∙ rw (root_hash-node l r) refl)

  -- The end of the walk is well formed, and agrees with the path on the bits of the walk.
  pub bottom-WellFormed :
      (t : Trie) (p : Bytes) (i : ℕ)
      → Agrees p i t
      → WellFormed i t
      → WellFormed (i + length (spine t p i)) (bottom t p i)
        × Agrees p (i + length (spine t p i)) (bottom t p i)
  bottom-WellFormed empty p i ag wf = unfold bottom spine in (tt, λ j lt. tt)
  bottom-WellFormed (leaf q v) p i ag wf = unfold bottom spine in (wf, λ j lt. ag j (omega arith))
  bottom-WellFormed (node l r) p i ag wf =
      let b = bit p i in
      let c = child b l r in
      let shift : i + suc (length (spine c p (suc i))) ≡ suc i + length (spine c p (suc i)) =
        omega arith in
      let deeper = Agrees-child p i l r ag wf.1 wf.2 in
      let below =
        child-of
          (λ c.
            Agrees p (suc i) c
            → WellFormed (suc i) c
            → WellFormed (suc i + length (spine c p (suc i))) (bottom c p (suc i))
              × Agrees p (suc i + length (spine c p (suc i))) (bottom c p (suc i)))
          b l r (bottom-WellFormed l p (suc i)) (bottom-WellFormed r p (suc i)) in
      rw (spine-node l r p i, bottom-node l r p i, shift)
        (below deeper (child-of (WellFormed (suc i)) b l r wf.3 wf.4))

  module _ (Seen : Bytes → Type 0) (free : CollisionFree Seen) (p v : Bytes)
      (len : length p ≡ path_size) (leaf_sound : (i : ℕ) → WellFormed i (leaf p v))
      (leaf_within : Within Seen (leaf p v)) where
    -- One of two hashes is that of the path's leaf.
    abbrev pub Joins : Bytes → Bytes → Type 0
    Joins x y = (x ≡ root_hash (leaf p v)) ⊎ (y ≡ root_hash (leaf p v))

    leaf_child :
        (c : Trie) (i : ℕ)
        → Within Seen c
        → WellFormed i c
        → root_hash c ≡ root_hash (leaf p v)
        → c ≡ leaf p v
    leaf_child c i w wf e =
        root_hash_injective Seen free c (leaf p v) i i w leaf_within wf (leaf_sound i) e

    bottom-leaf : (i : ℕ) → bottom (leaf p v) p i ≡ leaf p v
    unfolding bottom
    bottom-leaf i = refl

    -- A node on the path whose child is the path's leaf has that leaf on the path.
    under_node :
        (l r : Trie) (i : ℕ)
        → Within Seen (node l r)
        → WellFormed i (node l r)
        → Joins (root_hash l) (root_hash r)
        → bottom (node l r) p i ≡ leaf p v
    under_node l r i w wf (inl a) =
        let e = leaf_child l (suc i) w.1 wf.3 a in
        let nil : bit p i ≡ 0 = subst (Side i 0) e wf.1 in
        let left : (bit p i == 1) ≡ false = ground (arith, nil) in
        bottom-node l r p i ∙ rw (left, e) (bottom-leaf (suc i))
    under_node l r i w wf (inr a) =
        let e = leaf_child r (suc i) w.2 wf.4 a in
        let one : bit p i ≡ 1 = subst (Side i 1) e wf.2 in
        let right : (bit p i == 1) ≡ true = ground (arith, one) in
        bottom-node l r p i ∙ rw (right, e) (bottom-leaf (suc i))

    Joins-own :
        (l r : Trie) (x y : Bytes) (i : ℕ)
        → length x ≡ path_size
        → Within Seen (node l r)
        → WellFormed i (node l r)
        → Joins x y
        → node_value x y ≡ node_value (root_hash l) (root_hash r)
        → bottom (node l r) p i ≡ leaf p v
    Joins-own l r x y i lx w wf j own =
        let same = lx ∙ sym (length-root_hash l) in
        let el = node_value-left x y (root_hash l) (root_hash r) same own in
        let er = node_value-right x y (root_hash l) (root_hash r) same own in
        under_node l r i w wf (subst (λ a. Joins a (root_hash r)) el (subst (λ a. Joins x a) er j))

    -- If a node on the path joins the path's leaf, the walk ends there.
    pub node_data-Joins :
        (t : Trie) (x y : Bytes) (i : ℕ)
        → length x ≡ path_size
        → Within Seen t
        → WellFormed i t
        → Joins x y
        → Listed (node_data t p i) (node_value x y)
        → bottom t p i ≡ leaf p v
    unfolding node_data
    node_data-Joins empty x y i lx w wf j m = absurd m
    node_data-Joins (leaf q u) x y i lx w wf j m = absurd m
    node_data-Joins (node l r) x y i lx w wf j m = elim (Bool-cases (bit p i == 1)) [
      | inl e ↦ elim (Listed-append (node_data r p (suc i)) _ _ (rw e at m)) [
        | inl k ↦ bottom-node l r p i ∙ rw e (node_data-Joins r x y (suc i) lx w.2 wf.4 j k)
        | inr own ↦ Joins-own l r x y i lx w wf j own
      ]
      | inr e ↦ elim (Listed-append (node_data l p (suc i)) _ _ (rw e at m)) [
        | inl k ↦ bottom-node l r p i ∙ rw e (node_data-Joins l x y (suc i) lx w.1 wf.3 j k)
        | inr own ↦ Joins-own l r x y i lx w wf j own
      ]
    ]
