-- ===== src/Trie/Walk.antt =====
-- fillSideNodes of smt.go on a node store that holds a trie: it returns the trie's spine along the path.
use smt.Prelude.{
  ℕ, zero, suc, ◌+◌, ◌≡◌, ◌≢◌, refl, ap, ◌∙◌, false, Bool-cases, inl, inr, Option, none, some, List,
  [], ◌∷◌, ◌++◌, length, arith, reverse,
}
use mathlib.Core.List.{append_assoc, append-nil}
use mathlib.Core.Path.{subst}
use native.Mathlib.Numerals.{add-one}
use smt.Res.{ok}
use smt.Bytes.{Bytes, bytes_equal, bytes_equal_iff, bytes_equal_refl}
use smt.Utils.Bits.{bit, get_bit_at_from_msb_lem}
use smt.Utils.Reverse.{reverse_byte_slices_in_place-reverse}
use smt.TreeHasher.{Hasher, path_size, placeholder, node_value}
use smt.TreeHasher.Layout.{is_leaf-leaf_value, is_leaf-node_value, parse_node-node_value}
use smt.MapStore.{MapStore, IsMap, found}
use smt.Tree.{SparseMerkleTree}
use smt.Tree.Run.{Run}
use smt.Tree.Walk.{Walked, SideNodes, depth, walk_child, walk_loop, finish_walk, fill_side_nodes}
use smt.Trie.{
  Trie, empty, leaf, node, root_hash, spine, hashes, last_side, bottom, data_of, WellFormed, Stored,
}
use smt.Trie.Child.{
  child, sibling, child-of, length-root_hash, choose-children, spine-node, hashes-node,
  last_side-node, bottom-node,
}

module _ ⦃h : Hasher⦄ where
  pub root_hash-empty : root_hash empty ≡ placeholder
  unfolding root_hash
  root_hash-empty = refl

  pub not_placeholder : (b : Bytes) → b ≢ placeholder → bytes_equal b placeholder ≡ false
  not_placeholder b n = elim (Bool-cases (bytes_equal b placeholder)) [
    | inl e ↦ absurd (n ((bytes_equal_iff b placeholder).0 e))
    | inr e ↦ e
  ]

-- What the code relies on: a node store that keeps the contract at the hashes' size.
pub record HashKeyed ⦃h : Hasher⦄ {N : Type 0} (ns : MapStore N) : Type 1 where
  pub Fits : Bytes → Type 0
  pub lookup : N → Bytes → Option Bytes
  pub is_map : IsMap ns Fits lookup
  pub fits : (k : Bytes) → length k ≡ path_size → Fits k

module _ ⦃h : Hasher⦄ {N : Type 0} ⦃ns : MapStore N⦄ (store : HashKeyed ns) where
  -- A stored hash is read back.
  pub get_stored :
      (n : N) (t : Trie) (d : Bytes)
      → store.lookup n (root_hash t) ≡ some d
      → ns.get n (root_hash t) ≡ ok d
  get_stored n t d e =
      store.is_map.get_lem n (root_hash t) (store.fits _ (length-root_hash t)) ∙ ap (found _) e

  module _ {V : Type 0} (s : SparseMerkleTree N V) where
    abbrev Held : Trie → Type 0
    Held = Stored (store.lookup s.nodes)

    -- Where the walk along `p` from depth `i` ends below `t`, after the slices given.
    abbrev end_of : Trie → Bytes → ℕ → List Bytes → List Bytes → Bytes → Walked
    end_of t p i sides nodes last = record {
      sides = sides ++ spine t p i;
      nodes = nodes ++ hashes t p i;
      last = last_side t p i last;
      current = data_of (bottom t p i);
    }

    walk_child-end :
        (on : Bytes → Run (SparseMerkleTree N V) Walked) (c : Trie) (p : Bytes) (i : ℕ)
        → (sides nodes : List Bytes) (side : Bytes) → Held c
        → ((l r : Trie)
            → c ≡ node l r
            → on (node_value (root_hash l) (root_hash r)) s
              ≡ (ok (end_of c p i sides nodes side), s))
        → walk_child on (root_hash c) sides nodes side s ≡ (ok (end_of c p i sides nodes side), s)
    unfolding walk_child spine hashes last_side bottom
    walk_child-end on empty p i sides nodes side held next =
        rw (root_hash-empty, bytes_equal_refl placeholder, append-nil sides, append-nil nodes)
    walk_child-end on (leaf q v) p i sides nodes side held next = rw (
      not_placeholder _ held.1,
      get_stored s.nodes (leaf q v) _ held.0,
      is_leaf-leaf_value,
      append-nil sides,
      append-nil nodes,
    )
    walk_child-end on (node l r) p i sides nodes side held next =
        rw (not_placeholder _ held.1, get_stored s.nodes (node l r) _ held.0, is_leaf-node_value)
          (next l r refl)

    -- The loop at an inner node, with as many rounds left as the path has bits.
    walk_loop-end :
        (n : ℕ) (l r : Trie) (p : Bytes) (i : ℕ) (sides nodes : List Bytes) (last : Bytes)
        → i + n ≡ depth
        → length p ≡ path_size
        → Held (node l r)
        → WellFormed i (node l r)
        → walk_loop n p i (node_value (root_hash l) (root_hash r)) sides nodes last s
          ≡ (ok (end_of (node l r) p i sides nodes last), s)
    unfolding walk_loop
    walk_loop-end zero l r p i sides nodes last e len held wf = absurd (omega (arith, wf.0))
    walk_loop-end (suc n) l r p i sides nodes last e len held wf =
        let b = bit p i in
        let c = child b l r in
        let side = root_hash (sibling b l r) in
        rw
          (
            parse_node-node_value (root_hash l) (root_hash r) (length-root_hash l),
            get_bit_at_from_msb_lem p i (omega arith),
            choose-children l r p i,
            spine-node l r p i,
            hashes-node l r p i,
            last_side-node l r p i last,
            bottom-node l r p i,
            ← append_assoc sides (side ∷ []) (spine c p (suc i)),
            ← append_assoc nodes (root_hash c ∷ []) (hashes c p (suc i)),
          )
          (walk_child-end _ c p (suc i) _ _ side (child-of Held b l r held.2 held.3) (λ l' r' at.
            rw (at, add-one i)
              (walk_loop-end n l' r' p (suc i) (sides ++ side ∷ [])
                (nodes ++ root_hash (node l' r') ∷ []) side (omega arith) len
                (subst Held at (child-of Held b l r held.2 held.3))
                (subst (WellFormed (suc i)) at (child-of (WellFormed (suc i)) b l r wf.3 wf.4)))))

    -- The slices that the walk returns for the trie `t`.
    abbrev pub slices_of : Trie → Bytes → SideNodes
    slices_of t p = record {
      side_nodes = reverse (spine t p 0);
      path_nodes = reverse (root_hash t ∷ hashes t p 0);
      leaf_data = data_of (bottom t p 0);
      sibling_data = none;
    }

    finish_walk_lem :
        (t : Trie) (p : Bytes)
        → finish_walk false (end_of t p 0 [] (root_hash t ∷ []) []) s ≡ (ok (slices_of t p), s)
    unfolding finish_walk
    finish_walk_lem t p = rw (
      reverse_byte_slices_in_place-reverse (spine t p 0),
      reverse_byte_slices_in_place-reverse (root_hash t ∷ hashes t p 0),
    )

    -- The walk reads the trie's spine and changes nothing.
    pub fill_side_nodes-slices_of :
        (t : Trie) (p : Bytes)
        → length p ≡ path_size
        → Held t
        → WellFormed 0 t
        → fill_side_nodes p (root_hash t) false s ≡ (ok (slices_of t p), s)
    unfolding fill_side_nodes
    fill_side_nodes-slices_of empty p len held wf =
        unfold spine hashes bottom in rw (root_hash-empty, bytes_equal_refl placeholder)
    fill_side_nodes-slices_of (leaf q v) p len held wf =
        unfold spine hashes bottom in
        rw (not_placeholder _ held.1, get_stored s.nodes (leaf q v) _ held.0, is_leaf-leaf_value)
    fill_side_nodes-slices_of (node l r) p len held wf =
        rw
          (
            not_placeholder _ held.1,
            get_stored s.nodes (node l r) _ held.0,
            is_leaf-node_value,
            walk_loop-end depth l r p 0 [] (root_hash (node l r) ∷ []) [] (omega arith) len held wf,
          )
          (finish_walk_lem (node l r) p)
