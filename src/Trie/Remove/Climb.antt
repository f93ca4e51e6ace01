-- ===== src/Trie/Remove/Climb.antt =====
-- The climb of deleteWithSideNodes in smt.go over the side nodes of a trie: it makes the trie without the
-- path's leaf.
use smt.Prelude.{
  ℕ, suc, ◌≡◌, refl, sym, ap, ◌∙◌, false, Bool-cases, inl, inr, none, List, [], ◌∷◌, ◌++◌, length,
  reverse, ◌==◌,
}
use mathlib.Core.List.{reverse-cons, append_assoc}
use mathlib.Core.Path.{subst}
use smt.Bytes.{Bytes, eq→bytes_equal}
use smt.Utils.Bits.{bit}
use smt.TreeHasher.{Hasher, path_size}
use smt.TreeHasher.Collisions.{CollisionFree}
use smt.MapStore.{MapStore}
use smt.Tree.{SparseMerkleTree}
use smt.Tree.Write.{delete_step, delete_loop}
use smt.Trie.{Trie, empty, leaf, node, root_hash, spine, bottom, WellFormed}
use smt.Trie.Child.{child, sibling, child-of, sibling-of, spine-node, bottom-node}
use smt.Trie.Walk.{HashKeyed}
use smt.Trie.Insert.{Full}
use smt.Trie.Remove.{collapse, remove, remove-node}
use smt.Trie.Remove.Shape.{leaves-beside}
use smt.Trie.Remove.Step.{left_over, reached, Within-fork, delete_step-collapse}
use smt.Trie.Distinct.{Holds, Within, Holds-Seen}
use smt.Trie.Distinct.Along.{Beside}
use smt.Trie.Effects.{Held, Keeps, Keeps-refl, Keeps-trans}
use smt.Trie.Update.Stores.{Holds-Stored}
use smt.Trie.Update.Tail.{leaf_path}

module _ ⦃h : Hasher⦄ where
  Within-collapse :
      (Seen : Bytes → Type 0) (b : ℕ) (c x : Trie) → Within Seen (collapse b c x) → Within Seen c
  unfolding collapse
  Within-collapse Seen b empty empty w = tt
  Within-collapse Seen b empty (leaf q u) w = tt
  Within-collapse Seen b empty (node l r) w = tt
  Within-collapse Seen b (leaf p v) empty w = w
  Within-collapse Seen b (leaf p v) (leaf q u) w = (Within-fork b _ _ Seen w).1
  Within-collapse Seen b (leaf p v) (node l r) w = (Within-fork b _ _ Seen w).1
  Within-collapse Seen b (node l r) x w = (Within-fork b _ _ Seen w).1

  pub Beside-sibling :
      (l r : Trie) (p : Bytes) (i : ℕ) (d : Bytes)
      → Holds d (sibling (bit p i) l r)
      → Beside d (node l r) p i
  Beside-sibling l r p i d a = elim (Bool-cases (bit p i == 1)) [
    | inl e ↦ rw e (inl (rw e at a))
    | inr e ↦ rw e (inl (rw e at a))
  ]

  Beside-child :
      (l r : Trie) (p : Bytes) (i : ℕ) (d : Bytes)
      → Beside d (child (bit p i) l r) p (suc i)
      → Beside d (node l r) p i
  Beside-child l r p i d a = elim (Bool-cases (bit p i == 1)) [
    | inl e ↦ rw e (inr (rw e at a))
    | inr e ↦ rw e (inr (rw e at a))
  ]

  -- The last side node of a node's spine comes after those below.
  reverse-spine :
      (l r : Trie) (p : Bytes) (i : ℕ) (above : List Bytes)
      → reverse (spine (node l r) p i) ++ above
        ≡ reverse (spine (child (bit p i) l r) p (suc i))
          ++ root_hash (sibling (bit p i) l r) ∷ above
  reverse-spine l r p i above =
      let side = root_hash (sibling (bit p i) l r) in
      let rest = spine (child (bit p i) l r) p (suc i) in
      rw (spine-node l r p i, reverse-cons side rest)
        (append_assoc (reverse rest) (side ∷ []) above)

  remove-own :
      (q v p w : Bytes) (i : ℕ) → bottom (leaf q v) p i ≡ leaf p w → remove (leaf q v) p i ≡ empty
  unfolding remove bottom
  remove-own q v p w i e = let same = eq→bytes_equal q p (leaf_path q v e) in rw same refl

module _ ⦃h : Hasher⦄ {N V : Type 0} ⦃ns : MapStore N⦄ ⦃vs : MapStore V⦄ (nodes : HashKeyed ns)
    (Seen : Bytes → Type 0) (free : CollisionFree Seen) (p : Bytes)
    (len : length p ≡ path_size) where
  -- After the side nodes of `t` the climb stands at the trie without the path's leaf, which is stored.
  pub record Climbs (t : Trie) (i : ℕ) (above : List Bytes) (s : SparseMerkleTree N V)
      : Type 0 where
    pub after : SparseMerkleTree N V
    pub run :
        delete_loop p (reverse (spine t p i) ++ above) none none false s
        ≡ delete_loop p above
            (left_over (remove t p i))
            (left_over (remove t p i))
            (reached (remove t p i))
            after
    pub keeps : Keeps nodes Seen s after
    pub stored : (d : Bytes) → Holds d (remove t p i) → Held nodes after.nodes d

  -- What the climb needs: the path ends at the leaf, and all that is beside it is held.
  pub record Climbable (t : Trie) (w : Bytes) (i : ℕ) (s : SparseMerkleTree N V) : Type 0 where
    pub end : bottom t p i ≡ leaf p w
    pub well_formed : WellFormed i t
    pub full : Full t
    pub within : Within Seen t
    pub new_within : Within Seen (remove t p i)
    pub beside : (d : Bytes) → Beside d t p i → Held nodes s.nodes d

  Climbable-child :
      (l r : Trie) (w : Bytes) (i : ℕ) (s : SparseMerkleTree N V)
      → Climbable (node l r) w i s
      → Climbable (child (bit p i) l r) w (suc i) s
  Climbable-child l r w i s k = record {
    end = sym (bottom-node l r p i) ∙ k.end;
    well_formed = child-of (WellFormed (suc i)) (bit p i) l r k.well_formed.3 k.well_formed.4;
    full = child-of Full (bit p i) l r k.full.1 k.full.2;
    within = child-of (Within Seen) (bit p i) l r k.within.1 k.within.2;
    new_within =
        Within-collapse Seen (bit p i) _ (sibling (bit p i) l r)
          (subst (Within Seen) (remove-node l r p i) k.new_within);
    beside = λ d a. k.beside d (Beside-child l r p i d a);
  }

  delete_loop-cons :
      (side : Bytes) (above : List Bytes) (u : Trie) (i : ℕ) (s : SparseMerkleTree N V)
      → length above ≡ i
      → delete_loop p (side ∷ above) (left_over u) (left_over u) (reached u) s
        ≡ delete_step p side i (left_over u) (left_over u) (reached u) (delete_loop p above) s
  unfolding delete_loop
  delete_loop-cons side above u i s e =
      ap (λ n. delete_step p side n (left_over u) (left_over u) (reached u) (delete_loop p above) s)
        e

  module _ (l r : Trie) (w : Bytes) (i : ℕ) (above : List Bytes) (s : SparseMerkleTree N V)
      (k : Climbable (node l r) w i s) where
    abbrev b : ℕ
    b = bit p i

    abbrev side : Trie
    side = sibling b l r

    side_within : Within Seen side
    side_within = sibling-of (Within Seen) b l r k.within.1 k.within.2

    -- Data beside the path is seen, so it is kept.
    side_kept :
        (s' : SparseMerkleTree N V)
        → Keeps nodes Seen s s'
        → (d : Bytes) → Holds d side
        → Held nodes s'.nodes d
    side_kept s' keeps d a =
        keeps.held d (Holds-Seen Seen side d side_within a)
          (k.beside d (Beside-sibling l r p i d a))

    climb-node :
        length above ≡ i
        → Climbs (child b l r) (suc i) (root_hash side ∷ above) s
        → Climbs (node l r) i above s
    climb-node e below =
        let c = child b l r in
        let u = remove c p (suc i) in
        let new_within = subst (Within Seen) (remove-node l r p i) k.new_within in
        let step =
          delete_step-collapse nodes Seen free p len i k.well_formed.0 (delete_loop p above)
            below.after u side (leaves-beside l r p i k.full.0) new_within
            (Holds-Stored (nodes.lookup below.after.nodes) Seen free side side_within
              (side_kept below.after below.keeps)) in
        record {
          after = step.after;
          run =
              ap (λ sides. delete_loop p sides none none false s) (reverse-spine l r p i above)
              ∙ below.run
              ∙ delete_loop-cons (root_hash side) above u i below.after e
              ∙ step.run_lem
              ∙ ap (λ x. delete_loop p above (left_over x) (left_over x) (reached x) step.after)
                  (sym (remove-node l r p i));
          keeps = Keeps-trans nodes Seen s below.after step.after below.keeps step.keeps;
          stored = λ d a. elim (step.stored d (subst (Holds d) (remove-node l r p i) a)) [
            | inl (inl here) ↦
                step.keeps.held d
                  (Holds-Seen Seen u d (Within-collapse Seen b u side new_within) here)
                  (below.stored d here)
            | inl (inr beside) ↦
                side_kept step.after
                  (Keeps-trans nodes Seen s below.after step.after below.keeps step.keeps) d beside
            | inr own ↦ own
          ];
        }

  -- From a leaf at the path's end the climb goes through.
  pub climb :
      (t : Trie) (w : Bytes) (i : ℕ) (above : List Bytes) (s : SparseMerkleTree N V)
      → length above ≡ i
      → Climbable t w i s
      → Climbs t i above s
  climb empty w i above s e k = absurd (let q = k.end in unfold bottom in cc)
  climb (leaf q v) w i above s e k =
      let gone = remove-own q v p w i k.end in
      record {
        after = s;
        run = unfold spine in rw gone refl;
        keeps = Keeps-refl nodes Seen s;
        stored = λ d a. absurd (rw gone at a);
      }
  climb (node l r) w i above s e k =
      let b = bit p i in
      let up = root_hash (sibling b l r) ∷ above in
      climb-node l r w i above s k e (
        child-of (λ c. Climbable c w (suc i) s → Climbs c (suc i) up s) b l r
          (climb l w (suc i) up s (ap suc e)) (climb r w (suc i) up s (ap suc e))
          (Climbable-child l r w i s k))
