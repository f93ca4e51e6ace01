-- ===== src/Trie/Update/Stores.antt =====
-- When a node store holds a trie: what is on a path and what is beside it.
use smt.Prelude.{ℕ, suc, ◌≡◌, refl, sym, true, false, Bool-cases, inl, inr, Option, some, ◌==◌}
use mathlib.Core.Path.{subst}
use smt.Bytes.{Bytes}
use smt.Utils.Bits.{bit}
use smt.TreeHasher.{Hasher, digest, node_value}
use smt.TreeHasher.Collisions.{CollisionFree}
use smt.Proofs.{join}
use smt.Proofs.Climb.{SeenDown}
use smt.Trie.{Trie, empty, leaf, node, root_hash, spine, bottom, Stored}
use smt.Trie.Spine.{fold_down-spine}
use smt.Trie.Child.{child, sibling, child-of, spine-node, bottom-node}
use smt.Trie.Distinct.{Holds, Within}
use smt.Trie.Distinct.Along.{Beside}

module _ ⦃h : Hasher⦄ where
  own_data :
      (l r : Trie) (p : Bytes) (i : ℕ)
      → (join (bit p i) (root_hash (sibling (bit p i) l r)) (root_hash (child (bit p i) l r))).1
        ≡ node_value (root_hash l) (root_hash r)
  unfolding join
  own_data l r p i = elim (Bool-cases (bit p i == 1)) [ inl e ↦ rw e | inr e ↦ rw e ]

  -- The climb over a trie's spine makes the trie's nodes.
  SeenDown-node :
      (P : Bytes → Type 0) (l r : Trie) (p : Bytes) (i : ℕ)
      → let c = child (bit p i) l r in
        SeenDown P p i (spine (node l r) p i) (root_hash (bottom (node l r) p i)) ≡ (
          P (node_value (root_hash l) (root_hash r))
          × SeenDown P p (suc i) (spine c p (suc i)) (root_hash (bottom c p (suc i))))
  unfolding SeenDown
  SeenDown-node P l r p i = rw (
    spine-node l r p i,
    bottom-node l r p i,
    fold_down-spine (child (bit p i) l r) p (suc i),
    own_data l r p i,
  )

  -- What a trie hashes is seen on the climb.
  pub Within-SeenDown :
      (Seen : Bytes → Type 0) (t : Trie) (p : Bytes) (i : ℕ)
      → Within Seen t
      → SeenDown Seen p i (spine t p i) (root_hash (bottom t p i))
  Within-SeenDown Seen empty p i w = unfold spine SeenDown in tt
  Within-SeenDown Seen (leaf q v) p i w = unfold spine SeenDown in tt
  Within-SeenDown Seen (node l r) p i w =
      subst (λ (A : Type 0). A) (sym (SeenDown-node Seen l r p i))
        (
          w.0,
          child-of
              (λ c. SeenDown Seen p (suc i) (spine c p (suc i)) (root_hash (bottom c p (suc i))))
              (bit p i) l r (Within-SeenDown Seen l p (suc i) w.1)
              (Within-SeenDown Seen r p (suc i) w.2),
        )

  module _ (held : Bytes → Option Bytes) where
    abbrev pub Has : Bytes → Type 0
    Has d = held (digest d) ≡ some d

    pub Stored-Holds : (t : Trie) (d : Bytes) → Stored held t → Holds d t → Has d
    unfolding root_hash
    Stored-Holds empty d st a = absurd a
    Stored-Holds (leaf p v) d st a = subst Has (sym a) st.0
    Stored-Holds (node l r) d st (inl a) = subst Has (sym a) st.0
    Stored-Holds (node l r) d st (inr (inl a)) = Stored-Holds l d st.2 a
    Stored-Holds (node l r) d st (inr (inr a)) = Stored-Holds r d st.3 a

    module _ (Seen : Bytes → Type 0) (free : CollisionFree Seen) where
      pub Holds-Stored :
          (t : Trie) → Within Seen t → ((d : Bytes) → Holds d t → Has d) → Stored held t
      unfolding root_hash
      Holds-Stored empty w all = tt
      Holds-Stored (leaf p v) w all = (all _ refl, free.nonzero _ w.0)
      Holds-Stored (node l r) w all = (
        all _ (inl refl),
        free.nonzero _ w.0,
        Holds-Stored l w.1 (λ d a. all d (inr (inl a))),
        Holds-Stored r w.2 (λ d a. all d (inr (inr a))),
      )

      stored_right :
          (l r : Trie) (p : Bytes) (i : ℕ)
          → (bit p i == 1) ≡ true
          → Within Seen (node l r)
          → Has (node_value (root_hash l) (root_hash r))
          → ((d : Bytes) → Beside d (node l r) p i → Has d)
          → (((d : Bytes) → Beside d r p (suc i) → Has d) → Stored held r)
          → Stored held (node l r)
      unfolding root_hash
      stored_right l r p i e w own beside below = (
        own,
        free.nonzero _ w.0,
        Holds-Stored l w.1 (λ d a. beside d (rw e (inl a))),
        below (λ d b. beside d (rw e (inr b))),
      )

      stored_left :
          (l r : Trie) (p : Bytes) (i : ℕ)
          → (bit p i == 1) ≡ false
          → Within Seen (node l r)
          → Has (node_value (root_hash l) (root_hash r))
          → ((d : Bytes) → Beside d (node l r) p i → Has d)
          → (((d : Bytes) → Beside d l p (suc i) → Has d) → Stored held l)
          → Stored held (node l r)
      unfolding root_hash
      stored_left l r p i e w own beside below = (
        own,
        free.nonzero _ w.0,
        below (λ d b. beside d (rw e (inr b))),
        Holds-Stored r w.2 (λ d a. beside d (rw e (inl a))),
      )

      -- A trie is stored if its path is, with the end of the path, and all that is beside it.
      pub Stored-of_path :
          (t : Trie) (p : Bytes) (i : ℕ)
          → Within Seen t
          → SeenDown Has p i (spine t p i) (root_hash (bottom t p i))
          → ((d : Bytes) → Holds d (bottom t p i) → Has d)
          → ((d : Bytes) → Beside d t p i → Has d)
          → Stored held t
      Stored-of_path empty p i w path end beside = tt
      Stored-of_path (leaf q v) p i w path end beside =
          Holds-Stored (leaf q v) w (unfold bottom in end)
      Stored-of_path (node l r) p i w path end beside =
          let (own, rest) = subst (λ (A : Type 0). A) (SeenDown-node Has l r p i) path in
          let end' = rw (bottom-node l r p i) at end in
          elim (Bool-cases (bit p i == 1)) [
            | inl e ↦
                stored_right l r p i e w own beside
                  (Stored-of_path r p (suc i) w.2 (rw e at rest) (rw e at end'))
            | inr e ↦
                stored_left l r p i e w own beside
                  (Stored-of_path l p (suc i) w.1 (rw e at rest) (rw e at end'))
          ]
