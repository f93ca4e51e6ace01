-- ===== src/Trie/Child.antt =====
-- One step of a walk down the trie, by the bit of the path.
use smt.Prelude.{ℕ, suc, ◌≡◌, Bool-cases, inl, inr, ◌∷◌, ◌==◌, if◌then◌else◌, length}
use smt.Bytes.{Bytes}
use smt.Utils.Bits.{bit}
use smt.TreeHasher.{Hasher, path_size}
use smt.TreeHasher.Layout.{length-placeholder}
use smt.Tree.Walk.{choose}
use smt.Trie.{Trie, empty, leaf, node, root_hash, find, spine, hashes, last_side, bottom}

-- The child that the bit chooses, and the other one.
abbrev pub child : ℕ → Trie → Trie → Trie
child b l r = if b == 1 then r else l

abbrev pub sibling : ℕ → Trie → Trie → Trie
sibling b l r = if b == 1 then l else r

pub child-of {ℓ} : (P : Trie → Type ℓ) (b : ℕ) (l r : Trie) → P l → P r → P (child b l r)
child-of P b l r x y = elim (Bool-cases (b == 1)) [ inl e ↦ rw e y | inr e ↦ rw e x ]

pub sibling-of {ℓ} : (P : Trie → Type ℓ) (b : ℕ) (l r : Trie) → P l → P r → P (sibling b l r)
sibling-of P b l r x y = elim (Bool-cases (b == 1)) [ inl e ↦ rw e x | inr e ↦ rw e y ]

module _ ⦃h : Hasher⦄ where
  pub length-root_hash : (t : Trie) → length (root_hash t) ≡ path_size
  unfolding root_hash
  length-root_hash empty = length-placeholder
  length-root_hash (leaf p v) = h.length-digest _
  length-root_hash (node l r) = h.length-digest _

  module _ (l r : Trie) (p : Bytes) (i : ℕ) where
    pub choose-children :
        choose (bit p i) (root_hash l, root_hash r)
        ≡ (root_hash (sibling (bit p i) l r), root_hash (child (bit p i) l r))
    unfolding choose
    choose-children = elim (Bool-cases (bit p i == 1)) [ inl e ↦ rw e | inr e ↦ rw e ]

    pub spine-node :
        spine (node l r) p i
        ≡ root_hash (sibling (bit p i) l r) ∷ spine (child (bit p i) l r) p (suc i)
    unfolding spine
    spine-node = elim (Bool-cases (bit p i == 1)) [ inl e ↦ rw e | inr e ↦ rw e ]

    pub hashes-node :
        hashes (node l r) p i
        ≡ root_hash (child (bit p i) l r) ∷ hashes (child (bit p i) l r) p (suc i)
    unfolding hashes
    hashes-node = elim (Bool-cases (bit p i == 1)) [ inl e ↦ rw e | inr e ↦ rw e ]

    pub last_side-node :
        (last : Bytes)
        → last_side (node l r) p i last
          ≡ last_side (child (bit p i) l r) p (suc i) (root_hash (sibling (bit p i) l r))
    unfolding last_side
    last_side-node last = elim (Bool-cases (bit p i == 1)) [ inl e ↦ rw e | inr e ↦ rw e ]

    pub bottom-node : bottom (node l r) p i ≡ bottom (child (bit p i) l r) p (suc i)
    unfolding bottom
    bottom-node = elim (Bool-cases (bit p i == 1)) [ inl e ↦ rw e | inr e ↦ rw e ]

    pub find-node : find (node l r) p i ≡ find (child (bit p i) l r) p (suc i)
    unfolding find
    find-node = elim (Bool-cases (bit p i == 1)) [ inl e ↦ rw e | inr e ↦ rw e ]
