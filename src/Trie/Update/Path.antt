-- ===== src/Trie/Update/Path.antt =====
-- The path of an insertion in the new trie: its side nodes, its end, and what stands beside it.
use smt.Prelude.{
  ℕ, zero, suc, ◌+◌, ◌-◌, ◌≤◌, ◌<◌, ◌≡◌, ◌≢◌, refl, ap, ◌∙◌, true, false, Bool-cases, inl, inr, ◌⊎◌,
  [], ◌∷◌, ◌++◌, length, replicate, ◌==◌, arith,
}
use native.Mathlib.Nat.{add-zero}
use smt.Bytes.{Bytes, bytes_equal}
use smt.Utils.Bits.{bit}
use smt.TreeHasher.{Hasher, digest, placeholder, leaf_value}
use smt.Tree.Walk.{depth}
use smt.Trie.{Trie, empty, leaf, node, root_hash, spine, bottom}
use smt.Trie.Walk.{root_hash-empty}
use smt.Trie.Child.{child, sibling, child-of, spine-node, bottom-node}
use smt.Trie.Insert.{fork, split, insert, insert-node}
use smt.Trie.Distinct.{Holds}
use smt.Trie.Distinct.Along.{Beside}

module _ ⦃h : Hasher⦄ where
  spine-fork :
      (c x : Trie) (p : Bytes) (i : ℕ)
      → spine (fork (bit p i) c x) p i ≡ root_hash x ∷ spine c p (suc i)
  unfolding spine fork
  spine-fork c x p i = elim (Bool-cases (bit p i == 1)) [ inl e ↦ rw (e, e) | inr e ↦ rw (e, e) ]

  bottom-fork :
      (c x : Trie) (p : Bytes) (i : ℕ) → bottom (fork (bit p i) c x) p i ≡ bottom c p (suc i)
  unfolding bottom fork
  bottom-fork c x p i = elim (Bool-cases (bit p i == 1)) [ inl e ↦ rw (e, e) | inr e ↦ rw (e, e) ]

  -- Paths that share the next `k` bits and differ in the one after them.
  abbrev pub Part : ℕ → ℕ → Bytes → Bytes → Type 0
  Part k i p q = ((j : ℕ) → i ≤ j → j < i + k → bit p j ≡ bit q j) × (bit p (i + k) ≢ bit q (i + k))

  Part-suc : (k i : ℕ) (p q : Bytes) → Part (suc k) i p q → Part k (suc i) p q
  Part-suc k i p q (same, off) =
      let e : i + suc k ≡ suc i + k = omega arith in
      (λ j lo hi. same j (omega arith) (omega arith), rw e at off)

  pub spine-split :
      (n k i : ℕ) (p v q w : Bytes)
      → k < n
      → Part k i p q
      → spine (split n i p v q w) p i ≡ replicate k placeholder ++ root_hash (leaf q w) ∷ []
  unfolding split
  spine-split zero k i p v q w lt part = absurd (omega arith)
  spine-split (suc n) zero i p v q w lt (same, off) =
      let differ : (bit p i == bit q i) ≡ false = ground (arith, rw (add-zero i) at off) in
      rw differ (spine-fork (leaf p v) (leaf q w) p i ∙ unfold spine in refl)
  spine-split (suc n) (suc k) i p v q w lt part =
      let agree : (bit p i == bit q i) ≡ true =
        ground (arith, part.0 i (omega arith) (omega arith)) in
      let ih = spine-split n k (suc i) p v q w (omega arith) (Part-suc k i p q part) in
      rw agree (spine-fork _ empty p i ∙ rw (ih, root_hash-empty))

  pub bottom-split : (n i : ℕ) (p v q w : Bytes) → bottom (split n i p v q w) p i ≡ leaf p v
  unfolding split
  bottom-split zero i p v q w = unfold bottom in refl
  bottom-split (suc n) i p v q w =
      let ih = bottom-split n (suc i) p v q w in
      elim (Bool-cases (bit p i == bit q i)) [
        | inl e ↦ rw e (bottom-fork _ empty p i ∙ ih)
        | inr e ↦ rw e (bottom-fork (leaf p v) (leaf q w) p i ∙ bottom-leaf)
      ]
    where
      bottom-leaf : bottom (leaf p v) p (suc i) ≡ leaf p v
      bottom-leaf = unfold bottom in refl

  pub bottom-insert : (t : Trie) (p v : Bytes) (i : ℕ) → bottom (insert t p v i) p i ≡ leaf p v
  unfolding insert
  bottom-insert empty p v i = unfold bottom in refl
  bottom-insert (leaf q w) p v i = elim (Bool-cases (bytes_equal q p)) [
    | inl e ↦ rw e (unfold bottom in refl)
    | inr e ↦ rw e (bottom-split (depth - i) i p v q w)
  ]
  bottom-insert (node l r) p v i = rw (insert-node l r p v i) (
      bottom-fork _ _ p i
      ∙ child-of (λ c. bottom (insert c p v (suc i)) p (suc i) ≡ leaf p v) (bit p i) l r
          (bottom-insert l p v (suc i)) (bottom-insert r p v (suc i)))

  -- The side nodes of the trie stay, and those of the end of the path follow.
  pub spine-insert :
      (t : Trie) (p v : Bytes) (i : ℕ)
      → let j = i + length (spine t p i) in
        spine (insert t p v i) p i ≡ spine t p i ++ spine (insert (bottom t p i) p v j) p j
  spine-insert empty p v i = unfold spine bottom in rw (add-zero i)
  spine-insert (leaf q w) p v i = unfold spine bottom in rw (add-zero i)
  spine-insert (node l r) p v i =
      let b = bit p i in
      let c = child b l r in
      let below =
        child-of
          (λ c.
            spine (insert c p v (suc i)) p (suc i)
            ≡ spine c p (suc i)
              ++ spine (insert (bottom c p (suc i)) p v (suc i + length (spine c p (suc i)))) p
                  (suc i + length (spine c p (suc i))))
          b l r (spine-insert l p v (suc i)) (spine-insert r p v (suc i)) in
      let shift : i + suc (length (spine c p (suc i))) ≡ suc i + length (spine c p (suc i)) =
        omega arith in
      rw (insert-node l r p v i, spine-node l r p i, bottom-node l r p i, shift)
        (spine-fork _ _ p i ∙ ap (◌∷◌ (root_hash (sibling b l r))) below)

  Beside-fork :
      (c x : Trie) (p : Bytes) (i : ℕ) (d : Bytes)
      → Beside d (fork (bit p i) c x) p i
      → Holds d x ⊎ Beside d c p (suc i)
  unfolding fork
  Beside-fork c x p i d m = elim (Bool-cases (bit p i == 1)) [
    | inl e ↦ rw (e, e) at m
    | inr e ↦ rw (e, e) at m
  ]

  Beside-split :
      (n i : ℕ) (p v q w d : Bytes) → Beside d (split n i p v q w) p i → Holds d (leaf q w)
  unfolding split
  Beside-split zero i p v q w d m = absurd m
  Beside-split (suc n) i p v q w d m = elim (Bool-cases (bit p i == bit q i)) [
    | inl e ↦ elim (Beside-fork _ empty p i d (rw e at m)) [
      | inl a ↦ absurd a
      | inr k ↦ Beside-split n (suc i) p v q w d k
    ]
    | inr e ↦ elim (Beside-fork (leaf p v) (leaf q w) p i d (rw e at m)) [
      | inl a ↦ a
      | inr k ↦ absurd k
    ]
  ]

  -- The data of a leaf of another path, at the end of the walk.
  abbrev pub Moved : Bytes → Bytes → Trie → Type 0
  Moved d p t =
      (q : Bytes) × (w : Bytes) × (t ≡ leaf q w)
      × (bytes_equal q p ≡ false)
      × (d ≡ leaf_value q (digest w))

  -- Beside the new path stands what stood beside the old one, or another leaf that stood at its end.
  pub Beside-insert :
      (t : Trie) (p v : Bytes) (i : ℕ) (d : Bytes)
      → Beside d (insert t p v i) p i
      → Beside d t p i ⊎ Moved d p (bottom t p i)
  unfolding insert bottom
  Beside-insert empty p v i d m = absurd m
  Beside-insert (leaf q w) p v i d m = elim (Bool-cases (bytes_equal q p)) [
    | inl e ↦ absurd (let none_there : ⊥ = rw e at m in none_there)
    | inr e ↦ inr (q, w, refl, e, Beside-split (depth - i) i p v q w d (rw e at m))
  ]
  Beside-insert (node l r) p v i d m = elim (Bool-cases (bit p i == 1)) [
    | inl e ↦
        elim (let k : Holds d l ⊎ Beside d (insert r p v (suc i)) p (suc i) = rw (e, e) at m in k) [
          | inl a ↦ inl (rw e (inl a))
          | inr k ↦ elim (Beside-insert r p v (suc i) d k) [
            | inl b ↦ inl (rw e (inr b))
            | inr b ↦ inr (rw e b)
          ]
        ]
    | inr e ↦
        elim (let k : Holds d r ⊎ Beside d (insert l p v (suc i)) p (suc i) = rw (e, e) at m in k) [
          | inl a ↦ inl (rw e (inl a))
          | inr k ↦ elim (Beside-insert l p v (suc i) d k) [
            | inl b ↦ inl (rw e (inr b))
            | inr b ↦ inr (rw e b)
          ]
        ]
  ]
