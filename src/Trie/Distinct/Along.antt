-- ===== src/Trie/Distinct/Along.antt =====
-- The data along a path of a trie, which an update deletes, and the data beside it, which it keeps.
use smt.Prelude.{
  ℕ, suc, ◌≡◌, ◌≢◌, refl, sym, ap, ◌∙◌, Bool-cases, inl, inr, ◌⊎◌, List, [], ◌∷◌, ◌++◌, ◌==◌,
  if◌then◌else◌, arith,
}
use smt.Bytes.{Bytes}
use smt.Utils.Bits.{bit}
use smt.TreeHasher.{Hasher, digest, node_value}
use smt.TreeHasher.Collisions.{CollisionFree, Listed}
use smt.Trie.{Trie, empty, leaf, node, root_hash, bottom}
use smt.Trie.Distinct.{
  size, Holds, IsSound, IsSound-left, IsSound-right, Holds-apart, Holds-smaller,
}

module _ ⦃h : Hasher⦄ where
  -- The data of the nodes on the path, from the lowest up.
  unfoldable pub node_data : Trie → Bytes → ℕ → List Bytes
  node_data (node l r) p i =
      let own = node_value (root_hash l) (root_hash r) in
      let right = node_data r p (suc i) ++ own ∷ [] in
      let left = node_data l p (suc i) ++ own ∷ [] in if bit p i == 1 then right else left
  node_data t p i = []

  -- Data of a subtrie beside the path.
  abbrev pub Beside : Bytes → Trie → Bytes → ℕ → Type 0
  Beside d (node l r) p i =
      let right : Type 0 = Holds d l ⊎ Beside d r p (suc i) in
      let left : Type 0 = Holds d r ⊎ Beside d l p (suc i) in if bit p i == 1 then right else left
  Beside d t p i = ⊥

  pub Listed-append :
      (xs : List Bytes) (x a : Bytes) → Listed (xs ++ x ∷ []) a → Listed xs a ⊎ (a ≡ x)
  Listed-append [] x a (inl e) = inr e
  Listed-append [] x a (inr m) = absurd m
  Listed-append (y ∷ xs) x a (inl e) = inl (inl e)
  Listed-append (y ∷ xs) x a (inr m) = elim (Listed-append xs x a m) [
    | inl k ↦ inl (inr k)
    | inr e ↦ inr e
  ]

  -- What is on the path is data of the trie.
  pub node_data-Holds :
      (t : Trie) (p : Bytes) (i : ℕ) (a : Bytes) → Listed (node_data t p i) a → Holds a t
  unfolding node_data
  node_data-Holds empty p i a m = absurd m
  node_data-Holds (leaf q v) p i a m = absurd m
  node_data-Holds (node l r) p i a m = elim (Bool-cases (bit p i == 1)) [
    | inl e ↦ elim (Listed-append (node_data r p (suc i)) _ a (rw e at m)) [
      | inl k ↦ inr (inr (node_data-Holds r p (suc i) a k))
      | inr own ↦ inl own
    ]
    | inr e ↦ elim (Listed-append (node_data l p (suc i)) _ a (rw e at m)) [
      | inl k ↦ inr (inl (node_data-Holds l p (suc i) a k))
      | inr own ↦ inl own
    ]
  ]

  pub Beside-Holds : (t : Trie) (p : Bytes) (i : ℕ) (d : Bytes) → Beside d t p i → Holds d t
  Beside-Holds empty p i d m = absurd m
  Beside-Holds (leaf q v) p i d m = absurd m
  Beside-Holds (node l r) p i d m = elim (Bool-cases (bit p i == 1)) [
    | inl e ↦ elim (let both : Holds d l ⊎ Beside d r p (suc i) = rw e at m in both) [
      | inl a ↦ inr (inl a)
      | inr k ↦ inr (inr (Beside-Holds r p (suc i) d k))
    ]
    | inr e ↦ elim (let both : Holds d r ⊎ Beside d l p (suc i) = rw e at m in both) [
      | inl a ↦ inr (inr a)
      | inr k ↦ inr (inl (Beside-Holds l p (suc i) d k))
    ]
  ]

  -- The end of the path is part of the trie.
  pub bottom-Holds : (t : Trie) (p : Bytes) (i : ℕ) (a : Bytes) → Holds a (bottom t p i) → Holds a t
  unfolding bottom
  bottom-Holds empty p i a m = m
  bottom-Holds (leaf q v) p i a m = m
  bottom-Holds (node l r) p i a m = elim (Bool-cases (bit p i == 1)) [
    | inl e ↦ inr (inr (bottom-Holds r p (suc i) a (rw e at m)))
    | inr e ↦ inr (inl (bottom-Holds l p (suc i) a (rw e at m)))
  ]

  -- The data of a node on the path is a node's data.
  pub node_data-node_value :
      (t : Trie) (p : Bytes) (i : ℕ) (a : Bytes)
      → Listed (node_data t p i) a
      → (l : Bytes) × (r : Bytes) × (a ≡ node_value l r)
  unfolding node_data
  node_data-node_value empty p i a m = absurd m
  node_data-node_value (leaf q v) p i a m = absurd m
  node_data-node_value (node l r) p i a m = elim (Bool-cases (bit p i == 1)) [
    | inl e ↦ elim (Listed-append (node_data r p (suc i)) _ a (rw e at m)) [
      | inl k ↦ node_data-node_value r p (suc i) a k
      | inr own ↦ (root_hash l, root_hash r, own)
    ]
    | inr e ↦ elim (Listed-append (node_data l p (suc i)) _ a (rw e at m)) [
      | inl k ↦ node_data-node_value l p (suc i) a k
      | inr own ↦ (root_hash l, root_hash r, own)
    ]
  ]

  -- Pairwise different.
  abbrev pub Distinct : List Bytes → Type 0
  Distinct [] = Unit {0}
  Distinct (d ∷ ds) = ((e : Bytes) → Listed ds e → d ≢ e) × Distinct ds

  Distinct-append :
      (xs : List Bytes) (x : Bytes)
      → Distinct xs
      → ((e : Bytes) → Listed xs e → e ≢ x)
      → Distinct (xs ++ x ∷ [])
  Distinct-append [] x d n = (λ e m. absurd m, tt)
  Distinct-append (y ∷ xs) x d n = (
    λ e m. elim (Listed-append xs x e m) [
      | inl k ↦ d.0 e k
      | inr at ↦ λ same. n y (inl refl) (same ∙ at)
    ],
    Distinct-append xs x d.1 (λ e m. n e (inr m)),
  )

  module _ (Seen : Bytes → Type 0) (free : CollisionFree Seen) where
    own_hash :
        (l r : Trie) (d : Bytes)
        → d ≡ node_value (root_hash l) (root_hash r)
        → root_hash (node l r) ≡ digest d
    unfolding root_hash
    own_hash l r d e = ap digest (sym e)

    -- A node's own data is data of no child.
    pub not_left :
        (l r : Trie) (i : ℕ) (d : Bytes)
        → IsSound Seen i (node l r)
        → Holds d l
        → d ≢ node_value (root_hash l) (root_hash r)
    unfolding size
    not_left l r i d x a own =
        Holds-smaller Seen free l (node l r) (suc i) i d (IsSound-left Seen i l r x) x (omega arith)
          a (own_hash l r d own)

    pub not_right :
        (l r : Trie) (i : ℕ) (d : Bytes)
        → IsSound Seen i (node l r)
        → Holds d r
        → d ≢ node_value (root_hash l) (root_hash r)
    unfolding size
    not_right l r i d x a own =
        Holds-smaller Seen free r (node l r) (suc i) i d (IsSound-right Seen i l r x) x
          (omega arith) a (own_hash l r d own)

    pub not_both :
        (l r : Trie) (i : ℕ) (d : Bytes) → IsSound Seen i (node l r) → Holds d l → Holds d r → ⊥
    not_both l r i d x a b =
        Holds-apart Seen free l r (suc i) i 0 1 d (IsSound-left Seen i l r x)
          (IsSound-right Seen i l r x) x.well_formed.1 x.well_formed.2
          (λ e. absurd (omega (arith, e))) a b

    pub node_data-Distinct :
        (t : Trie) (p : Bytes) (i : ℕ) → IsSound Seen i t → Distinct (node_data t p i)
    unfolding node_data
    node_data-Distinct empty p i x = tt
    node_data-Distinct (leaf q v) p i x = tt
    node_data-Distinct (node l r) p i x = elim (Bool-cases (bit p i == 1)) [
      | inl e ↦ rw e (
          Distinct-append (node_data r p (suc i)) _
            (node_data-Distinct r p (suc i) (IsSound-right Seen i l r x))
            (λ a m. not_right l r i a x (node_data-Holds r p (suc i) a m)))
      | inr e ↦ rw e (
          Distinct-append (node_data l p (suc i)) _
            (node_data-Distinct l p (suc i) (IsSound-left Seen i l r x))
            (λ a m. not_left l r i a x (node_data-Holds l p (suc i) a m)))
    ]

    -- Data on the path, the end of the path included.
    abbrev pub OnPath : Bytes → Trie → Bytes → ℕ → Type 0
    OnPath d t p i = Listed (node_data t p i) d ⊎ Holds d (bottom t p i)

    OnPath-Holds : (t : Trie) (p : Bytes) (i : ℕ) (d : Bytes) → OnPath d t p i → Holds d t
    OnPath-Holds t p i d (inl m) = node_data-Holds t p i d m
    OnPath-Holds t p i d (inr m) = bottom-Holds t p i d m

    OnPath-node :
        (l r : Trie) (p : Bytes) (i : ℕ) (d : Bytes)
        → OnPath d (node l r) p i
        → (if bit p i == 1 then OnPath d r p (suc i) else OnPath d l p (suc i))
          ⊎ (d ≡ node_value (root_hash l) (root_hash r))
    unfolding node_data bottom
    OnPath-node l r p i d (inl m) = elim (Bool-cases (bit p i == 1)) [
      | inl e ↦ elim (Listed-append (node_data r p (suc i)) _ d (rw e at m)) [
        | inl k ↦ inl (rw e (inl k))
        | inr own ↦ inr own
      ]
      | inr e ↦ elim (Listed-append (node_data l p (suc i)) _ d (rw e at m)) [
        | inl k ↦ inl (rw e (inl k))
        | inr own ↦ inr own
      ]
    ]
    OnPath-node l r p i d (inr m) = elim (Bool-cases (bit p i == 1)) [
      | inl e ↦ inl (rw e (inr (rw e at m)))
      | inr e ↦ inl (rw e (inr (rw e at m)))
    ]

    -- Data beside the path is nowhere on it.
    pub Beside-apart :
        (t : Trie) (p : Bytes) (i : ℕ) (d : Bytes)
        → IsSound Seen i t
        → Beside d t p i
        → OnPath d t p i
        → ⊥
    Beside-apart empty p i d x m o = m
    Beside-apart (leaf q v) p i d x m o = m
    Beside-apart (node l r) p i d x m o = elim (Bool-cases (bit p i == 1)) [
      | inl e ↦
          let beside : Holds d l ⊎ Beside d r p (suc i) = rw e at m in
          let on : OnPath d r p (suc i) ⊎ (d ≡ node_value (root_hash l) (root_hash r)) =
            rw e at (OnPath-node l r p i d o) in
          elim beside [
            | inl a ↦ elim on [
              | inl k ↦ not_both l r i d x a (OnPath-Holds r p (suc i) d k)
              | inr own ↦ not_left l r i d x a own
            ]
            | inr b ↦ elim on [
              | inl k ↦ Beside-apart r p (suc i) d (IsSound-right Seen i l r x) b k
              | inr own ↦ not_right l r i d x (Beside-Holds r p (suc i) d b) own
            ]
          ]
      | inr e ↦
          let beside : Holds d r ⊎ Beside d l p (suc i) = rw e at m in
          let on : OnPath d l p (suc i) ⊎ (d ≡ node_value (root_hash l) (root_hash r)) =
            rw e at (OnPath-node l r p i d o) in
          elim beside [
            | inl a ↦ elim on [
              | inl k ↦ not_both l r i d x (OnPath-Holds l p (suc i) d k) a
              | inr own ↦ not_right l r i d x a own
            ]
            | inr b ↦ elim on [
              | inl k ↦ Beside-apart l p (suc i) d (IsSound-left Seen i l r x) b k
              | inr own ↦ not_left l r i d x (Beside-Holds l p (suc i) d b) own
            ]
          ]
    ]
