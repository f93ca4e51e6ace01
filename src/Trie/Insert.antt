-- ===== src/Trie/Insert.antt =====
-- What an update does to a trie: the leaf of a path is put in or replaced, and a leaf in its way moves
-- down to the first bit in which the two paths differ.
pub mod Shape
use smt.Prelude.{
  ℕ, zero, suc, ◌+◌, ◌-◌, ◌*◌, ◌≤◌, ◌<◌, ◌≡◌, ◌≢◌, refl, sym, ap, ◌∙◌, Bool, true, false,
  Bool-cases, inl, inr, ◌⊎◌, Option, none, some, List, [], ◌∷◌, length, ◌==◌, ltb, if◌then◌else◌,
  arith, All,
}
use smt.Bytes.{Bytes, IsByte, bytes_equal, bytes_equal→eq, bytes_equal_iff, bytes_equal_refl}
use smt.Utils.Bits.{bit, bit-le, bits_determine}
use smt.TreeHasher.{Hasher, path_size}
use smt.Tree.Walk.{depth}
use smt.Trie.{Trie, empty, leaf, node, find, Side, WellFormed}
use smt.Trie.Descend.{Agrees, Agrees-child}
use smt.Trie.Child.{child, sibling, child-of, sibling-of, find-node}

-- The node with `c` on the side of the bit `b`, and `x` on the other side.
unfoldable pub fork : ℕ → Trie → Trie → Trie
fork b c x = if b == 1 then node x c else node c x

-- The leaves of two paths from depth `i` on, with at most `n` bits to compare.
unfoldable pub split : ℕ → ℕ → Bytes → Bytes → Bytes → Bytes → Trie
unfolding fork
split zero i p v q w = leaf p v
split (suc n) i p v q w =
    let deeper = split n (suc i) p v q w in
    if bit p i == bit q i then fork (bit p i) deeper empty else fork (bit p i) (leaf p v) (leaf q w)

abbrev pub leaves : Trie → ℕ
leaves empty = 0
leaves (leaf p v) = 1
leaves (node l r) = leaves l + leaves r

-- A node has at least two leaves below it: what has one is the leaf itself.
abbrev pub Full : Trie → Type 0
Full empty = Unit {0}
Full (leaf p v) = Unit {0}
Full (node l r) = (2 ≤ leaves l + leaves r) × Full l × Full r

module _ ⦃h : Hasher⦄ where
  unfoldable pub insert : Trie → Bytes → Bytes → ℕ → Trie
  unfolding split bytes_equal
  insert empty p v i = leaf p v
  insert (leaf q w) p v i = if bytes_equal q p then leaf p v else split (depth - i) i p v q w
  insert (node l r) p v i =
      let right = node l (insert r p v (suc i)) in
      let left = node (insert l p v (suc i)) r in if bit p i == 1 then right else left

  pub insert-node :
      (l r : Trie) (p v : Bytes) (i : ℕ)
      → insert (node l r) p v i
        ≡ fork (bit p i) (insert (child (bit p i) l r) p v (suc i)) (sibling (bit p i) l r)
  unfolding insert fork
  insert-node l r p v i = elim (Bool-cases (bit p i == 1)) [ inl e ↦ rw e | inr e ↦ rw e ]

  pub find-fork :
      (b : ℕ) (c x : Trie) (q : Bytes) (i : ℕ)
      → b ≤ 1
      → find (fork b c x) q i ≡ (if bit q i == b then find c q (suc i) else find x q (suc i))
  unfolding find fork
  find-fork b c x q i le = ground (arith, bit-le q i)

  find_leaf :
      (q v p : Bytes) (i : ℕ) → find (leaf q v) p i ≡ (if bytes_equal q p then some v else none)
  unfolding find
  find_leaf q v p i = refl

  find-empty : (p : Bytes) (i : ℕ) → find empty p i ≡ none
  unfolding find
  find-empty p i = refl

  same_bit : (p k : Bytes) (i : ℕ) → bytes_equal p k ≡ true → bit k i ≡ bit p i
  same_bit p k i e = ap (λ x. bit x i) (sym (bytes_equal→eq p k e))

  -- The two paths differ in one of the bits that are left.
  abbrev pub Differ : ℕ → ℕ → Bytes → Bytes → Type 0
  Differ n i p q = (c : ℕ) × (i ≤ c) × (c < i + n) × (bit p c ≢ bit q c)

  Differ-suc :
      (n i : ℕ) (p q : Bytes) → Differ (suc n) i p q → bit p i ≡ bit q i → Differ n (suc i) p q
  Differ-suc n i p q (c, lo, hi, d) e = elim (Bool-cases (c == i)) [
    | inl at ↦ let here : c ≡ i = ground arith in absurd (d (rw here e))
    | inr off ↦ (c, ground arith, omega arith, d)
  ]

  Differ-or_agree :
      (n i : ℕ) (p q : Bytes) → Differ n i p q ⊎ ((j : ℕ) → i ≤ j → j < i + n → bit p j ≡ bit q j)
  Differ-or_agree zero i p q = inr (λ j lo hi. absurd (omega arith))
  Differ-or_agree (suc n) i p q = elim (Bool-cases (bit p i == bit q i)) [
    | inr off ↦ inl (i, omega arith, omega arith, λ e. ground arith)
    | inl at ↦ elim (Differ-or_agree n (suc i) p q) [
      | inl (c, lo, hi, d) ↦ inl (c, omega arith, omega arith, d)
      | inr all ↦ inr λ j lo hi. elim (Bool-cases (j == i)) [
        | inl here ↦ let e : j ≡ i = ground arith in rw e (ground arith)
        | inr later ↦ all j (ground arith) (omega arith)
      ]
    ]
  ]

  -- Different paths that agree above differ in one of the bits that are left.
  pub Differ-of_ne :
      (i : ℕ) (p q : Bytes)
      → bytes_equal q p ≡ false
      → length p ≡ path_size
      → length q ≡ path_size
      → All IsByte p
      → All IsByte q
      → ((j : ℕ) → j < i → bit q j ≡ bit p j)
      → i ≤ depth
      → Differ (depth - i) i p q
  Differ-of_ne i p q ne lp lq bp bq above le = elim (Differ-or_agree (depth - i) i p q) [
    | inl d ↦ d
    | inr all ↦
        let same : q ≡ p = bits_determine q p (lq ∙ sym lp) bq bp λ j lt.
          elim (Bool-cases (ltb j i)) [
            | inl early ↦ above j (ground arith)
            | inr late ↦ sym (all j (ground arith) (omega (arith, lt, lq, le)))
          ] in
        absurd (ground (arith, ne, bytes_equal_iff q p, same))
  ]

  find-split :
      (n i : ℕ) (p v q w k : Bytes)
      → bytes_equal q p ≡ false
      → Differ n i p q
      → find (split n i p v q w) k i
        ≡ (if bytes_equal p k then some v else (if bytes_equal q k then some w else none))
  unfolding split
  find-split zero i p v q w k ne (c, lo, hi, d) = absurd (omega arith)
  find-split (suc n) i p v q w k ne diff = elim (Bool-cases (bit p i == bit q i)) [
    | inl e ↦
        let ih = find-split n (suc i) p v q w k ne (Differ-suc n i p q diff (ground arith)) in
        rw e (
          find-fork (bit p i) _ _ k i (bit-le p i)
          ∙ rw (ih, find-empty) (ground (arith, e, same_bit p k i, same_bit q k i)))
    | inr e ↦ rw e (
        find-fork (bit p i) _ _ k i (bit-le p i)
        ∙ rw (find_leaf p v, find_leaf q w)
            (ground (
              arith,
              e,
              ne,
              same_bit p k i,
              same_bit q k i,
              bytes_equal_iff p k,
              bytes_equal_iff q k,
              bytes_equal_iff q p,
            )))
  ]

  insert_right :
      (l r : Trie) (p v : Bytes) (i : ℕ)
      → (bit p i == 1) ≡ true
      → (k : Bytes)
      → find (insert r p v (suc i)) k (suc i)
        ≡ (if bytes_equal p k then some v else find r k (suc i))
      → find (insert (node l r) p v i) k i
        ≡ (if bytes_equal p k then some v else find (node l r) k i)
  unfolding insert find
  insert_right l r p v i e k ih = rw e (ground (arith, e, ih, same_bit p k i))

  insert_left :
      (l r : Trie) (p v : Bytes) (i : ℕ)
      → (bit p i == 1) ≡ false
      → (k : Bytes)
      → find (insert l p v (suc i)) k (suc i)
        ≡ (if bytes_equal p k then some v else find l k (suc i))
      → find (insert (node l r) p v i) k i
        ≡ (if bytes_equal p k then some v else find (node l r) k i)
  unfolding insert find
  insert_left l r p v i e k ih = rw e (ground (arith, e, ih, same_bit p k i))

  -- The value at any path after an insertion.
  pub find-insert :
      (t : Trie) (p v k : Bytes) (i : ℕ)
      → length p ≡ path_size
      → All IsByte p
      → i ≤ depth
      → Agrees p i t
      → WellFormed i t
      → find (insert t p v i) k i ≡ (if bytes_equal p k then some v else find t k i)
  find-insert empty p v k i len bytes le ag wf = unfold insert in rw (find_leaf, find-empty)
  find-insert (leaf q w) p v k i len bytes le ag wf = elim (Bool-cases (bytes_equal q p)) [
    | inl e ↦
        unfold insert in
        rw (e, find_leaf p v, find_leaf q w)
          (ground (arith, e, bytes_equal_iff q p, bytes_equal_iff p k, bytes_equal_iff q k))
    | inr e ↦
        unfold insert in
        rw (
          e,
          find-split (depth - i) i p v q w k e (Differ-of_ne i p q e len wf.0 bytes wf.1 ag le),
          find_leaf q w,
        )
  ]
  find-insert (node l r) p v k i len bytes le ag wf = elim (Bool-cases (bit p i == 1)) [
    | inl e ↦
        let below = rw e at (Agrees-child p i l r ag wf.1 wf.2) in
        let ih = find-insert r p v k (suc i) len bytes (omega (arith, wf.0)) below wf.4 in
        insert_right l r p v i e k ih
    | inr e ↦
        let below = rw e at (Agrees-child p i l r ag wf.1 wf.2) in
        let ih = find-insert l p v k (suc i) len bytes (omega (arith, wf.0)) below wf.3 in
        insert_left l r p v i e k ih
  ]
