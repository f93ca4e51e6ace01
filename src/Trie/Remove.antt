-- ===== src/Trie/Remove.antt =====
-- What a deletion does to a trie: the leaf of a path is taken out, and a leaf that is left alone below a
-- node moves up in its place.
pub mod Shape
pub mod Step
pub mod Climb
pub mod Deletes
pub mod Represents
use smt.Prelude.{
  ℕ, suc, ◌+◌, ◌≤◌, ◌<◌, ◌≡◌, ◌≢◌, refl, sym, ap, ◌∙◌, true, false, Bool-cases, inl, inr, none,
  some, length, ◌==◌, if◌then◌else◌, arith,
}
use smt.Bytes.{Bytes, bytes_equal, bytes_equal→eq, bytes_equal_iff}
use smt.Utils.Bits.{bit, bit-le}
use smt.TreeHasher.{Hasher}
use smt.Trie.{Trie, empty, leaf, node, find, Side, WellFormed}
use smt.Trie.Child.{child, sibling, child-of}
use smt.Trie.Descend.{bit_lem, find-empty}
use smt.Trie.Insert.{fork, find-fork}

-- The node with `c` on the side of the bit `b`, unless only one leaf is left.
unfoldable pub collapse : ℕ → Trie → Trie → Trie
unfolding fork
collapse b empty empty = empty
collapse b empty (leaf q w) = leaf q w
collapse b empty (node l r) = fork b empty (node l r)
collapse b (leaf p v) empty = leaf p v
collapse b (leaf p v) (leaf q w) = fork b (leaf p v) (leaf q w)
collapse b (leaf p v) (node l r) = fork b (leaf p v) (node l r)
collapse b (node l r) x = fork b (node l r) x

module _ ⦃h : Hasher⦄ where
  unfoldable pub remove : Trie → Bytes → ℕ → Trie
  unfolding bytes_equal collapse
  remove empty p i = empty
  remove (leaf q v) p i = if bytes_equal q p then empty else leaf q v
  remove (node l r) p i =
      let right = collapse 1 (remove r p (suc i)) l in
      let left = collapse 0 (remove l p (suc i)) r in if bit p i == 1 then right else left

  pub remove-node :
      (l r : Trie) (p : Bytes) (i : ℕ)
      → remove (node l r) p i
        ≡ collapse (bit p i) (remove (child (bit p i) l r) p (suc i)) (sibling (bit p i) l r)
  unfolding remove
  remove-node l r p i = elim (Bool-cases (bit p i == 1)) [
    | inl e ↦ let one : bit p i ≡ 1 = ground arith in rw (e, one) refl
    | inr e ↦ let nil : bit p i ≡ 0 = ground (arith, bit-le p i) in rw (e, nil) refl
  ]

  find_leaf :
      (q v p : Bytes) (i : ℕ) → find (leaf q v) p i ≡ (if bytes_equal q p then some v else none)
  unfolding find
  find_leaf q v p i = refl

  -- A leaf that stands on a side has no value for a path on the other side.
  find_leaf_off :
      (q v k : Bytes) (i j b : ℕ)
      → bit q j ≡ b
      → (bit k j == b) ≡ false
      → find (leaf q v) k i ≡ none
  find_leaf_off q v k i j b side off = elim (Bool-cases (bytes_equal q k)) [
    | inl e ↦
        let same = ap (λ x. bit x j) (bytes_equal→eq q k e) in
        absurd (ground (arith, side, off, same))
    | inr e ↦ find_leaf q v k i ∙ rw e refl
  ]

  find_leaf_any : (q v k : Bytes) (i j : ℕ) → find (leaf q v) k i ≡ find (leaf q v) k j
  find_leaf_any q v k i j = find_leaf q v k i ∙ sym (find_leaf q v k j)

  -- The collapsed node has the values of both its sides.
  find-collapse :
      (b o : ℕ) (c x : Trie) (k : Bytes) (i : ℕ)
      → b ≤ 1
      → b ≢ o
      → Side i b c
      → Side i o x
      → find (collapse b c x) k i ≡ (if bit k i == b then find c k (suc i) else find x k (suc i))
  unfolding collapse
  find-collapse b o empty empty k i le ne sc sx = elim (Bool-cases (bit k i == b)) [
    | inl e ↦ rw e (find-empty k i ∙ sym (find-empty k (suc i)))
    | inr e ↦ rw e (find-empty k i ∙ sym (find-empty k (suc i)))
  ]
  find-collapse b o empty (leaf q w) k i le ne sc sx = elim (Bool-cases (bit k i == b)) [
    | inl e ↦
        rw e (find_leaf_off q w k i i o sx (ground (arith, e, ne)) ∙ sym (find-empty k (suc i)))
    | inr e ↦ rw e (find_leaf_any q w k i (suc i))
  ]
  find-collapse b o empty (node l r) k i le ne sc sx = find-fork b _ _ k i le
  find-collapse b o (leaf p v) empty k i le ne sc sx = elim (Bool-cases (bit k i == b)) [
    | inl e ↦ rw e (find_leaf_any p v k i (suc i))
    | inr e ↦ rw e (find_leaf_off p v k i i b sc e ∙ sym (find-empty k (suc i)))
  ]
  find-collapse b o (leaf p v) (leaf q w) k i le ne sc sx = find-fork b _ _ k i le
  find-collapse b o (leaf p v) (node l r) k i le ne sc sx = find-fork b _ _ k i le
  find-collapse b o (node l r) x k i le ne sc sx = find-fork b _ _ k i le

  Side-fork : (j b d : ℕ) (c x : Trie) → Side j b c → Side j b x → Side j b (fork d c x)
  unfolding fork
  Side-fork j b d c x sc sx = elim (Bool-cases (d == 1)) [
    | inl e ↦ rw e (sx, sc)
    | inr e ↦ rw e (sc, sx)
  ]

  Side-collapse : (j b d : ℕ) (c x : Trie) → Side j b c → Side j b x → Side j b (collapse d c x)
  unfolding collapse
  Side-collapse j b d empty empty sc sx = tt
  Side-collapse j b d empty (leaf q w) sc sx = sx
  Side-collapse j b d empty (node l r) sc sx = Side-fork j b d _ _ sc sx
  Side-collapse j b d (leaf p v) empty sc sx = sc
  Side-collapse j b d (leaf p v) (leaf q w) sc sx = Side-fork j b d _ _ sc sx
  Side-collapse j b d (leaf p v) (node l r) sc sx = Side-fork j b d _ _ sc sx
  Side-collapse j b d (node l r) x sc sx = Side-fork j b d _ _ sc sx

  -- The side that the bit does not choose.
  abbrev pub other : ℕ → ℕ
  other b = if b == 1 then 0 else 1

  pub Side-sibling :
      (p : Bytes) (i : ℕ) (l r : Trie)
      → Side i 0 l
      → Side i 1 r
      → Side i (other (bit p i)) (sibling (bit p i) l r)
  Side-sibling p i l r sl sr = elim (Bool-cases (bit p i == 1)) [
    | inl e ↦ rw e sl
    | inr e ↦ rw e sr
  ]

  pub other-ne : (b : ℕ) → b ≢ other b
  other-ne b = elim (Bool-cases (b == 1)) [
    | inl e ↦ rw e (λ q. absurd (ground arith))
    | inr e ↦ rw e (λ q. absurd (ground arith))
  ]

  pub Side-remove : (t : Trie) (p : Bytes) (i j b : ℕ) → Side j b t → Side j b (remove t p i)
  unfolding remove
  Side-remove empty p i j b s = tt
  Side-remove (leaf q v) p i j b s = elim (Bool-cases (bytes_equal q p)) [
    | inl e ↦ rw e tt
    | inr e ↦ rw e s
  ]
  Side-remove (node l r) p i j b s =
      let right =
        Side-collapse j b 1 (remove r p (suc i)) l (Side-remove r p (suc i) j b s.1) s.0 in
      let left = Side-collapse j b 0 (remove l p (suc i)) r (Side-remove l p (suc i) j b s.0) s.1 in
      elim (Bool-cases (bit p i == 1)) [ inl e ↦ rw e right | inr e ↦ rw e left ]

  -- The values at the child on the path and at its sibling.
  find-child :
      (l r : Trie) (p k : Bytes) (i : ℕ)
      → find (node l r) k i ≡ (
          if bit k i == bit p i
          then find (child (bit p i) l r) k (suc i)
          else find (sibling (bit p i) l r) k (suc i))
  unfolding find
  find-child l r p k i = ground (arith, bit-le p i, bit-le k i)

  same_bit : (p k : Bytes) (i : ℕ) → bytes_equal p k ≡ true → (bit k i == bit p i) ≡ true
  same_bit p k i e = let same = ap (λ x. bit x i) (bytes_equal→eq p k e) in ground (arith, same)

  -- The value at any path after a removal.
  pub find-remove :
      (t : Trie) (p k : Bytes) (i : ℕ)
      → WellFormed i t
      → find (remove t p i) k i ≡ (if bytes_equal p k then none else find t k i)
  find-remove empty p k i wf =
      unfold remove in
      elim (Bool-cases (bytes_equal p k)) [ inl e ↦ rw e (find-empty k i) | inr e ↦ rw e refl ]
  find-remove (leaf q v) p k i wf =
      unfold remove in
      elim (Bool-cases (bytes_equal q p)) [
        | inl e ↦
            rw (e, find-empty k i, find_leaf q v k i)
              (ground (arith, e, bytes_equal_iff q p, bytes_equal_iff p k, bytes_equal_iff q k))
        | inr e ↦
            rw (e, find_leaf q v k i)
              (ground (arith, e, bytes_equal_iff q p, bytes_equal_iff p k, bytes_equal_iff q k))
      ]
  find-remove (node l r) p k i wf =
      let b = bit p i in
      let c = child b l r in
      let below =
        child-of
          (λ c.
            find (remove c p (suc i)) k (suc i)
            ≡ (if bytes_equal p k then none else find c k (suc i)))
          b l r (find-remove l p k (suc i) wf.3) (find-remove r p k (suc i) wf.4) in
      let here =
        find-collapse b (other b) (remove c p (suc i)) (sibling b l r) k i (bit-le p i) (other-ne b)
          (Side-remove c p (suc i) i b (bit_lem p i l r wf.1 wf.2))
          (Side-sibling p i l r wf.1 wf.2) in
      rw (remove-node l r p i, here, below, find-child l r p k i)
        (elim (Bool-cases (bytes_equal p k)) [
          | inl e ↦ rw (e, same_bit p k i e) refl
          | inr e ↦ rw e refl
        ])
