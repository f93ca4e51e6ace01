-- ===== src/Trie/Remove/Shape.antt =====
-- A deletion keeps a trie well formed, with at least two leaves below each node, and one of a path
-- without a leaf changes nothing.
use smt.Prelude.{
  ℕ, suc, ◌+◌, ◌≤◌, ◌<◌, ◌≡◌, refl, sym, ap, ◌∙◌, true, false, Bool-cases, inl, inr, none, ◌==◌,
  arith,
}
use smt.Bytes.{Bytes, bytes_equal}
use smt.Utils.Bits.{bit, bit-le}
use smt.TreeHasher.{Hasher}
use smt.Tree.Walk.{depth}
use smt.Trie.{Trie, empty, leaf, node, find, Side, WellFormed}
use smt.Trie.Child.{child, sibling, child-of, sibling-of, find-node}
use smt.Trie.Descend.{bit_lem}
use smt.Trie.Insert.{fork, leaves, Full}
use smt.Trie.Insert.Shape.{fork-of, Full-fork, leaves-fork}
use smt.Trie.Remove.{collapse, remove, remove-node, other, Side-sibling, Side-remove}

module _ ⦃h : Hasher⦄ where
  WellFormed-fork :
      (b i : ℕ) (c x : Trie)
      → b ≤ 1
      → i < depth
      → Side i b c
      → Side i (other b) x
      → WellFormed (suc i) c
      → WellFormed (suc i) x
      → WellFormed i (fork b c x)
  WellFormed-fork b i c x le lt sc sx wc wx =
      fork-of (WellFormed i) b c x
        (λ one.
          (lt, let e : (b == 1) ≡ true = ground (arith, one) in rw e at sx, rw one at sc, wx, wc))
        (λ off.
          let nil : b ≡ 0 = ground (arith, off, le) in
          (lt, rw nil at sc, let e : (b == 1) ≡ false = ground (arith, off) in rw e at sx, wc, wx))

  WellFormed-collapse :
      (b i : ℕ) (c x : Trie)
      → b ≤ 1
      → i < depth
      → Side i b c
      → Side i (other b) x
      → WellFormed (suc i) c
      → WellFormed (suc i) x
      → WellFormed i (collapse b c x)
  unfolding collapse
  WellFormed-collapse b i empty empty le lt sc sx wc wx = tt
  WellFormed-collapse b i empty (leaf q w) le lt sc sx wc wx = wx
  WellFormed-collapse b i empty (node l r) le lt sc sx wc wx =
      WellFormed-fork b i _ _ le lt sc sx wc wx
  WellFormed-collapse b i (leaf p v) empty le lt sc sx wc wx = wc
  WellFormed-collapse b i (leaf p v) (leaf q w) le lt sc sx wc wx =
      WellFormed-fork b i _ _ le lt sc sx wc wx
  WellFormed-collapse b i (leaf p v) (node l r) le lt sc sx wc wx =
      WellFormed-fork b i _ _ le lt sc sx wc wx
  WellFormed-collapse b i (node l r) x le lt sc sx wc wx = WellFormed-fork b i _ _ le lt sc sx wc wx

  pub WellFormed-remove :
      (t : Trie) (p : Bytes) (i : ℕ) → WellFormed i t → WellFormed i (remove t p i)
  WellFormed-remove empty p i wf = unfold remove in tt
  WellFormed-remove (leaf q v) p i wf =
      unfold remove in elim (Bool-cases (bytes_equal q p)) [ inl e ↦ rw e tt | inr e ↦ rw e wf ]
  WellFormed-remove (node l r) p i wf =
      let b = bit p i in
      let c = child b l r in
      let below =
        child-of (λ c. WellFormed (suc i) (remove c p (suc i))) b l r
          (WellFormed-remove l p (suc i) wf.3) (WellFormed-remove r p (suc i) wf.4) in
      rw (remove-node l r p i) (
        WellFormed-collapse b i (remove c p (suc i)) (sibling b l r) (bit-le p i) wf.0
          (Side-remove c p (suc i) i b (bit_lem p i l r wf.1 wf.2)) (Side-sibling p i l r wf.1 wf.2)
          below (sibling-of (WellFormed (suc i)) b l r wf.3 wf.4))

  Full-collapse : (b : ℕ) (c x : Trie) → Full c → Full x → Full (collapse b c x)
  unfolding collapse
  Full-collapse b empty empty fc fx = tt
  Full-collapse b empty (leaf q w) fc fx = tt
  Full-collapse b empty (node l r) fc fx = Full-fork b _ _ (omega (arith, fx.0)) fc fx
  Full-collapse b (leaf p v) empty fc fx = tt
  Full-collapse b (leaf p v) (leaf q w) fc fx = Full-fork b _ _ (omega arith) fc fx
  Full-collapse b (leaf p v) (node l r) fc fx = Full-fork b _ _ (omega (arith, fx.0)) fc fx
  Full-collapse b (node l r) x fc fx = Full-fork b _ _ (omega (arith, fc.0)) fc fx

  pub Full-remove : (t : Trie) (p : Bytes) (i : ℕ) → Full t → Full (remove t p i)
  Full-remove empty p i full = unfold remove in tt
  Full-remove (leaf q v) p i full =
      unfold remove in elim (Bool-cases (bytes_equal q p)) [ inl e ↦ rw e tt | inr e ↦ rw e tt ]
  Full-remove (node l r) p i full =
      let b = bit p i in
      rw (remove-node l r p i) (
        Full-collapse b _ _
          (child-of (λ c. Full (remove c p (suc i))) b l r (Full-remove l p (suc i) full.1)
            (Full-remove r p (suc i) full.2))
          (sibling-of Full b l r full.1 full.2))

  collapse-two : (b : ℕ) (c x : Trie) → 2 ≤ leaves c + leaves x → collapse b c x ≡ fork b c x
  unfolding collapse
  collapse-two b empty empty two = absurd (omega (arith, two))
  collapse-two b empty (leaf q w) two = absurd (omega (arith, two))
  collapse-two b empty (node l r) two = refl
  collapse-two b (leaf p v) empty two = absurd (omega (arith, two))
  collapse-two b (leaf p v) (leaf q w) two = refl
  collapse-two b (leaf p v) (node l r) two = refl
  collapse-two b (node l r) x two = refl

  leaves-collapse : (b : ℕ) (c x : Trie) → leaves (collapse b c x) ≡ leaves c + leaves x
  unfolding collapse
  leaves-collapse b empty empty = refl
  leaves-collapse b empty (leaf q w) = refl
  leaves-collapse b empty (node l r) = leaves-fork b _ _
  leaves-collapse b (leaf p v) empty = refl
  leaves-collapse b (leaf p v) (leaf q w) = leaves-fork b _ _
  leaves-collapse b (leaf p v) (node l r) = leaves-fork b _ _
  leaves-collapse b (node l r) x = leaves-fork b _ _

  leaves-children :
      (b : ℕ) (l r : Trie) → leaves (child b l r) + leaves (sibling b l r) ≡ leaves l + leaves r
  leaves-children b l r = elim (Bool-cases (b == 1)) [
    | inl e ↦ rw e (omega arith)
    | inr e ↦ rw e refl
  ]

  -- At most one leaf is lost.
  pub leaves-remove : (t : Trie) (p : Bytes) (i : ℕ) → leaves t ≤ suc (leaves (remove t p i))
  leaves-remove empty p i = unfold remove in omega arith
  leaves-remove (leaf q v) p i = omega arith
  leaves-remove (node l r) p i =
      let b = bit p i in
      let c = child b l r in
      let below =
        child-of (λ c. leaves c ≤ suc (leaves (remove c p (suc i)))) b l r
          (leaves-remove l p (suc i)) (leaves-remove r p (suc i)) in
      rw (remove-node l r p i, leaves-collapse b (remove c p (suc i)) (sibling b l r))
        (omega (arith, below, leaves-children b l r))

  -- A child on the path keeps a leaf, or its sibling has one.
  pub leaves-beside :
      (l r : Trie) (p : Bytes) (i : ℕ)
      → 2 ≤ leaves l + leaves r
      → 1 ≤ leaves (remove (child (bit p i) l r) p (suc i)) + leaves (sibling (bit p i) l r)
  leaves-beside l r p i two =
      omega
        (arith, leaves-remove (child (bit p i) l r) p (suc i), leaves-children (bit p i) l r, two)

  -- A full node is what it collapses to.
  collapse-children :
      (b : ℕ) (l r : Trie)
      → 2 ≤ leaves l + leaves r
      → b ≤ 1
      → collapse b (child b l r) (sibling b l r) ≡ node l r
  collapse-children b l r two le = elim (Bool-cases (b == 1)) [
    | inl e ↦
        let one : b ≡ 1 = ground arith in
        rw one (collapse-two 1 r l (omega (arith, two)) ∙ unfold fork in refl)
    | inr e ↦
        let nil : b ≡ 0 = ground (arith, le) in
        rw nil (collapse-two 0 l r two ∙ unfold fork in refl)
  ]

  -- A removal at a path that has no value changes nothing.
  pub remove-none : (t : Trie) (p : Bytes) (i : ℕ) → Full t → find t p i ≡ none → remove t p i ≡ t
  remove-none empty p i full e = unfold remove in refl
  remove-none (leaf q v) p i full e =
      unfold remove find in
      elim (Bool-cases (bytes_equal q p)) [
        | inl same ↦ absurd (ground (arith, same, e))
        | inr differ ↦ rw differ refl
      ]
  remove-none (node l r) p i full e =
      let b = bit p i in
      let there = sym (find-node l r p i) ∙ e in
      let below =
        child-of (λ c. find c p (suc i) ≡ none → remove c p (suc i) ≡ c) b l r
          (remove-none l p (suc i) full.1) (remove-none r p (suc i) full.2) there in
      remove-node l r p i
      ∙ ap (λ c. collapse b c (sibling b l r)) below
      ∙ collapse-children b l r full.0 (bit-le p i)
