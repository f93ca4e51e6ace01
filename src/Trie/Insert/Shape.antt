-- ===== src/Trie/Insert/Shape.antt =====
-- An insertion keeps a trie well formed, with at least two leaves below each node.
use smt.Prelude.{
  ℕ, zero, suc, ◌+◌, ◌-◌, ◌≤◌, ◌<◌, ◌≡◌, ◌≢◌, refl, ◌∙◌, false, Bool-cases, inl, inr, [], length,
  ◌==◌, arith, All,
}
use smt.Bytes.{Bytes, IsByte, bytes_equal}
use smt.Utils.Bits.{bit, bit-le}
use smt.TreeHasher.{Hasher, path_size}
use smt.Tree.Walk.{depth}
use smt.Trie.{Trie, empty, leaf, node, Side, WellFormed}
use smt.Trie.Descend.{Agrees, Agrees-child}
use smt.Trie.Insert.{fork, split, leaves, Full, insert, Differ, Differ-suc, Differ-of_ne}

module _ ⦃h : Hasher⦄ where
  -- What holds of a fork, if it holds of the node in both orders.
  pub fork-of :
      (P : Trie → Type 0) (b : ℕ) (c x : Trie)
      → (b ≡ 1 → P (node x c))
      → (b ≢ 1 → P (node c x))
      → P (fork b c x)
  unfolding fork
  fork-of P b c x one other = elim (Bool-cases (b == 1)) [
    | inl e ↦ rw e (one (ground arith))
    | inr e ↦ rw e (other (ground arith))
  ]

  Side-split :
      (n i : ℕ) (p v q w : Bytes) (j b : ℕ)
      → bit p j ≡ b
      → bit q j ≡ b
      → Side j b (split n i p v q w)
  unfolding split
  Side-split zero i p v q w j b ep eq = ep
  Side-split (suc n) i p v q w j b ep eq =
      let below = Side-split n (suc i) p v q w j b ep eq in
      elim (Bool-cases (bit p i == bit q i)) [
        | inl e ↦ rw e (fork-of (Side j b) (bit p i) _ _ (λ o. (tt, below)) (λ o. (below, tt)))
        | inr e ↦ rw e (fork-of (Side j b) (bit p i) _ _ (λ o. (eq, ep)) (λ o. (ep, eq)))
      ]

  Side-insert :
      (t : Trie) (p v : Bytes) (i j b : ℕ) → bit p j ≡ b → Side j b t → Side j b (insert t p v i)
  unfolding insert
  Side-insert empty p v i j b e s = e
  Side-insert (leaf q w) p v i j b e s = elim (Bool-cases (bytes_equal q p)) [
    | inl same ↦ rw same e
    | inr other ↦ rw other (Side-split (depth - i) i p v q w j b e s)
  ]
  Side-insert (node l r) p v i j b e s =
      let right = Side-insert r p v (suc i) j b e s.1 in
      let left = Side-insert l p v (suc i) j b e s.0 in
      elim (Bool-cases (bit p i == 1)) [ inl o ↦ rw o (s.0, right) | inr o ↦ rw o (left, s.1) ]

  bit-zero : (p : Bytes) (i : ℕ) → bit p i ≢ 1 → bit p i ≡ 0
  bit-zero p i n = ground (arith, bit-le p i)

  abbrev IsPath : Bytes → Bytes → Type 0
  IsPath p v = (length p ≡ path_size) × All IsByte p × (v ≢ [])

  WellFormed-split :
      (n i : ℕ) (p v q w : Bytes)
      → i + n ≤ depth
      → IsPath p v
      → IsPath q w
      → WellFormed i (split n i p v q w)
  unfolding split
  WellFormed-split zero i p v q w le hp hq = hp
  WellFormed-split (suc n) i p v q w le hp hq =
      let below = WellFormed-split n (suc i) p v q w (omega arith) hp hq in
      let lt : i < depth = omega arith in
      elim (Bool-cases (bit p i == bit q i)) [
        | inl e ↦
            let same : bit q i ≡ bit p i = ground arith in
            rw e (
              fork-of (WellFormed i) (bit p i) _ _
                (λ o. (lt, tt, Side-split n (suc i) p v q w i 1 o (same ∙ o), tt, below))
                (λ o.
                  let nil = bit-zero p i o in
                  (lt, Side-split n (suc i) p v q w i 0 nil (same ∙ nil), tt, below, tt)))
        | inr e ↦ rw e (
            fork-of (WellFormed i) (bit p i) _ _
              (λ o. (lt, ground (arith, e, bit-le q i), o, hq, hp))
              (λ o. let nil = bit-zero p i o in (lt, nil, ground (arith, e, bit-le q i), hp, hq)))
      ]

  pub WellFormed-insert :
      (t : Trie) (p v : Bytes) (i : ℕ)
      → i ≤ depth
      → length p ≡ path_size
      → All IsByte p
      → v ≢ []
      → WellFormed i t
      → WellFormed i (insert t p v i)
  unfolding insert
  WellFormed-insert empty p v i le len bytes ne wf = (len, bytes, ne)
  WellFormed-insert (leaf q w) p v i le len bytes ne wf = elim (Bool-cases (bytes_equal q p)) [
    | inl same ↦ rw same (len, bytes, ne)
    | inr other ↦
        rw other (WellFormed-split (depth - i) i p v q w (omega (arith, le)) (len, bytes, ne) wf)
  ]
  WellFormed-insert (node l r) p v i le len bytes ne wf =
      let right = WellFormed-insert r p v (suc i) (omega (arith, wf.0)) len bytes ne wf.4 in
      let left = WellFormed-insert l p v (suc i) (omega (arith, wf.0)) len bytes ne wf.3 in
      elim (Bool-cases (bit p i == 1)) [
        | inl o ↦ rw o (wf.0, wf.1, Side-insert r p v (suc i) i 1 (ground arith) wf.2, wf.3, right)
        | inr o ↦
            let nil = bit-zero p i (ground arith) in
            rw o (wf.0, Side-insert l p v (suc i) i 0 nil wf.1, wf.2, left, wf.4)
      ]

  pub leaves-fork : (b : ℕ) (c x : Trie) → leaves (fork b c x) ≡ leaves c + leaves x
  unfolding fork
  leaves-fork b c x = elim (Bool-cases (b == 1)) [
    | inl e ↦ rw e (omega arith)
    | inr e ↦ rw e (omega arith)
  ]

  leaves-split : (n i : ℕ) (p v q w : Bytes) → Differ n i p q → leaves (split n i p v q w) ≡ 2
  unfolding split
  leaves-split zero i p v q w (c, lo, hi, d) = absurd (omega arith)
  leaves-split (suc n) i p v q w diff = elim (Bool-cases (bit p i == bit q i)) [
    | inl e ↦
        let ih = leaves-split n (suc i) p v q w (Differ-suc n i p q diff (ground arith)) in
        rw e (leaves-fork (bit p i) _ _ ∙ omega (arith, ih))
    | inr e ↦ rw e (leaves-fork (bit p i) _ _ ∙ refl)
  ]

  pub Full-fork :
      (b : ℕ) (c x : Trie) → 2 ≤ leaves c + leaves x → Full c → Full x → Full (fork b c x)
  Full-fork b c x two fc fx = fork-of Full b c x (λ o. (omega arith, fx, fc)) (λ o. (two, fc, fx))

  Full-split : (n i : ℕ) (p v q w : Bytes) → Differ n i p q → Full (split n i p v q w)
  unfolding split
  Full-split zero i p v q w diff = tt
  Full-split (suc n) i p v q w diff = elim (Bool-cases (bit p i == bit q i)) [
    | inl e ↦
        let deeper = Differ-suc n i p q diff (ground arith) in
        let two = leaves-split n (suc i) p v q w deeper in
        rw e (
          Full-fork (bit p i) _ empty (omega (arith, two)) (Full-split n (suc i) p v q w deeper) tt)
    | inr e ↦ rw e (Full-fork (bit p i) _ _ (omega arith) tt tt)
  ]

  module _ (p v : Bytes) (len : length p ≡ path_size) (bytes : All IsByte p) where
    Differ-leaf :
        (q w : Bytes) (i : ℕ)
        → bytes_equal q p ≡ false
        → i ≤ depth
        → Agrees p i (leaf q w)
        → WellFormed i (leaf q w)
        → Differ (depth - i) i p q
    Differ-leaf q w i other le ag wf = Differ-of_ne i p q other len wf.0 bytes wf.1 ag le

    -- No leaf is lost, and there is one.
    pub leaves-insert :
        (t : Trie) (i : ℕ)
        → i ≤ depth
        → Agrees p i t
        → WellFormed i t
        → (leaves t ≤ leaves (insert t p v i)) × (1 ≤ leaves (insert t p v i))
    unfolding insert
    leaves-insert empty i le ag wf = omega arith
    leaves-insert (leaf q w) i le ag wf = elim (Bool-cases (bytes_equal q p)) [
      | inl same ↦ rw same (omega arith)
      | inr other ↦
          let two = leaves-split (depth - i) i p v q w (Differ-leaf q w i other le ag wf) in
          rw other (omega (arith, two), omega (arith, two))
    ]
    leaves-insert (node l r) i le ag wf = elim (Bool-cases (bit p i == 1)) [
      | inl o ↦
          let ih =
            leaves-insert r (suc i) (omega (arith, wf.0))
              (rw o at (Agrees-child p i l r ag wf.1 wf.2)) wf.4 in
          rw o (omega (arith, ih), omega (arith, ih))
      | inr o ↦
          let ih =
            leaves-insert l (suc i) (omega (arith, wf.0))
              (rw o at (Agrees-child p i l r ag wf.1 wf.2)) wf.3 in
          rw o (omega (arith, ih), omega (arith, ih))
    ]

    pub Full-insert :
        (t : Trie) (i : ℕ)
        → i ≤ depth
        → Agrees p i t
        → WellFormed i t
        → Full t
        → Full (insert t p v i)
    unfolding insert
    Full-insert empty i le ag wf full = tt
    Full-insert (leaf q w) i le ag wf full = elim (Bool-cases (bytes_equal q p)) [
      | inl same ↦ rw same tt
      | inr other ↦ rw other (Full-split (depth - i) i p v q w (Differ-leaf q w i other le ag wf))
    ]
    Full-insert (node l r) i le ag wf full = elim (Bool-cases (bit p i == 1)) [
      | inl o ↦
          let below = rw o at (Agrees-child p i l r ag wf.1 wf.2) in
          let more = leaves-insert r (suc i) (omega (arith, wf.0)) below wf.4 in
          rw o (
            omega (arith, more.0, full.0),
            full.1,
            Full-insert r (suc i) (omega (arith, wf.0)) below wf.4 full.2,
          )
      | inr o ↦
          let below = rw o at (Agrees-child p i l r ag wf.1 wf.2) in
          let more = leaves-insert l (suc i) (omega (arith, wf.0)) below wf.3 in
          rw o (
            omega (arith, more.0, full.0),
            Full-insert l (suc i) (omega (arith, wf.0)) below wf.3 full.1,
            full.2,
          )
    ]
