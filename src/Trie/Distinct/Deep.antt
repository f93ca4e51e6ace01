-- ===== src/Trie/Distinct/Deep.antt =====
-- A node of a trie stands nowhere deeper: without collisions its data is no data of what a bulk update
-- puts below it.
use smt.Prelude.{ℕ, suc, ◌≤◌, ◌<◌, ◌≡◌, refl, sym, ap, ◌∙◌, Bool-cases, inl, inr, ◌==◌, arith}
use mathlib.Core.Path.{subst}
use smt.Bytes.{Bytes}
use smt.TreeHasher.{Hasher, digest, node_value}
use smt.TreeHasher.Collisions.{CollisionFree}
use smt.Trie.{Trie, empty, leaf, node, root_hash, Side, WellFormed}
use smt.Trie.Insert.{leaves, Full}
use smt.Trie.Distinct.{Holds, Within, IsSound, root_hash_injective, Side-unique}

module _ ⦃h : Hasher⦄ (Seen : Bytes → Type 0) (free : CollisionFree Seen) where
  -- The leaves share their bits from `i` on and before `j`.
  abbrev Uniform : ℕ → ℕ → Trie → Type 0
  Uniform i j t = (m : ℕ) → i ≤ m → m < j → (b : ℕ) × Side m b t

  -- A trie of two leaves is well formed at one depth only, if its leaves share the bits between.
  one_depth :
      (t : Trie) (i j : ℕ)
      → i < j
      → WellFormed i t
      → WellFormed j t
      → Full t
      → 2 ≤ leaves t
      → Uniform i j t
      → ⊥
  one_depth empty i j lt wi wj full two same = absurd (omega (arith, two))
  one_depth (leaf p v) i j lt wi wj full two same = absurd (omega (arith, two))
  one_depth (node l r) i j lt wi wj full two same = elim (Bool-cases (leaves l == 0)) [
    | inl e ↦
        one_depth r (suc i) (suc j) (omega (arith, lt)) wi.4 wj.4 full.2 (ground (arith, e, two))
          λ m lo hi. elim (Bool-cases (m == j)) [
            | inl at ↦ let q : m ≡ j = ground (arith, at) in (1, rw q wj.2)
            | inr off ↦
                let (b, s) = same m (omega (arith, lo)) (ground (arith, off, hi)) in (b, s.1)
          ]
    | inr e ↦ elim (Bool-cases (leaves r == 0)) [
      | inl f ↦
          one_depth l (suc i) (suc j) (omega (arith, lt)) wi.3 wj.3 full.1 (ground (arith, f, two))
            λ m lo hi. elim (Bool-cases (m == j)) [
              | inl at ↦ let q : m ≡ j = ground (arith, at) in (0, rw q wj.1)
              | inr off ↦
                  let (b, s) = same m (omega (arith, lo)) (ground (arith, off, hi)) in (b, s.0)
            ]
      | inr f ↦
          let (b, s) = same i (omega arith) lt in
          let zero_side = Side-unique Seen free l i 0 b (ground (arith, e)) wi.1 s.0 in
          let one_side = Side-unique Seen free r i 1 b (ground (arith, f)) wi.2 s.1 in
          absurd (omega (arith, zero_side, one_side))
    ]
  ]

  -- The subtrie that data of a trie belongs to, with its depth.
  record Deep (t : Trie) (i : ℕ) (d : Bytes) : Type 0 where
    sub : Trie
    at : ℕ
    above : i ≤ at
    hash : root_hash sub ≡ digest d
    within : Within Seen sub
    well_formed : WellFormed at sub
    same_bits : Uniform i at sub
    sides : (j b : ℕ) → Side j b t → Side j b sub

  own_Deep :
      (t : Trie) (i : ℕ) (d : Bytes)
      → Within Seen t
      → WellFormed i t
      → root_hash t ≡ digest d
      → Deep t i d
  own_Deep t i d w wf e = record {
    sub = t;
    at = i;
    above = omega arith;
    hash = e;
    within = w;
    well_formed = wf;
    same_bits = λ m lo hi. absurd (omega (arith, lo, hi));
    sides = λ j b s. s;
  }

  deeper :
      (t c : Trie) (i b : ℕ) (d : Bytes)
      → Side i b c
      → ((j b : ℕ) → Side j b t → Side j b c)
      → Deep c (suc i) d
      → Deep t i d
  deeper t c i b d side sides x = record {
    sub = x.sub;
    at = x.at;
    above = omega (arith, x.above);
    hash = x.hash;
    within = x.within;
    well_formed = x.well_formed;
    same_bits = λ m lo hi. elim (Bool-cases (m == i)) [
      | inl e ↦ let q : m ≡ i = ground (arith, e) in (b, rw q (x.sides i b side))
      | inr e ↦ x.same_bits m (ground (arith, e, lo)) hi
    ];
    sides = λ j c s. x.sides j c (sides j c s);
  }

  Holds-Deep :
      (t : Trie) (i : ℕ) (d : Bytes) → Within Seen t → WellFormed i t → Holds d t → Deep t i d
  unfolding root_hash
  Holds-Deep empty i d w wf m = absurd m
  Holds-Deep (leaf p v) i d w wf m = own_Deep (leaf p v) i d w wf (ap digest (sym m))
  Holds-Deep (node l r) i d w wf (inl m) = own_Deep (node l r) i d w wf (ap digest (sym m))
  Holds-Deep (node l r) i d w wf (inr (inl m)) =
      deeper (node l r) l i 0 d wf.1 (λ j b s. s.0) (Holds-Deep l (suc i) d w.1 wf.3 m)
  Holds-Deep (node l r) i d w wf (inr (inr m)) =
      deeper (node l r) r i 1 d wf.2 (λ j b s. s.1) (Holds-Deep r (suc i) d w.2 wf.4 m)

  own_hash : (l r : Trie) → digest (node_value (root_hash l) (root_hash r)) ≡ root_hash (node l r)
  unfolding root_hash
  own_hash l r = refl

  -- A node's data is not that of a trie at the next depth on one side of the node's bit.
  pub not_below :
      (l r c : Trie) (i b : ℕ)
      → IsSound Seen i (node l r)
      → IsSound Seen (suc i) c
      → Side i b c
      → Holds (node_value (root_hash l) (root_hash r)) c
      → ⊥
  unfolding deeper
  not_below l r c i b x y side m =
      let deep =
        deeper c c i b _ side (λ j b s. s) (Holds-Deep c (suc i) _ y.within y.well_formed m) in
      let below = Holds-Deep c (suc i) _ y.within y.well_formed m in
      let same =
        root_hash_injective Seen free deep.sub (node l r) deep.at i deep.within x.within
          deep.well_formed x.well_formed (deep.hash ∙ own_hash l r) in
      one_depth (node l r) i deep.at (omega (arith, below.above)) x.well_formed
        (subst (WellFormed deep.at) same deep.well_formed) x.full x.full.0
        (subst (Uniform i deep.at) same deep.same_bits)
