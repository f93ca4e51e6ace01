-- ===== src/Trie/Distinct.antt =====
-- The data that a trie hashes: without collisions the data of different places differ.
pub mod Along
pub mod Deep
use smt.Prelude.{
  ℕ, zero, suc, ◌+◌, ◌≤◌, ◌<◌, ◌≡◌, ◌≢◌, refl, sym, ap, ◌∙◌, Bool, true, false, Bool-cases, inl,
  inr, ◌⊎◌, Option, none, some, List, [], ◌∷◌, ◌++◌, length, ◌==◌, if◌then◌else◌, arith,
}
use mathlib.Core.Path.{subst, ap₂}
use smt.Bytes.{Bytes}
use smt.Utils.Bits.{bit, bit-le}
use smt.TreeHasher.{Hasher, digest, path_size, placeholder, leaf_value, node_value}
use smt.TreeHasher.Layout.{
  leaf_value-ne-node_value, node_value-left, node_value-right, leaf_value-path, leaf_value-data,
}
use smt.TreeHasher.Collisions.{CollisionFree, Listed}
use smt.Trie.{Trie, empty, leaf, node, root_hash, Side, WellFormed, data_of}
use smt.Trie.Child.{length-root_hash}
use smt.Trie.Insert.{leaves, Full}

unfoldable pub size : Trie → ℕ
size empty = 0
size (leaf p v) = 1
size (node l r) = suc (size l + size r)

module _ ⦃h : Hasher⦄ where
  -- The data under which a leaf or a node of the trie is stored.
  abbrev pub Holds : Bytes → Trie → Type 0
  Holds d empty = ⊥
  Holds d (leaf p v) = d ≡ leaf_value p (digest v)
  Holds d (node l r) = (d ≡ node_value (root_hash l) (root_hash r)) ⊎ (Holds d l ⊎ Holds d r)

  -- All that the trie hashes, its values too, is among `Seen`.
  abbrev pub Within : (Bytes → Type 0) → Trie → Type 0
  Within Seen empty = Unit {0}
  Within Seen (leaf p v) = Seen (leaf_value p (digest v)) × Seen v
  Within Seen (node l r) =
      Seen (node_value (root_hash l) (root_hash r)) × Within Seen l × Within Seen r

  -- A trie at depth `i` that is well formed, with at least two leaves below each node.
  pub record IsSound (Seen : Bytes → Type 0) (i : ℕ) (t : Trie) : Type 0 where
    pub within : Within Seen t
    pub well_formed : WellFormed i t
    pub full : Full t

  pub IsSound-left :
      (Seen : Bytes → Type 0) (i : ℕ) (l r : Trie)
      → IsSound Seen i (node l r)
      → IsSound Seen (suc i) l
  IsSound-left Seen i l r x = record {
    within = x.within.1;
    well_formed = x.well_formed.3;
    full = x.full.1;
  }

  pub IsSound-right :
      (Seen : Bytes → Type 0) (i : ℕ) (l r : Trie)
      → IsSound Seen i (node l r)
      → IsSound Seen (suc i) r
  IsSound-right Seen i l r x = record {
    within = x.within.2;
    well_formed = x.well_formed.4;
    full = x.full.2;
  }

  pub Holds-Seen :
      (Seen : Bytes → Type 0) (t : Trie) (d : Bytes) → Within Seen t → Holds d t → Seen d
  Holds-Seen Seen empty d w a = absurd a
  Holds-Seen Seen (leaf p v) d w a = subst Seen (sym a) w.0
  Holds-Seen Seen (node l r) d w (inl a) = subst Seen (sym a) w.0
  Holds-Seen Seen (node l r) d w (inr (inl a)) = Holds-Seen Seen l d w.1 a
  Holds-Seen Seen (node l r) d w (inr (inr a)) = Holds-Seen Seen r d w.2 a

  module _ (Seen : Bytes → Type 0) (free : CollisionFree Seen) where
    -- Well formed tries, whose data and values are among data without collisions, are equal if
    -- their hashes are.
    pub root_hash_injective :
        (t u : Trie) (i j : ℕ)
        → Within Seen t
        → Within Seen u
        → WellFormed i t
        → WellFormed j u
        → root_hash t ≡ root_hash u
        → t ≡ u
    unfolding root_hash
    root_hash_injective empty empty i j wt wu ft fu e = refl
    root_hash_injective empty (leaf q w) i j wt wu ft fu e = absurd (free.nonzero _ wu.0 (sym e))
    root_hash_injective empty (node l r) i j wt wu ft fu e = absurd (free.nonzero _ wu.0 (sym e))
    root_hash_injective (leaf p v) empty i j wt wu ft fu e = absurd (free.nonzero _ wt.0 e)
    root_hash_injective (node l r) empty i j wt wu ft fu e = absurd (free.nonzero _ wt.0 e)
    root_hash_injective (leaf p v) (leaf q w) i j wt wu ft fu e =
        let same = free.injective _ _ wt.0 wu.0 e in
        let len = ft.0 ∙ sym fu.0 in
        ap₂ leaf (leaf_value-path p (digest v) q (digest w) len same)
          (free.injective v w wt.1 wu.1 (leaf_value-data p (digest v) q (digest w) len same))
    root_hash_injective (leaf p v) (node l r) i j wt wu ft fu e =
        absurd (leaf_value-ne-node_value _ _ _ _ (free.injective _ _ wt.0 wu.0 e))
    root_hash_injective (node l r) (leaf q w) i j wt wu ft fu e =
        absurd (leaf_value-ne-node_value _ _ _ _ (sym (free.injective _ _ wt.0 wu.0 e)))
    root_hash_injective (node l r) (node l' r') i j wt wu ft fu e =
        let same = free.injective _ _ wt.0 wu.0 e in
        let len = length-root_hash l ∙ sym (length-root_hash l') in
        let el =
          node_value-left (root_hash l) (root_hash r) (root_hash l') (root_hash r') len same in
        let er =
          node_value-right (root_hash l) (root_hash r) (root_hash l') (root_hash r') len same in
        ap₂ node (root_hash_injective l l' (suc i) (suc j) wt.1 wu.1 ft.3 fu.3 el)
          (root_hash_injective r r' (suc i) (suc j) wt.2 wu.2 ft.4 fu.4 er)

    -- The subtrie that data of a trie belongs to.
    pub record Part (t : Trie) (d : Bytes) : Type 0 where
      pub sub : Trie
      pub at : ℕ
      pub hash : root_hash sub ≡ digest d
      pub small : size sub ≤ size t
      pub within : Within Seen sub
      pub well_formed : WellFormed at sub
      pub some_leaf : 1 ≤ leaves sub
      pub sides : (j b : ℕ) → Side j b t → Side j b sub

    Holds-Part :
        (t : Trie) (i : ℕ) (d : Bytes)
        → Within Seen t
        → WellFormed i t
        → Full t
        → Holds d t
        → Part t d
    unfolding root_hash size
    Holds-Part empty i d w wf full a = absurd a
    Holds-Part (leaf p v) i d w wf full a = record {
      sub = leaf p v;
      at = i;
      hash = ap digest (sym a);
      small = omega arith;
      within = w;
      well_formed = wf;
      some_leaf = omega arith;
      sides = λ j b s. s;
    }
    Holds-Part (node l r) i d w wf full (inl a) = record {
      sub = node l r;
      at = i;
      hash = ap digest (sym a);
      small = omega arith;
      within = w;
      well_formed = wf;
      some_leaf = omega (arith, full.0);
      sides = λ j b s. s;
    }
    Holds-Part (node l r) i d w wf full (inr (inl a)) =
        let p = Holds-Part l (suc i) d w.1 wf.3 full.1 a in
        record {
          sub = p.sub;
          at = p.at;
          hash = p.hash;
          small = omega (arith, p.small);
          within = p.within;
          well_formed = p.well_formed;
          some_leaf = p.some_leaf;
          sides = λ j b s. p.sides j b s.0;
        }
    Holds-Part (node l r) i d w wf full (inr (inr a)) =
        let p = Holds-Part r (suc i) d w.2 wf.4 full.2 a in
        record {
          sub = p.sub;
          at = p.at;
          hash = p.hash;
          small = omega (arith, p.small);
          within = p.within;
          well_formed = p.well_formed;
          some_leaf = p.some_leaf;
          sides = λ j b s. p.sides j b s.1;
        }

    pub Side-unique : (t : Trie) (j b c : ℕ) → 1 ≤ leaves t → Side j b t → Side j c t → b ≡ c
    Side-unique empty j b c n sb sc = absurd (omega arith)
    Side-unique (leaf p v) j b c n sb sc = sym sb ∙ sc
    Side-unique (node l r) j b c n sb sc = elim (Bool-cases (leaves l == 0)) [
      | inl e ↦ Side-unique r j b c (ground arith) sb.1 sc.1
      | inr e ↦ Side-unique l j b c (ground arith) sb.0 sc.0
    ]

    -- Data of one side of a node is no data of the other side.
    pub Holds-apart :
        (t u : Trie) (i j b c : ℕ) (d : Bytes)
        → IsSound Seen i t
        → IsSound Seen i u
        → Side j b t
        → Side j c u
        → b ≢ c
        → Holds d t
        → Holds d u
        → ⊥
    Holds-apart t u i j b c d x y st su ne ht hu =
        let p = Holds-Part t i d x.within x.well_formed x.full ht in
        let q = Holds-Part u i d y.within y.well_formed y.full hu in
        let same =
          root_hash_injective p.sub q.sub p.at q.at p.within q.within p.well_formed q.well_formed
            (p.hash ∙ sym q.hash) in
        ne (
          Side-unique p.sub j b c p.some_leaf (p.sides j b st)
            (subst (Side j c) (sym same) (q.sides j c su)))

    -- A trie's own data is not the data of a smaller trie.
    pub Holds-smaller :
        (t u : Trie) (i j : ℕ) (d : Bytes)
        → IsSound Seen i t
        → IsSound Seen j u
        → size t < size u
        → Holds d t
        → root_hash u ≡ digest d
        → ⊥
    Holds-smaller t u i j d x y lt ht e =
        let p = Holds-Part t i d x.within x.well_formed x.full ht in
        let same =
          root_hash_injective p.sub u p.at j p.within y.within p.well_formed y.well_formed
            (p.hash ∙ sym e) in
        absurd (omega (arith, ap size same, p.small, lt))
