-- ===== src/Trie/Descend.antt =====
-- GetDescend of deepsubtree.go on stores that hold a trie and its values.
use smt.Prelude.{
  ℕ, zero, suc, ◌+◌, ◌<◌, ◌≡◌, ◌≢◌, refl, sym, ap, ◌∙◌, false, Bool-cases, inl, inr, none, some, [],
  length, ◌==◌, if◌then◌else◌, arith, All,
}
use mathlib.Core.Option.{get_or}
use native.Mathlib.Numerals.{add-one}
use smt.Res.{ok}
use smt.Bytes.{
  Bytes, IsByte, bytes_equal, bytes_equal_iff, bytes_equal_refl, bytes_equal→eq, eq→bytes_equal,
}
use smt.Utils.Bits.{bit, bit-le, get_bit_at_from_msb_lem, bits_determine}
use smt.TreeHasher.{Hasher, digest, path, path_size, placeholder}
use smt.TreeHasher.Layout.{
  is_leaf-leaf_value, is_leaf-node_value, parse_leaf-leaf_value, parse_node-node_value,
}
use smt.MapStore.{MapStore}
use smt.Tree.{SparseMerkleTree}
use smt.Tree.Run.{return}
use smt.Tree.Walk.{depth}
use smt.Tree.Api.{default_value}
use smt.DeepSubTree.{descend_loop, get_descend}
use smt.Trie.{Trie, empty, leaf, node, root_hash, find, Side, WellFormed, Stored}
use smt.Trie.Child.{child, child-of, length-root_hash, find-node}
use smt.Trie.Walk.{HashKeyed, not_placeholder, root_hash-empty, get_stored}

module _ ⦃h : Hasher⦄ where
  -- The leaves below agree with the path on its first `i` bits.
  abbrev pub Agrees : Bytes → ℕ → Trie → Type 0
  Agrees p i t = (j : ℕ) → j < i → Side j (bit p j) t

  pub bit_lem :
      (p : Bytes) (i : ℕ) (l r : Trie)
      → Side i 0 l
      → Side i 1 r
      → Side i (bit p i) (child (bit p i) l r)
  bit_lem p i l r sl sr = elim (Bool-cases (bit p i == 1)) [
    | inl e ↦ let one : bit p i ≡ 1 = ground arith in rw one sr
    | inr e ↦ let nil : bit p i ≡ 0 = ground (arith, bit-le p i) in rw nil sl
  ]

  pub Agrees-child :
      (p : Bytes) (i : ℕ) (l r : Trie)
      → Agrees p i (node l r)
      → Side i 0 l
      → Side i 1 r
      → Agrees p (suc i) (child (bit p i) l r)
  Agrees-child p i l r a sl sr j lt = elim (Bool-cases (j == i)) [
    | inl e ↦ let at : j ≡ i = ground arith in rw at (bit_lem p i l r sl sr)
    | inr e ↦
        let earlier : j < i = ground arith in
        child-of (Side j (bit p j)) (bit p i) l r (a j earlier).0 (a j earlier).1
  ]

  find-leaf :
      (q v p : Bytes) (i : ℕ) → find (leaf q v) p i ≡ (if bytes_equal q p then some v else none)
  unfolding find
  find-leaf q v p i = refl

  find-leaf_self : (q v p : Bytes) (i : ℕ) → q ≡ p → find (leaf q v) p i ≡ some v
  find-leaf_self q v p i e = find-leaf q v p i ∙ rw (eq→bytes_equal q p e)

  find-leaf_other : (q v p : Bytes) (i : ℕ) → bytes_equal p q ≡ false → find (leaf q v) p i ≡ none
  find-leaf_other q v p i e =
      find-leaf q v p i ∙ ground (arith, bytes_equal_iff p q, bytes_equal_iff q p)

  pub find-empty : (p : Bytes) (i : ℕ) → find empty p i ≡ none
  unfolding find
  find-empty p i = refl

  next-child :
      (b : ℕ) (l r : Trie)
      → ◌≡◌ {A = Bytes} (if b == 1 then root_hash r else root_hash l) (root_hash (child b l r))
  next-child b l r = elim (Bool-cases (b == 1)) [ inl e ↦ rw e | inr e ↦ rw e ]

  module _ {N V : Type 0} ⦃ns : MapStore N⦄ ⦃vs : MapStore V⦄ (store : HashKeyed ns)
      (s : SparseMerkleTree N V) where
    -- A path that the trie holds has its value in the value store.
    abbrev pub ValuesAt : Trie → Bytes → ℕ → Type 0
    ValuesAt t p i = (v : Bytes) → find t p i ≡ some v → vs.get s.values p ≡ ok v

    -- The end of a round, at a placeholder or with one round less.
    descend_child :
        (n : ℕ) (c : Trie) (p : Bytes) (i : ℕ)
        → Stored (store.lookup s.nodes) c
        → (c ≢ empty → descend_loop n p i (root_hash c) s ≡ (ok (get_or (find c p i) []), s))
        → (if bytes_equal (root_hash c) placeholder
              then return default_value
              else descend_loop n p i (root_hash c))
            s
          ≡ (ok (get_or (find c p i) []), s)
    descend_child n empty p i held on =
        rw (root_hash-empty, bytes_equal_refl placeholder, find-empty p i)
    descend_child n (leaf q v) p i held on = rw (not_placeholder _ held.1) (on λ e. cc)
    descend_child n (node l r) p i held on = rw (not_placeholder _ held.1) (on λ e. cc)

    descend_loop-find :
        (n : ℕ) (t : Trie) (p : Bytes) (i : ℕ)
        → i + n ≡ depth
        → length p ≡ path_size
        → All IsByte p
        → t ≢ empty
        → Stored (store.lookup s.nodes) t
        → WellFormed i t
        → Agrees p i t
        → ValuesAt t p i
        → descend_loop n p i (root_hash t) s ≡ (ok (get_or (find t p i) []), s)
    unfolding descend_loop
    descend_loop-find n empty p i e len hb ne held wf ag vals = absurd (ne refl)
    descend_loop-find zero (leaf q v) p i e len hb ne held wf ag vals =
        let same : q ≡ p =
          bits_determine q p (wf.0 ∙ sym len) wf.1 hb (λ j lt. ag j (omega (arith, wf.0))) in
        let here = find-leaf_self q v p i same in rw (here, vals v here)
    descend_loop-find zero (node l r) p i e len hb ne held wf ag vals = absurd (omega (arith, wf.0))
    descend_loop-find (suc n) (leaf q v) p i e len hb ne held wf ag vals =
        rw
          (
            get_stored store s.nodes (leaf q v) _ held.0,
            is_leaf-leaf_value,
            parse_leaf-leaf_value q (digest v) wf.0,
          )
          (elim (Bool-cases (bytes_equal p q)) [
            | inl same ↦
                let here = find-leaf_self q v p i (sym (bytes_equal→eq p q same)) in
                rw (same, here, vals v here)
            | inr differs ↦ rw (differs, find-leaf_other q v p i differs)
          ])
    descend_loop-find (suc n) (node l r) p i e len hb ne held wf ag vals =
        let b = bit p i in
        let c = child b l r in
        let held' = child-of (Stored (store.lookup s.nodes)) b l r held.2 held.3 in
        rw
          (
            get_stored store s.nodes (node l r) _ held.0,
            is_leaf-node_value,
            parse_node-node_value (root_hash l) (root_hash r) (length-root_hash l),
            get_bit_at_from_msb_lem p i (omega arith),
            next-child b l r,
            add-one i,
            find-node l r p i,
          )
          (descend_child n c p (suc i) held' (λ there.
            descend_loop-find n c p (suc i) (omega arith) len hb there held'
              (child-of (WellFormed (suc i)) b l r wf.3 wf.4) (Agrees-child p i l r ag wf.1 wf.2)
              (λ v found. vals v (find-node l r p i ∙ found))))

    from_top :
        (t : Trie) (p : Bytes)
        → length p ≡ path_size
        → All IsByte p
        → Stored (store.lookup s.nodes) t
        → WellFormed 0 t
        → ValuesAt t p 0
        → (if bytes_equal (root_hash t) placeholder
            then (ok default_value, s)
            else descend_loop depth p 0 (root_hash t) s)
          ≡ (ok (get_or (find t p 0) []), s)
    from_top empty p len hb held wf vals =
        rw (root_hash-empty, bytes_equal_refl placeholder, find-empty p 0)
    from_top (leaf q v) p len hb held wf vals = rw (not_placeholder _ held.1) (
        descend_loop-find depth (leaf q v) p 0 (omega arith) len hb (λ e. cc) held wf
          (λ j lt. absurd (omega arith)) vals)
    from_top (node l r) p len hb held wf vals = rw (not_placeholder _ held.1) (
        descend_loop-find depth (node l r) p 0 (omega arith) len hb (λ e. cc) held wf
          (λ j lt. absurd (omega arith)) vals)

    -- On stores that hold a trie and its value at the key's path, GetDescend returns the key's value
    -- or, where it has none, the default value, and changes nothing.
    pub get_descend-find :
        (t : Trie) (key : Bytes)
        → s.root ≡ root_hash t
        → Stored (store.lookup s.nodes) t
        → WellFormed 0 t
        → ValuesAt t (path key) 0
        → get_descend key s ≡ (ok (get_or (find t (path key) 0) []), s)
    unfolding get_descend
    get_descend-find t key top held wf vals =
        ap
          (λ r.
            if bytes_equal r placeholder
            then (ok default_value, s)
            else descend_loop depth (path key) 0 r s)
          top
        ∙ from_top t (path key) (h.length-digest key) (h.digest-IsByte key) held wf vals
