-- ===== src/Bulk/Apply.antt =====
-- bulkApplyAtRoot of bulk.go: from the trie that stands there, it makes the trie with the batch's values.
use smt.Prelude.{ℕ, zero, suc, ◌+◌, ◌≡◌, ◌≢◌, refl, sym, ap, ◌∙◌, inl, some, List, [], ◌∷◌, arith}
use mathlib.Core.Path.{subst}
use native.Mathlib.Numerals.{add-one}
use smt.Res.{ok}
use smt.Bytes.{Bytes, bytes_equal_refl}
use smt.TreeHasher.{Hasher, digest, placeholder, leaf_value, node_value}
use smt.TreeHasher.Layout.{is_leaf-leaf_value, is_leaf-node_value, parse_node-node_value}
use smt.TreeHasher.Collisions.{CollisionFree}
use smt.MapStore.{MapStore}
use smt.Tree.{SparseMerkleTree}
use smt.Tree.Walk.{depth}
use smt.Bulk.{BulkKv}
use smt.Bulk.Walk.{build_subtree, merge_leaf_with_kvs, replace_node, bulk_apply_at_root}
use smt.Bulk.Batch.{last_value}
use smt.Bulk.Paths.{Halves, extend, Increasing-Halves}
use smt.Bulk.Target.{Target, node-node}
use smt.Bulk.Build.{Makes, Writes, partition-both, build_subtree-Makes}
use smt.Bulk.Merge.{merge_leaf_with_kvs-Makes}
use smt.Trie.{Trie, empty, leaf, node, root_hash}
use smt.Trie.Child.{length-root_hash}
use smt.Trie.Walk.{HashKeyed, root_hash-empty, not_placeholder, get_stored}
use smt.Trie.Canonical.{find_determines, find_own}
use smt.Trie.Distinct.{Holds, IsSound}
use smt.Trie.Effects.{Held}
use smt.Bulk.Join.{Applies, to_left, to_right, replace_node-Makes}

module _ ⦃h : Hasher⦄ {N V : Type 0} ⦃ns : MapStore N⦄ ⦃vs : MapStore V⦄ (nodes : HashKeyed ns)
    (values : HashKeyed vs) (Seen : Bytes → Type 0) (free : CollisionFree Seen) where
  abbrev Applied : (n i : ℕ) → List BulkKv → Trie → Trie → SparseMerkleTree N V → Type 0
  Applied n i kvs t u s =
      Makes nodes values Seen free (λ d. Holds d t) kvs u s
        (bulk_apply_at_root n i (root_hash t) kvs s)

  no_items :
      (n i : ℕ) (b : Bytes) (s : SparseMerkleTree N V) → bulk_apply_at_root n i b [] s ≡ (ok b, s)
  unfolding bulk_apply_at_root
  no_items zero i b s = refl
  no_items (suc n) i b s = refl

  at_empty :
      (n i : ℕ) (kv : BulkKv) (rest : List BulkKv) (s : SparseMerkleTree N V)
      → bulk_apply_at_root n i (root_hash empty) (kv ∷ rest) s ≡ build_subtree n i (kv ∷ rest) s
  unfolding bulk_apply_at_root
  at_empty zero i kv rest s = rw (root_hash-empty, bytes_equal_refl placeholder) refl
  at_empty (suc n) i kv rest s = rw (root_hash-empty, bytes_equal_refl placeholder) refl

  at_leaf :
      (n i : ℕ) (kv : BulkKv) (rest : List BulkKv) (q w : Bytes) (s : SparseMerkleTree N V)
      → root_hash (leaf q w) ≢ placeholder
      → nodes.lookup s.nodes (root_hash (leaf q w)) ≡ some (leaf_value q (digest w))
      → bulk_apply_at_root n i (root_hash (leaf q w)) (kv ∷ rest) s
        ≡ merge_leaf_with_kvs n i (root_hash (leaf q w)) (leaf_value q (digest w)) (kv ∷ rest) s
  unfolding bulk_apply_at_root
  at_leaf zero i kv rest q w s nonzero there =
      rw
        (not_placeholder _ nonzero, get_stored nodes s.nodes (leaf q w) _ there, is_leaf-leaf_value)
        refl
  at_leaf (suc n) i kv rest q w s nonzero there =
      rw
        (not_placeholder _ nonzero, get_stored nodes s.nodes (leaf q w) _ there, is_leaf-leaf_value)
        refl

  at_node :
      (n i : ℕ) (kv : BulkKv) (rest : List BulkKv) (l r l' r' : Trie) (g : ℕ → ℕ)
      → (x : Halves g i (kv ∷ rest)) (s s1 s2 : SparseMerkleTree N V)
      → root_hash (node l r) ≢ placeholder
      → nodes.lookup s.nodes (root_hash (node l r)) ≡ some (node_value (root_hash l) (root_hash r))
      → bulk_apply_at_root n (suc i) (root_hash l) x.zeros s ≡ (ok (root_hash l'), s1)
      → bulk_apply_at_root n (suc i) (root_hash r) x.ones s1 ≡ (ok (root_hash r'), s2)
      → bulk_apply_at_root (suc n) i (root_hash (node l r)) (kv ∷ rest) s
        ≡ replace_node
            (root_hash (node l r))
            (root_hash l, root_hash r)
            (root_hash l')
            (root_hash r')
            s2
  unfolding bulk_apply_at_root
  at_node n i kv rest l r l' r' g x s s1 s2 nonzero there left right =
      let (at, zeros, ones) = partition-both g i (kv ∷ rest) x in
      rw
        (
          not_placeholder _ nonzero,
          get_stored nodes s.nodes (node l r) _ there,
          is_leaf-node_value,
          parse_node-node_value (root_hash l) (root_hash r) (length-root_hash l),
          at,
          add-one i,
          zeros,
          left,
          ones,
          right,
        )
        refl

  pub unchanged_Target :
      (t u : Trie) (i : ℕ) → IsSound Seen i t → IsSound Seen i u → Target [] t u i → u ≡ t
  unfolding last_value
  unchanged_Target t u i a b target =
      find_determines u t i b.well_formed a.well_formed b.full a.full target

  makes_same :
      (n i : ℕ) (t : Trie) (s : SparseMerkleTree N V)
      → ((d : Bytes) → Holds d t → Held nodes s.nodes d)
      → Applied n i [] t t s
  unfolding last_value
  makes_same n i t s held = (
    s,
    no_items n i (root_hash t) s,
    record { held = held; kept = λ d seen nay was. was; root = refl; value = λ q len. refl },
  )

  hash_of_node :
      (l r : Trie) → root_hash (node l r) ≡ digest (node_value (root_hash l) (root_hash r))
  unfolding root_hash
  hash_of_node l r = refl

  hash_of_leaf : (q w : Bytes) → root_hash (leaf q w) ≡ digest (leaf_value q (digest w))
  unfolding root_hash
  hash_of_leaf q w = refl

  -- The step at a node, after the runs of both children.
  from_children :
      (n i : ℕ) (g : ℕ → ℕ) (kv : BulkKv) (rest : List BulkKv) (l r l' r' : Trie)
      → (s : SparseMerkleTree N V)
        (a : Applies nodes values Seen free g i (kv ∷ rest) (node l r) (node l' r') s)
        (x : Halves g i (kv ∷ rest))
      → Applied n (suc i) x.zeros l l' s
      → ((s1 : SparseMerkleTree N V)
          → Writes nodes values Seen free (λ d. Holds d l) x.zeros l' s s1
          → Applied n (suc i) x.ones r r' s1)
      → Applied (suc n) i (kv ∷ rest) (node l r) (node l' r') s
  from_children n i g kv rest l r l' r' s a x (s1, left, wl) after =
      let (s2, right, wr) = after s1 wl in
      let hash = hash_of_node l r in
      let nonzero = λ (e : root_hash (node l r) ≡ placeholder).
        free.nonzero _ a.before.within.0 (sym hash ∙ e) in
      let there = ap (nodes.lookup s.nodes) hash ∙ a.held _ (inl refl) in
      subst (Makes nodes values Seen free (λ d. Holds d (node l r)) (kv ∷ rest) (node l' r') s)
        (sym (at_node n i kv rest l r l' r' g x s s1 s2 nonzero there left right))
        (replace_node-Makes nodes values Seen free g i (kv ∷ rest) l r l' r' s a x s1 wl s2 wr)

  -- The walk over a trie that the stores have makes the trie with the batch's values over the old ones.
  pub bulk_apply_at_root-Makes :
      (n i : ℕ) (g : ℕ → ℕ) (kvs : List BulkKv) (t u : Trie) (s : SparseMerkleTree N V)
      → i + n ≡ depth
      → Applies nodes values Seen free g i kvs t u s
      → Applied n i kvs t u s
  bulk_apply_at_root-Makes n i g [] t u s size a =
      subst (λ x. Applied n i [] t x s) (sym (unchanged_Target t u i a.before a.after a.target))
        (makes_same n i t s a.held)
  bulk_apply_at_root-Makes n i g (kv ∷ rest) empty u s size a =
      subst (Makes nodes values Seen free (λ d. Holds d empty) (kv ∷ rest) u s)
        (sym (at_empty n i kv rest s))
        (build_subtree-Makes nodes values Seen free n i g (kv ∷ rest) u s size a.share a.up a.after
          a.target)
  bulk_apply_at_root-Makes n i g (kv ∷ rest) (leaf q w) u s size a =
      let hash = hash_of_leaf q w in
      let nonzero = λ (e : root_hash (leaf q w) ≡ placeholder).
        free.nonzero _ a.before.within.0 (sym hash ∙ e) in
      let there = ap (nodes.lookup s.nodes) hash ∙ a.held _ refl in
      let wf = a.before.well_formed in
      subst (Makes nodes values Seen free (λ d. Holds d (leaf q w)) (kv ∷ rest) u s)
        (sym (at_leaf n i kv rest q w s nonzero there))
        (merge_leaf_with_kvs-Makes nodes values Seen free n i g (kv ∷ rest) q w u s size a.share
          a.up a.after a.target (wf.0, wf.1, λ j lt. a.sides j lt) a.before.within (a.held _ refl)
          (a.value q w wf.0 (find_own q w i)))
  bulk_apply_at_root-Makes zero i g (kv ∷ rest) (node l r) u s size a =
      absurd (omega (arith, size, a.before.well_formed.0))
  bulk_apply_at_root-Makes (suc n) i g (kv ∷ rest) (node l r) u s size a =
      let kvs = kv ∷ rest in
      let (l', r', at) = node-node kvs l r u i a.before.well_formed a.before.full a.target in
      let b = subst (λ y. Applies nodes values Seen free g i kvs (node l r) y s) at a in
      let x = Increasing-Halves g i kvs b.before.well_formed.0 b.share b.up in
      let deeper : suc i + n ≡ depth = omega (arith, size) in
      subst (λ y. Applied (suc n) i kvs (node l r) y s) (sym at)
        (from_children n i g kv rest l r l' r' s b x
          (bulk_apply_at_root-Makes n (suc i) (extend g i 0) x.zeros l l' s deeper
            (to_left nodes values Seen free g i kvs l r l' r' s b x))
          (λ s1 wl.
            bulk_apply_at_root-Makes n (suc i) (extend g i 1) x.ones r r' s1 deeper
              (to_right nodes values Seen free g i kvs l r l' r' s b x s1 wl)))
