-- ===== src/Bulk/Build.antt =====
-- buildSubtree of bulk.go makes the trie of a sorted batch.
use smt.Prelude.{
  ℕ, zero, suc, ◌+◌, ◌≡◌, refl, sym, ap, ◌∙◌, Bool-cases, inl, inr, Option, none, some, List, [],
  ◌∷◌, length, take, drop, arith, All, take-append, drop-append,
}
use mathlib.Core.Path.{subst}
use native.Mathlib.Numerals.{add-one}
use smt.Res.{Res, ok}
use smt.Bytes.{Bytes, IsByte, bytes_equal}
use smt.TreeHasher.{Hasher, digest, path_size, leaf_value, node_value, digest_leaf, digest_node}
use smt.TreeHasher.Collisions.{CollisionFree}
use smt.MapStore.{MapStore}
use smt.Tree.{SparseMerkleTree}
use smt.Tree.Walk.{depth}
use smt.Bulk.{BulkKv, partition_by_bit}
use smt.Bulk.Walk.{set_leaf, set_node, build_subtree}
use smt.Bulk.Batch.{last_value, Increasing}
use smt.Bulk.Split.{partition_by_bit-length}
use smt.Bulk.Paths.{Shares, Halves, extend, Increasing-Halves}
use smt.Bulk.Target.{
  over, last_value-append, Target, node-Splits, empty-Splits, Target-left, Target-right, batch-node,
}
use smt.Trie.{Trie, empty, leaf, node, root_hash, find, WellFormed}
use smt.Trie.Walk.{HashKeyed, root_hash-empty}
use smt.Trie.Insert.{Full}
use smt.Trie.Canonical.{find_determines, find_own, find_nonempty}
use smt.Trie.Distinct.{Holds, Within, IsSound, IsSound-left, IsSound-right, Holds-Seen}
use smt.Trie.Effects.{Held, Keeps, nodes_set_lem}
use smt.Trie.Update.Rest.{values_set_lem}

module _ ⦃h : Hasher⦄ where
  pub partition-both :
      (g : ℕ → ℕ) (i : ℕ) (kvs : List BulkKv) (x : Halves g i kvs)
      → (partition_by_bit kvs i ≡ ok (length x.zeros))
        × (take (length x.zeros) kvs ≡ x.zeros)
        × (drop (length x.zeros) kvs ≡ x.ones)
  partition-both g i kvs x = (
    ap (λ xs. partition_by_bit xs i) x.both
        ∙ partition_by_bit-length i x.zeros x.ones x.all_zero x.all_one,
    ap (take (length x.zeros)) x.both ∙ take-append (length x.zeros) x.zeros x.ones refl,
    ap (drop (length x.zeros)) x.both ∙ drop-append (length x.zeros) x.zeros x.ones refl,
  )

  -- One item has the values of its leaf.
  one_item :
      (kv : BulkKv) (q : Bytes) (i : ℕ)
      → over (last_value (kv ∷ []) q) (find empty q i) ≡ find (leaf kv.path kv.value) q i
  unfolding last_value find
  one_item kv q i = elim (Bool-cases (bytes_equal kv.path q)) [
    | inl e ↦ rw e refl
    | inr e ↦ rw e refl
  ]

  pub leaf-Target :
      (kv : BulkKv) (u : Trie) (i : ℕ)
      → length kv.path ≡ path_size
      → All IsByte kv.path
      → WellFormed i u
      → Full u
      → Target (kv ∷ []) empty u i
      → u ≡ leaf kv.path kv.value
  leaf-Target kv u i len bytes wf full target =
      let own : find u kv.path i ≡ some kv.value =
        target kv.path len ∙ one_item kv kv.path i ∙ find_own kv.path kv.value i in
      find_determines u (leaf kv.path kv.value) i wf
        (len, bytes, find_nonempty u kv.path kv.value i wf own) full tt
        (λ q e. target q e ∙ one_item kv q i)

module _ ⦃h : Hasher⦄ {N V : Type 0} ⦃ns : MapStore N⦄ ⦃vs : MapStore V⦄ (nodes : HashKeyed ns)
    (values : HashKeyed vs) (Seen : Bytes → Type 0) (free : CollisionFree Seen) where
  -- The trie's data is held, the batch's values are stored over the others, and nothing else has changed
  -- but for data that `Gone` tells.
  pub record Writes (Gone : Bytes → Type 0) (kvs : List BulkKv) (u : Trie)
      (s s' : SparseMerkleTree N V) : Type 0 where
    pub held : (d : Bytes) → Holds d u → Held nodes s'.nodes d
    pub kept : (d : Bytes) → Seen d → (Gone d → ⊥) → Held nodes s.nodes d → Held nodes s'.nodes d
    pub root : s'.root ≡ s.root
    pub value :
        (q : Bytes)
        → length q ≡ path_size
        → values.lookup s'.values q ≡ over (last_value kvs q) (values.lookup s.values q)

  -- A run that returns the trie's hash, with what it has written.
  abbrev pub Makes :
      (Bytes → Type 0)
      → List BulkKv
      → Trie
      → SparseMerkleTree N V
      → Res Bytes × SparseMerkleTree N V
      → Type 0
  Makes Gone kvs u s run =
      (s' : SparseMerkleTree N V) × (run ≡ (ok (root_hash u), s')) × Writes Gone kvs u s s'

  abbrev pub Nothing : Bytes → Type 0
  Nothing d = ⊥

  -- A node's data is held if its own data and that of its children are.
  pub node-Holds :
      (l r : Trie) (s : SparseMerkleTree N V)
      → Held nodes s.nodes (node_value (root_hash l) (root_hash r))
      → ((d : Bytes) → Holds d l → Held nodes s.nodes d)
      → ((d : Bytes) → Holds d r → Held nodes s.nodes d)
      → (d : Bytes) → Holds d (node l r)
      → Held nodes s.nodes d
  node-Holds l r s own left right d (inl e) = subst (Held nodes s.nodes) (sym e) own
  node-Holds l r s own left right d (inr (inl m)) = left d m
  node-Holds l r s own left right d (inr (inr m)) = right d m

  over-over : (a b c : Option Bytes) → over a (over b c) ≡ over (over a b) c
  over-over none b c = refl
  over-over (some v) b c = refl

  Makes-leaf :
      (kv : BulkKv) (s : SparseMerkleTree N V)
      → length kv.path ≡ path_size
      → Seen (leaf_value kv.path (digest kv.value))
      → Makes Nothing (kv ∷ []) (leaf kv.path kv.value) s (set_leaf kv s)
  unfolding set_leaf digest_leaf root_hash last_value
  Makes-leaf kv s len seen =
      let (s1, run, own, keeps) = nodes_set_lem nodes Seen free s _ seen in
      let (s2, runs, same, root, value) =
        values_set_lem nodes values Seen free kv.path kv.value len s1 in
      (
        s2,
        rw (run, runs) refl,
        record {
          held = λ d e.
              subst (Held nodes s2.nodes) (sym e)
                (subst (λ x. Held nodes x (leaf_value kv.path (digest kv.value))) (sym same) own);
          kept = λ d a n was. subst (λ x. Held nodes x d) (sym same) (keeps.held d a was);
          root = root ∙ keeps.root;
          value = λ q e.
              value q e
              ∙ rw keeps.values (elim (Bool-cases (bytes_equal kv.path q)) [
                | inl yes_it ↦ rw yes_it refl
                | inr not_it ↦ rw not_it refl
              ]);
        },
      )

  -- Writes one after the other: those of the two halves of a batch.
  pub Writes-both :
      (Left Right : Bytes → Type 0) (g : ℕ → ℕ) (i : ℕ) (kvs : List BulkKv) (x : Halves g i kvs)
      → (l r : Trie) (s s1 s2 : SparseMerkleTree N V) → Writes Left x.zeros l s s1
      → Writes Right x.ones r s1 s2
      → (q : Bytes) → length q ≡ path_size
      → values.lookup s2.values q ≡ over (last_value kvs q) (values.lookup s.values q)
  Writes-both Left Right g i kvs x l r s s1 s2 a b q e =
      b.value q e
      ∙ ap (over (last_value x.ones q)) (a.value q e)
      ∙ over-over (last_value x.ones q) (last_value x.zeros q) (values.lookup s.values q)
      ∙ ap (λ o. over o (values.lookup s.values q))
          (sym (last_value-append x.zeros x.ones q) ∙ ap (λ xs. last_value xs q) (sym x.both))

  -- The node over two stored tries is stored.
  pub set_node_lem :
      (l r : Trie) (s : SparseMerkleTree N V)
      → Seen (node_value (root_hash l) (root_hash r))
      → (s' : SparseMerkleTree N V) × (set_node (root_hash l) (root_hash r) s
          ≡ (ok (root_hash (node l r)), s'))
        × Held nodes s'.nodes (node_value (root_hash l) (root_hash r))
        × Keeps nodes Seen s s'
  unfolding set_node digest_node root_hash
  set_node_lem l r s seen =
      let (s', run, own, keeps) = nodes_set_lem nodes Seen free s _ seen in
      (s', rw run refl, own, keeps)

  build_node :
      (n i : ℕ) (a b : BulkKv) (rest : List BulkKv) (g : ℕ → ℕ) (x : Halves g i (a ∷ b ∷ rest))
      → (l r : Trie) (s : SparseMerkleTree N V) → IsSound Seen i (node l r)
      → Makes Nothing x.zeros l s (build_subtree n (suc i) x.zeros s)
      → ((t : SparseMerkleTree N V) → Makes Nothing x.ones r t (build_subtree n (suc i) x.ones t))
      → Makes Nothing (a ∷ b ∷ rest) (node l r) s (build_subtree (suc n) i (a ∷ b ∷ rest) s)
  unfolding build_subtree
  build_node n i a b rest g x l r s sound (s1, left, wl) after =
      let (s2, right, wr) = after s1 in
      let (s3, joins, own, keeps) = set_node_lem l r s2 sound.within.0 in
      let (at, zeros, ones) = partition-both g i (a ∷ b ∷ rest) x in
      let seen_left = λ (d : Bytes) (m : Holds d l). Holds-Seen Seen l d sound.within.1 m in
      let seen_right = λ (d : Bytes) (m : Holds d r). Holds-Seen Seen r d sound.within.2 m in
      (
        s3,
        rw (at, add-one i, zeros, left, ones, right) joins,
        record {
          held = λ d m.
              node-Holds l r s3 own
                (λ e k.
                  keeps.held e (seen_left e k) (wr.kept e (seen_left e k) (λ no. no) (wl.held e k)))
                (λ e k. keeps.held e (seen_right e k) (wr.held e k)) d m;
          kept = λ d k no was. keeps.held d k (wr.kept d k (λ z. z) (wl.kept d k (λ z. z) was));
          root = keeps.root ∙ wr.root ∙ wl.root;
          value = λ q e.
              ap (λ v. values.lookup v q) keeps.values
              ∙ Writes-both Nothing Nothing g i (a ∷ b ∷ rest) x l r s s1 s2 wl wr q e;
        },
      )

  pub empty-Target : (u : Trie) (i : ℕ) → WellFormed i u → Full u → Target [] empty u i → u ≡ empty
  unfolding last_value
  empty-Target u i wf full target = find_determines u empty i wf tt full tt target

  Makes-Nothing :
      (s : SparseMerkleTree N V) (n i : ℕ) → Makes Nothing [] empty s (build_subtree n i [] s)
  unfolding build_subtree last_value
  Makes-Nothing s n i = (
    s,
    rw root_hash-empty refl,
    record { held = λ d m. absurd m; kept = λ d k no was. was; root = refl; value = λ q e. refl },
  )

  one_leaf :
      (n i : ℕ) (kv : BulkKv) (s : SparseMerkleTree N V)
      → ◌≡◌ {A = Res Bytes × SparseMerkleTree N V} (build_subtree n i (kv ∷ []) s) (set_leaf kv s)
  unfolding build_subtree
  one_leaf zero i kv s = refl
  one_leaf (suc n) i kv s = refl

  -- The values in the trie of a sorted batch being the batch's, buildSubtree makes that trie.
  pub build_subtree-Makes :
      (n i : ℕ) (g : ℕ → ℕ) (kvs : List BulkKv) (u : Trie) (s : SparseMerkleTree N V)
      → i + n ≡ depth
      → All (Shares g i) kvs
      → Increasing kvs
      → IsSound Seen i u
      → Target kvs empty u i
      → Makes Nothing kvs u s (build_subtree n i kvs s)
  build_subtree-Makes n i g [] u s e ss up sound target =
      subst (λ x. Makes Nothing [] x s (build_subtree n i [] s))
        (sym (empty-Target u i sound.well_formed sound.full target)) (Makes-Nothing s n i)
  build_subtree-Makes n i g (kv ∷ []) u s e ss up sound target =
      let one = leaf-Target kv u i ss.0.0 ss.0.1 sound.well_formed sound.full target in
      subst (λ x. Makes Nothing (kv ∷ []) x s (build_subtree n i (kv ∷ []) s)) (sym one)
        (subst (λ run. Makes Nothing (kv ∷ []) (leaf kv.path kv.value) s run)
          (sym (one_leaf n i kv s))
          (Makes-leaf kv s ss.0.0 (subst (Within Seen) one sound.within).0))
  build_subtree-Makes zero i g (a ∷ b ∷ rest) u s e ss up sound target =
      let (l, r, at) = batch-node g a b rest empty u i ss up target in
      let here = subst (WellFormed i) at sound.well_formed in absurd (omega (arith, e, here.0))
  build_subtree-Makes (suc n) i g (a ∷ b ∷ rest) u s e ss up sound target =
      let kvs = a ∷ b ∷ rest in
      let (l, r, at) = batch-node g a b rest empty u i ss up target in
      let here = subst (IsSound Seen i) at sound in
      let x = Increasing-Halves g i kvs here.well_formed.0 ss up in
      let aim = subst (λ y. Target kvs empty y i) at target in
      let fresh = node-Splits l r i here.well_formed in
      subst (λ y. Makes Nothing kvs y s (build_subtree (suc n) i kvs s)) (sym at)
        (build_node n i a b rest g x l r s here
          (build_subtree-Makes n (suc i) (extend g i 0) x.zeros l s (omega (arith, e)) x.zeros_share
            x.up_zeros (IsSound-left Seen i l r here)
            (Target-left g i kvs x empty empty empty (node l r) l r (empty-Splits i) fresh aim))
          (λ t.
            build_subtree-Makes n (suc i) (extend g i 1) x.ones r t (omega (arith, e)) x.ones_share
              x.up_ones (IsSound-right Seen i l r here)
              (Target-right g i kvs x empty empty empty (node l r) l r (empty-Splits i) fresh aim)))
