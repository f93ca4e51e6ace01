-- ===== src/Bulk/Merge.antt =====
-- mergeLeafWithKVs of bulk.go: at a leaf that the walk finds, it makes the trie of the batch and the leaf.
use smt.Prelude.{
  ℕ, ◌+◌, ◌≡◌, ◌≢◌, refl, sym, ap, ◌∙◌, Bool, true, false, ◌&&◌, Bool-cases, inl, inr, none, some,
  List, [], ◌∷◌, ◌++◌, length, if◌then◌else◌, All,
}
use mathlib.Core.Path.{subst, ap₂}
use smt.Res.{ok}
use smt.Bytes.{Bytes, bytes_equal, bytes_equal→eq}
use smt.TreeHasher.{Hasher, digest, path_size, leaf_value}
use smt.TreeHasher.Layout.{parse_leaf-leaf_value}
use smt.TreeHasher.Collisions.{CollisionFree}
use smt.MapStore.{MapStore, found}
use smt.Tree.{SparseMerkleTree}
use smt.Tree.Run.{nodes_delete}
use smt.Tree.Walk.{depth}
use smt.Bulk.{BulkKv, is_shadowed, same_value}
use smt.Bulk.Walk.{merged, merge_leaf_with_kvs, build_subtree}
use smt.Bulk.Batch.{last_value, Increasing}
use smt.Bulk.Paths.{Shares}
use smt.Bulk.Target.{over, over-none, Target}
use smt.Bulk.Around.{
  Increasing-Around, insert_index-Around, All-Around, not_shadowed, shadowed-value,
  last_value-Around,
}
use smt.Bulk.Build.{leaf-Target, Makes, Writes, build_subtree-Makes}
use smt.Trie.{Trie, empty, leaf, root_hash, find}
use smt.Trie.Walk.{HashKeyed}
use smt.Trie.Canonical.{find-none}
use smt.Trie.Distinct.{Holds, Within, IsSound}
use smt.Trie.Effects.{Held, Keeps, nodes_delete_lem}

module _ ⦃h : Hasher⦄ where
  find_leaf_at :
      (q w p : Bytes) (i : ℕ) → find (leaf q w) p i ≡ (if bytes_equal q p then some w else none)
  unfolding find
  find_leaf_at q w p i = refl

  -- A batch that has the leaf's path leads to the trie of the batch alone.
  shadowed-Target :
      (kvs : List BulkKv) (q w v : Bytes) (u : Trie) (i : ℕ)
      → last_value kvs q ≡ some v
      → Target kvs (leaf q w) u i
      → Target kvs empty u i
  shadowed-Target kvs q w v u i has target p len =
      target p len ∙ elim (Bool-cases (bytes_equal q p)) [
        | inl e ↦ let at = ap (last_value kvs) (sym (bytes_equal→eq q p e)) ∙ has in rw at refl
        | inr e ↦ rw (find_leaf_at q w p i, e, find-none p i) refl
      ]

  left_true : (a b : Bool) → a && b ≡ true → a ≡ true
  left_true true b e = refl
  left_true false b e = e

  one_same :
      (kvs : List BulkKv) (q d : Bytes)
      → is_shadowed kvs q && same_value kvs d ≡ true
      → (kv : BulkKv) × (kvs ≡ kv ∷ []) × (kv.path ≡ q) × (d ≡ digest kv.value)
  unfolding is_shadowed same_value
  one_same [] q d e = absurd cc
  one_same (kv ∷ []) q d e = elim (Bool-cases (bytes_equal kv.path q)) [
    | inl here ↦
        (kv, refl, bytes_equal→eq kv.path q here, bytes_equal→eq d (digest kv.value) (rw here at e))
    | inr off ↦ absurd (let f : false ≡ true = rw off at e in cc)
  ]
  one_same (kv ∷ kv' ∷ rest) q d e = elim (Bool-cases (is_shadowed (kv ∷ kv' ∷ rest) q)) [
    | inl a ↦ absurd (let f : false ≡ true = rw a at e in cc)
    | inr a ↦ absurd (let f : false ≡ true = rw a at e in cc)
  ]

module _ ⦃h : Hasher⦄ {N V : Type 0} ⦃ns : MapStore N⦄ ⦃vs : MapStore V⦄ (nodes : HashKeyed ns)
    (values : HashKeyed vs) (Seen : Bytes → Type 0) (free : CollisionFree Seen) (n i : ℕ)
    (g : ℕ → ℕ) (kvs : List BulkKv) (q w : Bytes) (u : Trie) (s : SparseMerkleTree N V)
    (size : i + n ≡ depth) (share : All (Shares g i) kvs) (up : Increasing kvs)
    (sound : IsSound Seen i u) (target : Target kvs (leaf q w) u i)
    (old_share : Shares g i (record { path = q; value = w })) (old_seen : Within Seen (leaf q w))
    (held : Held nodes s.nodes (leaf_value q (digest w)))
    (stored : values.lookup s.values q ≡ some w) where
  abbrev Gone : Bytes → Type 0
  Gone d = Holds d (leaf q w)

  abbrev old : BulkKv
  old = record { path = q; value = w }

  get_old : (s1 : SparseMerkleTree N V) → s1.values ≡ s.values → vs.get s1.values q ≡ ok w
  get_old s1 same =
      values.is_map.get_lem s1.values q (values.fits q old_share.0)
      ∙ ap (λ v. found q (values.lookup v q)) same
      ∙ ap (found q) stored

  -- The items with the leaf among them make the new trie.
  All-items :
      (s1 : SparseMerkleTree N V)
      → s1.values ≡ s.values
      → (all : List BulkKv) × (merged q kvs s1 ≡ (ok all, s1))
        × All (Shares g i) all
        × Increasing all
        × Target all empty u i
        × ((p : Bytes)
            → length p ≡ path_size
            → over (last_value all p) (values.lookup s.values p)
              ≡ over (last_value kvs p) (values.lookup s.values p))
  unfolding merged
  All-items s1 same = elim (Bool-cases (is_shadowed kvs q)) [
    | inl e ↦
        let (v, has) = shadowed-value kvs q e in
        (kvs, rw e refl, share, up, shadowed-Target kvs q w v u i has target, λ p len. refl)
    | inr e ↦
        let absent = not_shadowed kvs q e in
        let x = Increasing-Around old kvs up absent in
        let (at, lower, upper) = insert_index-Around old kvs x in
        let all = x.lower ++ old ∷ x.upper in
        (
          all,
          rw (e, get_old s1 same, at, lower, upper) refl,
          All-Around (Shares g i) old x.lower x.upper (subst (All (Shares g i)) x.both share)
              old_share,
          x.up,
          λ p len.
              target p len
              ∙ sym (last_value-Around old kvs x p i absent)
              ∙ sym (over-none (last_value all p))
              ∙ ap (over (last_value all p)) (sym (find-none p i)),
          λ p len.
              ap (λ o. over o (values.lookup s.values p)) (last_value-Around old kvs x p i absent)
              ∙ elim (Bool-cases (bytes_equal q p)) [
                | inl yes_it ↦
                    let same_path = bytes_equal→eq q p yes_it in
                    let none_new = ap (last_value kvs) (sym same_path) ∙ absent in
                    let there = ap (values.lookup s.values) (sym same_path) ∙ stored in
                    rw (find_leaf_at q w p i, yes_it, none_new, there) refl
                | inr not_it ↦ rw (find_leaf_at q w p i, not_it, over-none (last_value kvs p)) refl
              ],
        )
  ]

  -- The leaf is deleted, and the trie of all items is made.
  rebuilds :
      (s1 : SparseMerkleTree N V)
      → Keeps nodes (λ e. Seen e × (e ≢ leaf_value q (digest w))) s s1
      → (all : List BulkKv) × (merged q kvs s1 ≡ (ok all, s1))
        × Makes nodes values Seen free Gone kvs u s (build_subtree n i all s1)
  rebuilds s1 k =
      let (all, merges, shares, ups, aim, same) = All-items s1 k.values in
      let (s2, run, x) =
        build_subtree-Makes nodes values Seen free n i g all u s1 size shares ups sound aim in
      (
        all,
        merges,
        (
          s2,
          run,
          record {
            held = x.held;
            kept = λ d seen no was. x.kept d seen (λ z. z) (k.held d (seen, no) was);
            root = x.root ∙ k.root;
            value = λ p len.
                x.value p len
                ∙ ap (λ v. over (last_value all p) (values.lookup v p)) k.values
                ∙ same p len;
          },
        ),
      )

  unchanged :
      (kv : BulkKv) (p : Bytes)
      → kvs ≡ kv ∷ []
      → kv.path ≡ q
      → kv.value ≡ w
      → values.lookup s.values p ≡ over (last_value kvs p) (values.lookup s.values p)
  unfolding last_value
  unchanged kv p all at same = rw all (elim (Bool-cases (bytes_equal kv.path p)) [
    | inl e ↦ rw e (
        ap (values.lookup s.values) (sym (bytes_equal→eq kv.path p e) ∙ at)
        ∙ stored
        ∙ ap some (sym same))
    | inr e ↦ rw e refl
  ])

  -- One item with the leaf's path and value hash leaves the trie as it is.
  same_leaf :
      is_shadowed kvs q && same_value kvs (digest w) ≡ true
      → (u ≡ leaf q w) × Writes nodes values Seen free Gone kvs (leaf q w) s s
  same_leaf e =
      let (kv, all, at, value) = one_same kvs q (digest w) e in
      let (v, has) = shadowed-value kvs q (left_true (is_shadowed kvs q) _ e) in
      let aim = subst (λ xs. Target xs empty u i) all (shadowed-Target kvs q w v u i has target) in
      let own = subst (All (Shares g i)) all share in
      let one = leaf-Target kv u i own.0.0 own.0.1 sound.well_formed sound.full aim in
      let seen = (subst (Within Seen) one sound.within).1 in
      let same_value : kv.value ≡ w = sym (free.injective w kv.value old_seen.1 seen value) in
      (
        one ∙ ap₂ leaf at same_value,
        record {
          held = λ d m. subst (Held nodes s.nodes) (sym m) held;
          kept = λ d a no was. was;
          root = refl;
          value = λ p len. unchanged kv p all at same_value;
        },
      )

  leaf_hash :
      nodes_delete (root_hash (leaf q w)) s ≡ nodes_delete (digest (leaf_value q (digest w))) s
  unfolding root_hash
  leaf_hash = refl

  after_delete :
      (s1 : SparseMerkleTree N V)
      → is_shadowed kvs q && same_value kvs (digest w) ≡ false
      → nodes_delete (root_hash (leaf q w)) s ≡ (ok tt, s1)
      → (all : List BulkKv) → merged q kvs s1 ≡ (ok all, s1)
      → merge_leaf_with_kvs n i (root_hash (leaf q w)) (leaf_value q (digest w)) kvs s
        ≡ build_subtree n i all s1
  unfolding merge_leaf_with_kvs
  after_delete s1 off deletes all merges =
      rw (parse_leaf-leaf_value q (digest w) old_share.0, off, deletes, merges) refl

  stays :
      is_shadowed kvs q && same_value kvs (digest w) ≡ true
      → merge_leaf_with_kvs n i (root_hash (leaf q w)) (leaf_value q (digest w)) kvs s
        ≡ (ok (root_hash (leaf q w)), s)
  unfolding merge_leaf_with_kvs
  stays e = rw (parse_leaf-leaf_value q (digest w) old_share.0, e) refl

  -- Merging a sorted batch with the leaf makes the trie that has the values of both.
  pub merge_leaf_with_kvs-Makes :
      Makes nodes values Seen free Gone kvs u s
        (merge_leaf_with_kvs n i (root_hash (leaf q w)) (leaf_value q (digest w)) kvs s)
  merge_leaf_with_kvs-Makes = elim (Bool-cases (is_shadowed kvs q && same_value kvs (digest w))) [
    | inl e ↦
        let (one, writes) = same_leaf e in
        subst
          (λ x.
            Makes nodes values Seen free Gone kvs x s
              (merge_leaf_with_kvs n i (root_hash (leaf q w)) (leaf_value q (digest w)) kvs s))
          (sym one) (s, stays e, writes)
    | inr e ↦
        let (s1, run, k) = nodes_delete_lem nodes Seen free s _ old_seen.0 held in
        let (all, merges, made) = rebuilds s1 k in
        subst (Makes nodes values Seen free Gone kvs u s)
          (sym (after_delete s1 e (leaf_hash ∙ run) all merges)) made
  ]
