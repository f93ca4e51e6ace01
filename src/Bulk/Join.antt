-- ===== src/Bulk/Join.antt =====
-- A node in the walk of bulk.go: its children get their halves of the batch, and it is replaced by the node
-- over the new ones.
use smt.Prelude.{
  ℕ, suc, ◌<◌, ◌≡◌, ◌≢◌, refl, sym, ap, ◌∙◌, true, false, ◌&&◌, Bool-cases, inl, inr, some, List,
  length, ◌==◌, arith, All,
}
use mathlib.Core.Path.{subst, ap₂}
use smt.Res.{Res, ok}
use smt.Bytes.{Bytes, bytes_equal, bytes_equal→eq}
use smt.Utils.Bits.{bit}
use smt.TreeHasher.{Hasher, digest, path_size, node_value}
use smt.TreeHasher.Collisions.{CollisionFree}
use smt.MapStore.{MapStore}
use smt.Tree.{SparseMerkleTree}
use smt.Bulk.{BulkKv}
use smt.Bulk.Walk.{replace_node}
use smt.Bulk.Batch.{last_value, Increasing}
use smt.Bulk.Paths.{Shares, Halves, extend}
use smt.Bulk.Target.{over, Target, last_value-off, node-Splits, Target-left, Target-right}
use smt.Bulk.Build.{Makes, Writes, Writes-both, node-Holds, set_node_lem}
use smt.Trie.{Trie, node, root_hash, find, Side}
use smt.Trie.Walk.{HashKeyed}
use smt.Trie.Canonical.{find_left, find_right, find-Side}
use smt.Trie.Distinct.{Holds, IsSound, IsSound-left, IsSound-right, Holds-Seen, Holds-apart}
use smt.Trie.Distinct.Along.{not_left, not_right, not_both}
use smt.Trie.Distinct.Deep.{not_below}
use smt.Trie.Effects.{Held, nodes_delete_lem}

module _ ⦃h : Hasher⦄ {N V : Type 0} ⦃ns : MapStore N⦄ ⦃vs : MapStore V⦄ (nodes : HashKeyed ns)
    (values : HashKeyed vs) (Seen : Bytes → Type 0) (free : CollisionFree Seen) where
  -- What a step of the walk needs: the batch is sorted and shares a prefix with the old trie, both tries
  -- are sound, and the stores have the old one.
  pub record Applies (g : ℕ → ℕ) (i : ℕ) (kvs : List BulkKv) (t u : Trie) (s : SparseMerkleTree N V)
      : Type 0 where
    pub share : All (Shares g i) kvs
    pub up : Increasing kvs
    pub before : IsSound Seen i t
    pub after : IsSound Seen i u
    pub target : Target kvs t u i
    pub sides : (j : ℕ) → j < i → Side j (g j) t
    pub held : (d : Bytes) → Holds d t → Held nodes s.nodes d
    pub value :
        (q w : Bytes)
        → length q ≡ path_size
        → find t q i ≡ some w
        → values.lookup s.values q ≡ some w

  abbrev pub Own : Trie → Trie → Bytes
  Own l r = node_value (root_hash l) (root_hash r)

  own_hash : (l r : Trie) → digest (Own l r) ≡ root_hash (node l r)
  unfolding root_hash
  own_hash l r = refl

  Sides-extend :
      (g : ℕ → ℕ) (i b : ℕ) (c : Trie)
      → ((j : ℕ) → j < i → Side j (g j) c)
      → Side i b c
      → (j : ℕ) → j < suc i
      → Side j (extend g i b j) c
  Sides-extend g i b c below here j lt = elim (Bool-cases (j == i)) [
    | inl e ↦ let at : j ≡ i = ground (arith, e) in rw e (rw at here)
    | inr e ↦ rw e (below j (ground (arith, e, lt)))
  ]

  module _ (g : ℕ → ℕ) (i : ℕ) (kvs : List BulkKv) (l r l' r' : Trie) (s : SparseMerkleTree N V)
      (a : Applies g i kvs (node l r) (node l' r') s) (x : Halves g i kvs) where
    left_sound : IsSound Seen (suc i) l
    left_sound = IsSound-left Seen i l r a.before

    right_sound : IsSound Seen (suc i) r
    right_sound = IsSound-right Seen i l r a.before

    pub to_left : Applies (extend g i 0) (suc i) x.zeros l l' s
    to_left = record {
      share = x.zeros_share;
      up = x.up_zeros;
      before = left_sound;
      after = IsSound-left Seen i l' r' a.after;
      target =
          Target-left g i kvs x (node l r) l r (node l' r') l' r'
            (node-Splits l r i a.before.well_formed) (node-Splits l' r' i a.after.well_formed)
            a.target;
      sides = Sides-extend g i 0 l (λ j lt. (a.sides j lt).0) a.before.well_formed.1;
      held = λ d m. a.held d (inr (inl m));
      value = λ q w len e.
          a.value q w len
            (find_left l r q i (find-Side l q w (suc i) i 0 a.before.well_formed.1 e) ∙ e);
    }

    module _ (s1 : SparseMerkleTree N V)
        (wl : Writes nodes values Seen free (λ d. Holds d l) x.zeros l' s s1) where
      -- What the left child's update leaves of the right child and its values.
      pub to_right : Applies (extend g i 1) (suc i) x.ones r r' s1
      to_right = record {
        share = x.ones_share;
        up = x.up_ones;
        before = right_sound;
        after = IsSound-right Seen i l' r' a.after;
        target =
            Target-right g i kvs x (node l r) l r (node l' r') l' r'
              (node-Splits l r i a.before.well_formed) (node-Splits l' r' i a.after.well_formed)
              a.target;
        sides = Sides-extend g i 1 r (λ j lt. (a.sides j lt).1) a.before.well_formed.2;
        held = λ d m.
            wl.kept d (Holds-Seen Seen r d right_sound.within m)
              (λ k. not_both Seen free l r i d a.before k m) (a.held d (inr (inr m)));
        value = λ q w len e.
            let one = find-Side r q w (suc i) i 1 a.before.well_formed.2 e in
            let off : bit q i ≢ 0 = λ nil. ground (arith, one, nil) in
            let there = a.value q w len (find_right l r q i one ∙ e) in
            wl.value q len
            ∙ ap (λ o. over o (values.lookup s.values q))
                (last_value-off x.zeros q i 0 x.all_zero off)
            ∙ there;
      }

      module _ (s2 : SparseMerkleTree N V)
          (wr : Writes nodes values Seen free (λ d. Holds d r) x.ones r' s1 s2) where
        left_held : (d : Bytes) → Holds d l' → Held nodes s2.nodes d
        left_held d m =
            let new_left = IsSound-left Seen i l' r' a.after in
            wr.kept d (Holds-Seen Seen l' d new_left.within m)
              (λ k.
                Holds-apart Seen free l' r (suc i) i 0 1 d new_left right_sound
                  a.after.well_formed.1 a.before.well_formed.2 (λ e. absurd (omega (arith, e))) m k)
              (wl.held d m)

        own_held : Held nodes s2.nodes (Own l r)
        own_held =
            let seen = a.before.within.0 in
            wr.kept (Own l r) seen (λ k. not_right Seen free l r i (Own l r) a.before k refl)
              (wl.kept (Own l r) seen (λ k. not_left Seen free l r i (Own l r) a.before k refl)
                (a.held (Own l r) (inl refl)))

        both_kept :
            (d : Bytes)
            → Seen d
            → (Holds d (node l r) → ⊥)
            → Held nodes s.nodes d
            → Held nodes s2.nodes d
        both_kept d seen nay was =
            wr.kept d seen (λ k. nay (inr (inr k))) (wl.kept d seen (λ k. nay (inr (inl k))) was)

        both_values :
            (q : Bytes)
            → length q ≡ path_size
            → values.lookup s2.values q ≡ over (last_value kvs q) (values.lookup s.values q)
        both_values q len =
            Writes-both nodes values Seen free (λ d. Holds d l) (λ d. Holds d r) g i kvs x l' r' s
              s1 s2 wl wr q len

        -- The node as it stands after both children.
        abbrev pub Replaces : Type 0
        Replaces =
            Makes nodes values Seen free (λ d. Holds d (node l r)) kvs (node l' r') s
              (replace_node (root_hash (node l r)) (root_hash l, root_hash r) (root_hash l')
                (root_hash r') s2)

        pub replaces :
            (bytes_equal (root_hash l') (root_hash l) && bytes_equal (root_hash r') (root_hash r))
              ≡ false
            → Replaces
        unfolding replace_node
        replaces e =
            let (s3, gone, k3) =
              nodes_delete_lem nodes Seen free s2 (Own l r) a.before.within.0 own_held in
            let (s4, joins, own, k4) =
              set_node_lem nodes values Seen free l' r' s3 a.after.within.0 in
            let new_left = IsSound-left Seen i l' r' a.after in
            let new_right = IsSound-right Seen i l' r' a.after in
            let moved =
              λ (c : Trie) (b : ℕ) (d : Bytes) (sound : IsSound Seen (suc i) c) (side : Side i b c)
                  (m : Holds d c) (was : Held nodes s2.nodes d).
                let seen = Holds-Seen Seen c d sound.within m in
                k4.held d seen (
                  k3.held d
                    (
                      seen,
                      λ same.
                          not_below Seen free l r c i b a.before sound side
                            (subst (λ y. Holds y c) same m),
                    )
                    was) in
            (
              s4,
              rw (e, ← (own_hash l r), gone) joins,
              record {
                held =
                    node-Holds nodes values Seen free l' r' s4 own
                      (λ d m. moved l' 0 d new_left a.after.well_formed.1 m (left_held d m))
                      (λ d m. moved r' 1 d new_right a.after.well_formed.2 m (wr.held d m));
                kept = λ d seen nay was.
                    k4.held d seen
                      (k3.held d (seen, λ same. nay (inl same)) (both_kept d seen nay was));
                root = k4.root ∙ k3.root ∙ wr.root ∙ wl.root;
                value = λ q len.
                    ap (λ v. values.lookup v q) (k4.values ∙ k3.values) ∙ both_values q len;
              },
            )

        pub remains :
            root_hash l' ≡ root_hash l
            → root_hash r' ≡ root_hash r
            → (bytes_equal (root_hash l') (root_hash l) && bytes_equal (root_hash r') (root_hash r))
              ≡ true
            → Replaces
        unfolding replace_node
        remains el er e =
            let same : Own l r ≡ Own l' r' = ap₂ node_value (sym el) (sym er) in
            (
              s2,
              rw e (
                  ap (λ (b : Bytes). let r : Res Bytes × SparseMerkleTree N V = (ok b, s2) in r)
                    (sym (own_hash l r) ∙ ap digest same ∙ own_hash l' r')),
              record {
                held =
                    node-Holds nodes values Seen free l' r' s2
                      (subst (Held nodes s2.nodes) same own_held) left_held wr.held;
                kept = both_kept;
                root = wr.root ∙ wl.root;
                value = both_values;
              },
            )

        -- Whether a child has changed or not, the node over the new children is there.
        pub replace_node-Makes : Replaces
        replace_node-Makes =
            let left = bytes_equal (root_hash l') (root_hash l) in
            let right = bytes_equal (root_hash r') (root_hash r) in
            elim (Bool-cases left) [
              | inr e ↦ replaces (rw e refl)
              | inl e ↦ elim (Bool-cases right) [
                | inr f ↦ replaces (rw (e, f) refl)
                | inl f ↦
                    remains (bytes_equal→eq (root_hash l') (root_hash l) e)
                      (bytes_equal→eq (root_hash r') (root_hash r) f) (rw (e, f) refl)
              ]
            ]
