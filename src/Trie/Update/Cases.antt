-- ===== src/Trie/Update/Cases.antt =====
-- updateWithSideNodes of smt.go on a state that stands for a trie, by where the walk ended.
use smt.Prelude.{
  ℕ, ◌+◌, ◌≡◌, ◌≢◌, refl, ap, ◌∙◌, false, Bool-cases, inl, inr, some, [], ◌++◌, length, reverse,
  map, arith, All,
}
use mathlib.Core.List.{append-nil}
use mathlib.Core.Path.{subst}
use smt.Res.{ok}
use smt.Bytes.{Bytes, IsByte, bytes_equal, bytes_equal_refl, bytes_equal→eq, bytes_equal_iff}
use smt.TreeHasher.{Hasher, digest, path_size, placeholder, leaf_value}
use smt.TreeHasher.Collisions.{CollisionFree}
use smt.MapStore.{MapStore}
use smt.Tree.{SparseMerkleTree}
use smt.Tree.Run.{Run, ◌>>◌, nodes_delete, values_delete}
use smt.Tree.Walk.{depth}
use smt.Tree.Write.{update_rest, update_with_side_nodes}
use smt.Trie.{Trie, empty, leaf, root_hash, spine, bottom, data_of, find, WellFormed}
use smt.Trie.Walk.{HashKeyed}
use smt.Trie.Represents.{Represents}
use smt.Trie.Descend.{Agrees}
use smt.Trie.Insert.{insert}
use smt.Trie.Distinct.{Within, IsSound}
use smt.Trie.Distinct.Along.{node_data}
use smt.Trie.Effects.{nodes_set_lem}
use smt.Trie.Update.Path.{spine-insert}
use smt.Trie.Update.Nodes.{bottom-WellFormed}
use smt.Trie.Update.Prefix.{common_prefix-empty, common_prefix-same, common_prefix-other}
use smt.Trie.Update.Tail.{Inserts, old_size, update_rest-Inserts}
use smt.Trie.Update.Fork.{join-update_rest-Inserts}
use smt.Trie.Update.Steps.{at_nothing, at_other, at_same, at_replaced}
use smt.Trie.Update.Apply.{stored_leaf, replaced_leaf, same_leaf}

module _ ⦃h : Hasher⦄ where
  insert-end :
      (b : Trie) (p v : Bytes) (i : ℕ) (w : Bytes) → b ≡ leaf p w → spine (insert b p v i) p i ≡ []
  unfolding insert spine
  insert-end b p v i w e = rw (e, bytes_equal_refl p) refl

  insert-end_empty : (b : Trie) (p v : Bytes) (i : ℕ) → b ≡ empty → spine (insert b p v i) p i ≡ []
  unfolding insert spine
  insert-end_empty b p v i e = rw e refl

  -- No side node is new where no other leaf is in the way.
  same_spine :
      (t : Trie) (p v : Bytes)
      → ((i : ℕ) → spine (insert (bottom t p 0) p v i) p i ≡ [])
      → spine (insert t p v 0) p 0 ≡ spine t p 0
  same_spine t p v none_new =
      spine-insert t p v 0
      ∙ ap (λ l. spine t p 0 ++ l) (none_new (0 + length (spine t p 0)))
      ∙ append-nil (spine t p 0)

  root_hash-leaf : (p v : Bytes) → root_hash (leaf p v) ≡ digest (leaf_value p (digest v))
  unfolding root_hash
  root_hash-leaf p v = refl

  ends_at :
      (t : Trie) (p q w : Bytes)
      → WellFormed 0 t
      → bottom t p 0 ≡ leaf q w
      → WellFormed 0 (leaf q w) × Agrees p (length (spine t p 0)) (leaf q w)
  ends_at t p q w wf at =
      let (whole, agrees) = bottom-WellFormed t p 0 (λ j lt. absurd (omega arith)) wf in
      (
        subst (λ (x : Trie). WellFormed (0 + length (spine t p 0)) x) at whole,
        λ j lt.
            subst (λ (x : Trie). Agrees p (0 + length (spine t p 0)) x) at agrees j (omega arith),
      )

module _ ⦃h : Hasher⦄ {N V : Type 0} ⦃ns : MapStore N⦄ ⦃vs : MapStore V⦄ (nodes : HashKeyed ns)
    (values : HashKeyed vs) (Seen : Bytes → Type 0) (free : CollisionFree Seen) (t : Trie) where
  module _ (p v : Bytes) (len : length p ≡ path_size) (bytes : All IsByte p) (ne : v ≢ [])
      (sound : IsSound Seen 0 t) (within : Within Seen (insert t p v 0))
      (own_seen : Within Seen (leaf p v)) (s : SparseMerkleTree N V)
      (rep : Represents nodes values s t) where
    abbrev Runs : Trie → Type 0
    Runs end = Inserts nodes values Seen free t p v len bytes ne sound within own_seen (
        update_with_side_nodes p v (reverse (spine t p 0)) (root_hash end)
          (map digest (node_data t p 0)) (data_of end) s)

    pub write-empty : bottom t p 0 ≡ empty → Runs empty
    write-empty at =
        let (s1, stored, own, keeps) = nodes_set_lem nodes Seen free s _ own_seen.0 in
        let ready =
          stored_leaf nodes values Seen free t p v len bytes ne sound within own_seen s rep s1 own
            keeps in
        let (s2, run, stands) =
          update_rest-Inserts nodes values Seen free t p v len bytes ne sound within own_seen s1
            (same_spine t p v (λ i. insert-end_empty (bottom t p 0) p v i at)) ready in
        (s2, at_nothing p v _ _ _ _ s s1 stored (common_prefix-empty p) ∙ run, stands)

    pub write_other :
        (q w : Bytes)
        → bottom t p 0 ≡ leaf q w
        → root_hash (leaf q w) ≢ placeholder
        → bytes_equal q p ≡ false
        → Runs (leaf q w)
    write_other q w at nonzero other =
        let (s1, stored, own, keeps) = nodes_set_lem nodes Seen free s _ own_seen.0 in
        let ready =
          stored_leaf nodes values Seen free t p v len bytes ne sound within own_seen s rep s1 own
            keeps in
        let (wf, agrees) = ends_at t p q w sound.well_formed at in
        let short = old_size nodes values Seen free t p v len bytes ne sound within own_seen in
        let (k, lt, part, prefix) =
          common_prefix-other p q w len wf.0 nonzero other bytes wf.1 (length (spine t p 0)) agrees
            short in
        let (s2, run, stands) =
          join-update_rest-Inserts nodes values Seen free t p v len bytes ne sound within own_seen
            s1 q w k at other lt part ready in
        (s2, at_other p v _ _ _ _ s s1 stored _ _ prefix lt ∙ run, stands)

    abbrev rest_of : Run (SparseMerkleTree N V) Bytes
    rest_of =
        update_rest p v (reverse (spine t p 0)) (map digest (node_data t p 0)) depth
          (root_hash (leaf p v))

    write_replaced :
        (w : Bytes)
        → bottom t p 0 ≡ leaf p w
        → find t p 0 ≡ some w
        → root_hash (leaf p w) ≢ placeholder
        → bytes_equal (digest w) (digest v) ≡ false
        → Runs (leaf p w)
    write_replaced w at there nonzero other =
        let (s1, stored, own, keeps) = nodes_set_lem nodes Seen free s _ own_seen.0 in
        let (s2, deletes, ready) =
          replaced_leaf nodes values Seen free t p v len bytes ne sound within own_seen s rep s1 w
            at there (λ e. absurd (ground (arith, other, bytes_equal_iff (digest w) (digest v), e)))
            own keeps in
        let (s3, run, stands) =
          update_rest-Inserts nodes values Seen free t p v len bytes ne sound within own_seen s2
            (same_spine t p v (λ i. insert-end (bottom t p 0) p v i w at)) ready in
        let prefix = common_prefix-same p p w len len nonzero refl in
        (
          s3,
          at_replaced p v _ _ _ _ s s1 stored _ prefix other
              ∙ ap (λ x. (nodes_delete x >> (values_delete p >> rest_of)) s1) (root_hash-leaf p w)
              ∙ deletes _
              ∙ run,
          stands,
        )

    write_same :
        (w : Bytes)
        → bottom t p 0 ≡ leaf p w
        → root_hash (leaf p w) ≢ placeholder
        → w ≡ v
        → Runs (leaf p w)
    write_same w at nonzero e =
        let (s1, stored, own, keeps) = nodes_set_lem nodes Seen free s _ own_seen.0 in
        let (s2, run, stands) =
          same_leaf nodes values Seen free t p v len bytes ne sound within own_seen s rep s1
            (at ∙ ap (leaf p) e) keeps in
        let prefix =
          common_prefix-same p p w len len nonzero refl ∙ ap (λ x. ok (depth, some (digest x))) e in
        (s2, at_same p v _ _ _ _ s s1 stored prefix ∙ run, stands)

    pub write_own :
        (w : Bytes)
        → bottom t p 0 ≡ leaf p w
        → find t p 0 ≡ some w
        → root_hash (leaf p w) ≢ placeholder
        → Seen w
        → Runs (leaf p w)
    write_own w at there nonzero seen = elim (Bool-cases (bytes_equal (digest w) (digest v))) [
      | inl same ↦
          write_same w at nonzero
            (free.injective w v seen own_seen.1 (bytes_equal→eq (digest w) (digest v) same))
      | inr other ↦ write_replaced w at there nonzero other
    ]
