-- ===== src/Trie/Remove/Deletes.antt =====
-- deleteWithSideNodes of smt.go on a state that stands for a trie, by where the walk ended.
use smt.Prelude.{
  ◌≡◌, ◌≢◌, refl, sym, ap, ◌∙◌, false, inl, inr, none, List, [], ◌∷◌, length, reverse, map,
}
use mathlib.Core.List.{append-nil}
use mathlib.Core.Option.{get_or}
use mathlib.Core.Path.{subst}
use smt.Res.{Res, ok, err, key_already_empty}
use smt.Bytes.{Bytes, bytes_equal, bytes_equal_refl}
use smt.TreeHasher.{Hasher, digest, path, path_size, placeholder, leaf_value}
use smt.TreeHasher.Layout.{parse_leaf-leaf_value, leaf_value-ne-node_value}
use smt.TreeHasher.Collisions.{CollisionFree, Listed}
use smt.MapStore.{MapStore}
use smt.Tree.{SparseMerkleTree}
use smt.Tree.Run.{values_delete}
use smt.Tree.Walk.{SideNodes, fill_side_nodes}
use smt.Tree.Write.{delete_nodes, delete_loop, delete_with_side_nodes}
use smt.Tree.Api.{default_value, update_for_root, write_with_side_nodes, after_delete}
use smt.Trie.{Trie, empty, leaf, node, root_hash, spine, bottom, data_of}
use smt.Trie.Walk.{HashKeyed, not_placeholder, root_hash-empty}
use smt.Trie.Represents.{Represents}
use smt.Trie.Insert.{Full}
use smt.Trie.Remove.{remove}
use smt.Trie.Remove.Step.{left_over, reached}
use smt.Trie.Remove.Climb.{climb}
use smt.Trie.Distinct.{Holds, Within, IsSound, Holds-Seen}
use smt.Trie.Distinct.Along.{
  node_data, Beside, Distinct, node_data-Holds, Beside-Holds, bottom-Holds, node_data-node_value,
  node_data-Distinct, Beside-apart,
}
use smt.Trie.Effects.{Held, delete_nodes_lem}
use smt.Trie.Update.Stores.{Stored-Holds}

module _ ⦃h : Hasher⦄ where
  -- The climb's result, or the placeholder for none, is the trie's hash.
  left_over-root_hash : (t : Trie) → get_or (left_over t) placeholder ≡ root_hash t
  left_over-root_hash empty = sym root_hash-empty
  left_over-root_hash (leaf p v) = refl
  left_over-root_hash (node l r) = refl

module _ ⦃h : Hasher⦄ {N V : Type 0} ⦃ns : MapStore N⦄ ⦃vs : MapStore V⦄ (p : Bytes)
    (sides above : List Bytes) (s : SparseMerkleTree N V) where
  pub deletes_nothing :
      delete_with_side_nodes p sides (root_hash empty) above (data_of empty) s
      ≡ (err key_already_empty, s)
  unfolding delete_with_side_nodes
  deletes_nothing = rw (root_hash-empty, bytes_equal_refl placeholder) refl

  pub deletes_other :
      (q w : Bytes)
      → length q ≡ path_size
      → root_hash (leaf q w) ≢ placeholder
      → bytes_equal p q ≡ false
      → delete_with_side_nodes p sides (root_hash (leaf q w)) above (data_of (leaf q w)) s
        ≡ (err key_already_empty, s)
  unfolding delete_with_side_nodes
  deletes_other q w size nonzero off =
      rw (not_placeholder _ nonzero, parse_leaf-leaf_value q (digest w) size, off) refl

  deletes_own :
      (w : Bytes) (s1 s2 : SparseMerkleTree N V) (u : Trie)
      → length p ≡ path_size
      → root_hash (leaf p w) ≢ placeholder
      → delete_nodes (root_hash (leaf p w) ∷ above) s ≡ (ok tt, s1)
      → delete_loop p sides none none false s1 ≡ (ok (left_over u), s2)
      → delete_with_side_nodes p sides (root_hash (leaf p w)) above (data_of (leaf p w)) s
        ≡ (ok (root_hash u), s2)
  unfolding delete_with_side_nodes
  deletes_own w s1 s2 u size nonzero deletes climbs =
      rw
        (
          not_placeholder _ nonzero,
          parse_leaf-leaf_value p (digest w) size,
          bytes_equal_refl p,
          deletes,
          climbs,
        )
        (ap (λ x. (ok x, s2)) (left_over-root_hash u))

  -- A deletion that finds nothing returns the root as it is.
  pub returns_root :
      (root : Bytes) (walk : SideNodes) (path_nodes : List Bytes) (end : Bytes)
      → path_nodes ≡ end ∷ above
      → delete_with_side_nodes p walk.side_nodes end above walk.leaf_data s
        ≡ (err key_already_empty, s)
      → write_with_side_nodes p default_value root walk path_nodes s ≡ (ok root, s)
  unfolding write_with_side_nodes after_delete bytes_equal
  returns_root root walk path_nodes end e run = rw (e, run) refl

  pub returns_new :
      (root top : Bytes) (walk : SideNodes) (path_nodes : List Bytes) (end : Bytes)
      → (s1 s2 : SparseMerkleTree N V) → path_nodes ≡ end ∷ above
      → delete_with_side_nodes p walk.side_nodes end above walk.leaf_data s ≡ (ok top, s1)
      → values_delete p s1 ≡ (ok tt, s2)
      → write_with_side_nodes p default_value root walk path_nodes s ≡ (ok top, s2)
  unfolding write_with_side_nodes after_delete bytes_equal
  returns_new root top walk path_nodes end s1 s2 e run deletes = rw (e, run, deletes) refl

  pub walk_then :
      (key root top : Bytes) (walk : SideNodes) (s' : SparseMerkleTree N V)
      → fill_side_nodes (path key) root false s ≡ (ok walk, s)
      → write_with_side_nodes (path key) default_value root walk walk.path_nodes s ≡ (ok top, s')
      → update_for_root key default_value root s ≡ (ok top, s')
  unfolding update_for_root
  walk_then key root top walk s' run write = rw run write

module _ ⦃h : Hasher⦄ {N V : Type 0} ⦃ns : MapStore N⦄ ⦃vs : MapStore V⦄ (nodes : HashKeyed ns)
    (values : HashKeyed vs) (Seen : Bytes → Type 0) (free : CollisionFree Seen)
    (s : SparseMerkleTree N V) (t : Trie) (rep : Represents nodes values s t) (full : Full t)
    (seen : Within Seen t) where
  sound : IsSound Seen 0 t
  sound = record { within = seen; well_formed = rep.well_formed; full = full }

  module _ (p : Bytes) (len : length p ≡ path_size) (new_seen : Within Seen (remove t p 0)) where
    loop_end :
        (u : Trie) (s' : SparseMerkleTree N V)
        → delete_loop p [] (left_over u) (left_over u) (reached u) s' ≡ (ok (left_over u), s')
    unfolding delete_loop
    loop_end u s' = refl

    -- The nodes are deleted and those of the new trie stored; no value has changed.
    pub record Deletes (run : Res Bytes × SparseMerkleTree N V) : Type 0 where
      pub after : SparseMerkleTree N V
      pub run_lem : run ≡ (ok (root_hash (remove t p 0)), after)
      pub same_values : after.values ≡ s.values
      pub held : (d : Bytes) → Holds d (remove t p 0) → Held nodes after.nodes d

    abbrev deletes_at : Trie → Res Bytes × SparseMerkleTree N V
    deletes_at end =
        delete_with_side_nodes p (reverse (spine t p 0)) (root_hash end)
          (map digest (node_data t p 0)) (data_of end) s

    module _ (w : Bytes) (at : bottom t p 0 ≡ leaf p w) where
      own : Bytes
      own = leaf_value p (digest w)

      gone : List Bytes
      gone = own ∷ node_data t p 0

      at_end : Holds own (bottom t p 0)
      at_end = subst (Holds own) (sym at) (unfold own in refl)

      gone-Holds : (d : Bytes) → Listed gone d → Holds d t
      unfolding gone
      gone-Holds d (inl e) = subst (λ x. Holds x t) (sym e) (bottom-Holds t p 0 own at_end)
      gone-Holds d (inr m) = node_data-Holds t p 0 d m

      gone-Distinct : Distinct gone
      unfolding gone own
      gone-Distinct = (
        λ e m same.
            let (l, r, q) = node_data-node_value t p 0 e m in
            leaf_value-ne-node_value p (digest w) l r (same ∙ q),
        node_data-Distinct Seen free t p 0 sound,
      )

      Beside-stays : (d : Bytes) → Beside d t p 0 → Listed gone d → ⊥
      unfolding gone
      Beside-stays d b (inl e) =
          Beside-apart Seen free t p 0 d sound b
            (inr (subst (λ x. Holds x (bottom t p 0)) (sym e) at_end))
      Beside-stays d b (inr m) = Beside-apart Seen free t p 0 d sound b (inl m)

      gone-digests : map digest gone ≡ root_hash (leaf p w) ∷ map digest (node_data t p 0)
      unfolding gone own root_hash
      gone-digests = refl

      held_in : (d : Bytes) → Holds d t → Held nodes s.nodes d
      held_in d a = Stored-Holds (nodes.lookup s.nodes) t d rep.held a

      pub Deletes-leaf : root_hash (leaf p w) ≢ placeholder → Deletes (deletes_at (leaf p w))
      Deletes-leaf nonzero =
          let (s1, deletes, k1) =
            delete_nodes_lem nodes Seen free s gone gone-Distinct
              (λ d m. let a = gone-Holds d m in (Holds-Seen Seen t d seen a, held_in d a)) in
          let up = climb nodes Seen free p len t w 0 [] s1 refl (record {
            end = at;
            well_formed = rep.well_formed;
            full = full;
            within = seen;
            new_within = new_seen;
            beside = λ d b.
                let a = Beside-Holds t p 0 d b in
                k1.held d (Holds-Seen Seen t d seen a, Beside-stays d b) (held_in d a);
          }) in
          record {
            after = up.after;
            run_lem =
                deletes_own p (reverse (spine t p 0)) (map digest (node_data t p 0)) s w s1 up.after
                  (remove t p 0) len nonzero
                  (subst (λ xs. delete_nodes xs s ≡ (ok tt, s1)) gone-digests deletes)
                  (ap (λ xs. delete_loop p xs none none false s1)
                      (sym (append-nil (reverse (spine t p 0))))
                    ∙ up.run
                    ∙ loop_end (remove t p 0) up.after);
            same_values = up.keeps.values ∙ k1.values;
            held = up.stored;
          }
