-- ===== src/Trie/Remove/Represents.antt =====
-- Delete of smt.go refines the removal of a leaf from the trie that the state stands for.
use smt.Prelude.{
  ◌≡◌, ◌≢◌, refl, sym, ap, ◌∙◌, false, Bool-cases, inl, inr, none, some, List, [], length, reverse,
  map, if◌then◌else◌, arith,
}
use mathlib.Core.Path.{subst}
use smt.Res.{ok, err, key_already_empty}
use smt.Bytes.{Bytes, bytes_equal, bytes_equal→eq, bytes_equal_iff}
use smt.TreeHasher.{Hasher, digest, path, path_size, placeholder}
use smt.TreeHasher.Collisions.{CollisionFree}
use smt.MapStore.{MapStore}
use smt.Tree.{SparseMerkleTree}
use smt.Tree.Write.{delete_with_side_nodes}
use smt.Tree.Api.{default_value, write_with_side_nodes, delete}
use smt.Trie.{Trie, leaf, root_hash, spine, bottom, data_of, find}
use smt.Trie.Walk.{HashKeyed, slices_of, fill_side_nodes-slices_of}
use smt.Trie.Represents.{Represents}
use smt.Trie.Spine.{nothing, at_leaf, bottom-Bottom}
use smt.Trie.Insert.{Full}
use smt.Trie.Remove.{remove, find-remove}
use smt.Trie.Remove.Shape.{WellFormed-remove, Full-remove, remove-none}
use smt.Trie.Distinct.{Within}
use smt.Trie.Distinct.Along.{node_data}
use smt.Trie.Effects.{Held}
use smt.Trie.Update.Stores.{Holds-Stored}
use smt.Trie.Update.Rest.{values_delete_lem}
use smt.Trie.Update.Nodes.{path_nodes-node_data}
use smt.Trie.Update.Represents.{root_set}
use smt.Trie.Remove.Deletes.{
  deletes_nothing, deletes_other, returns_root, returns_new, walk_then, Deletes-leaf,
}

module _ ⦃h : Hasher⦄ {N V : Type 0} ⦃ns : MapStore N⦄ ⦃vs : MapStore V⦄ (nodes : HashKeyed ns)
    (values : HashKeyed vs) (Seen : Bytes → Type 0) (free : CollisionFree Seen)
    (s : SparseMerkleTree N V) (t : Trie) (rep : Represents nodes values s t) (full : Full t)
    (seen : Within Seen t) where
  module _ (key : Bytes) (new_seen : Within Seen (remove t (path key) 0)) where
    abbrev p : Bytes
    p = path key

    len : length p ≡ path_size
    len = h.length-digest key

    -- The trie without the key's leaf is the result, with a state that stands for it.
    abbrev Removes : Type 0
    Removes =
        (s' : SparseMerkleTree N V) × (delete key s ≡ (ok (root_hash (remove t p 0)), s'))
        × Represents nodes values s' (remove t p 0)
        × Full (remove t p 0)

    delete_sets :
        (s' : SparseMerkleTree N V) (top : Bytes)
        → write_with_side_nodes p default_value
            (root_hash t)
            (slices_of nodes s t p)
            (slices_of nodes s t p).path_nodes
            s
          ≡ (ok top, s')
        → delete key s ≡ (ok top, record s' { root = top })
    unfolding delete
    delete_sets s' top run = root_set s s' key default_value (root_hash t) top rep.top (
        walk_then (path key) [] [] s key (root_hash t) top (slices_of nodes s t p) s'
          (fill_side_nodes-slices_of nodes s t p len rep.held rep.well_formed) run)

    abbrev sides : List Bytes
    sides = reverse (spine t p 0)

    abbrev above : List Bytes
    above = map digest (node_data t p 0)

    -- Where the path has no leaf the state stays as it is.
    removes_nothing :
        find t p 0 ≡ none
        → delete_with_side_nodes p sides (root_hash (bottom t p 0)) above (data_of (bottom t p 0)) s
          ≡ (err key_already_empty, s)
        → Removes
    removes_nothing nowhere run =
        let same = remove-none t p 0 full nowhere in
        let written =
          returns_root p sides above s (root_hash t) (slices_of nodes s t p) _
            (root_hash (bottom t p 0)) (path_nodes-node_data t p 0) run in
        subst
          (λ (u : Trie).
            (s' : SparseMerkleTree N V) × (delete key s ≡ (ok (root_hash u), s'))
            × Represents nodes values s' u
            × Full u)
          (sym same)
          (
            record s { root = root_hash t },
            delete_sets s (root_hash t) written,
            record {
              top = refl;
              held = rep.held;
              well_formed = rep.well_formed;
              exact = rep.exact;
            },
            full,
          )

    removes_leaf :
        (w : Bytes)
        → bottom t p 0 ≡ leaf p w
        → find t p 0 ≡ some w
        → root_hash (leaf p w) ≢ placeholder
        → Removes
    removes_leaf w at there nonzero =
        let u = remove t p 0 in
        let x = Deletes-leaf nodes values Seen free s t rep full seen p len new_seen w at nonzero in
        let stored = ap (λ n. values.lookup n p) x.same_values ∙ rep.exact p len ∙ there in
        let (s3, deletes, same, root, left) =
          values_delete_lem nodes values Seen free p [] len x.after w stored in
        let run =
          subst
            (λ b.
              delete_with_side_nodes p sides (root_hash b) above (data_of b) s
              ≡ (ok (root_hash u), x.after))
            (sym at) x.run_lem in
        let written =
          returns_new p sides above s (root_hash t) (root_hash u) (slices_of nodes s t p) _
            (root_hash (bottom t p 0)) x.after s3 (path_nodes-node_data t p 0) run deletes in
        (
          record s3 { root = root_hash u },
          delete_sets s3 (root_hash u) written,
          record {
            top = refl;
            held =
                Holds-Stored (nodes.lookup s3.nodes) Seen free u new_seen
                  (λ d a. subst (λ n. Held nodes n d) (sym same) (x.held d a));
            well_formed = WellFormed-remove t p 0 rep.well_formed;
            exact = λ q e.
                left q e
                ∙ ap (λ o. if bytes_equal p q then none else o)
                    (ap (λ n. values.lookup n q) x.same_values ∙ rep.exact q e)
                ∙ sym (find-remove t p q 0 rep.well_formed);
          },
          Full-remove t p 0 full,
        )

  -- On a state that stands for a trie with two leaves below each node, where what this trie and
  -- the trie without the key's leaf hash is among data without collisions, `delete` succeeds: it
  -- returns the hash of the trie without the key's leaf, and leaves a state that stands for that
  -- trie, which has two leaves below each node again.
  pub delete-Represents :
      (key : Bytes)
      → Within Seen (remove t (path key) 0)
      → (s' : SparseMerkleTree N V) × (delete key s ≡ (ok (root_hash (remove t (path key) 0)), s'))
        × Represents nodes values s' (remove t (path key) 0)
        × Full (remove t (path key) 0)
  delete-Represents key new_seen =
      let p = path key in
      let sides = reverse (spine t p 0) in
      let above = map digest (node_data t p 0) in
      let nothing_there = λ (b : Trie).
        delete_with_side_nodes p sides (root_hash b) above (data_of b) s
        ≡ (err key_already_empty, s) in
      elim (bottom-Bottom (nodes.lookup s.nodes) t p 0 rep.well_formed rep.held) [
        | nothing at found ↦
            removes_nothing key new_seen found
              (subst nothing_there (sym at) (deletes_nothing p sides above s))
        | at_leaf q w at found size some_value stored ↦ elim (Bool-cases (bytes_equal q p)) [
          | inl same ↦
              let e = bytes_equal→eq q p same in
              removes_leaf key new_seen w (at ∙ ap (λ x. leaf x w) e) (found ∙ rw same refl)
                (subst (λ x. root_hash (leaf x w) ≢ placeholder) e stored.1)
          | inr differ ↦
              let off : bytes_equal p q ≡ false =
                ground (arith, differ, bytes_equal_iff p q, bytes_equal_iff q p) in
              removes_nothing key new_seen (found ∙ rw differ refl)
                (subst nothing_there (sym at) (deletes_other p sides above s q w size stored.1 off))
        ]
      ]
