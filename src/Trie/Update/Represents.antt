-- ===== src/Trie/Update/Represents.antt =====
-- Update of smt.go refines the insertion of a leaf into the trie that the state stands for.
use smt.Prelude.{
  ℕ, suc, ◌==◌, ◌≡◌, ◌≢◌, refl, sym, ap, ◌∙◌, false, Bool-cases, inl, inr, some, List, [], ◌∷◌,
  length, reverse, map, arith, All,
}
use mathlib.Core.Path.{subst}
use smt.Res.{Res, ok}
use smt.Bytes.{Bytes, IsByte, bytes_equal, bytes_equal→eq, bytes_equal_iff}
use smt.Utils.Bits.{bit}
use smt.TreeHasher.{Hasher, digest, path, path_size, placeholder}
use smt.TreeHasher.Collisions.{CollisionFree}
use smt.MapStore.{MapStore}
use smt.Tree.{SparseMerkleTree}
use smt.Tree.Run.{and_then}
use smt.Tree.Walk.{SideNodes, fill_side_nodes}
use smt.Tree.Write.{update_with_side_nodes}
use smt.Tree.Api.{default_value, set_root, update, update_for_root, write_with_side_nodes}
use smt.Trie.{Trie, empty, leaf, node, root_hash, spine, bottom, data_of, find}
use smt.Trie.Walk.{HashKeyed, slices_of, fill_side_nodes-slices_of}
use smt.Trie.Represents.{Represents}
use smt.Trie.Spine.{nothing, at_leaf, bottom-Bottom}
use smt.Trie.Insert.{insert, Full}
use smt.Trie.Distinct.{Within, IsSound}
use smt.Trie.Distinct.Along.{node_data}
use smt.Trie.Update.Path.{bottom-insert}
use smt.Trie.Update.Nodes.{path_nodes-node_data}
use smt.Trie.Update.Tail.{Inserts}
use smt.Trie.Update.Ready.{new_sound}
use smt.Trie.Update.Cases.{write-empty, write_other, write_own}

module _ ⦃h : Hasher⦄ where
  Within-bottom :
      (Seen : Bytes → Type 0) (t : Trie) (p : Bytes) (i : ℕ)
      → Within Seen t
      → Within Seen (bottom t p i)
  unfolding bottom
  Within-bottom Seen empty p i w = w
  Within-bottom Seen (leaf q v) p i w = w
  Within-bottom Seen (node l r) p i w = elim (Bool-cases (bit p i == 1)) [
    | inl e ↦ rw e (Within-bottom Seen r p (suc i) w.2)
    | inr e ↦ rw e (Within-bottom Seen l p (suc i) w.1)
  ]

module _ ⦃h : Hasher⦄ {N V : Type 0} ⦃ns : MapStore N⦄ ⦃vs : MapStore V⦄ where
  -- A value that is not the default is written.
  write_value :
      (p v root : Bytes) (walk : SideNodes) (nodes : List Bytes) (end : Bytes) (above : List Bytes)
      → v ≢ []
      → nodes ≡ end ∷ above
      → (s : SparseMerkleTree N V)
      → write_with_side_nodes p v root walk nodes s
        ≡ update_with_side_nodes p v walk.side_nodes end above walk.leaf_data s
  unfolding write_with_side_nodes
  write_value p v root walk nodes end above ne e s =
      let written : bytes_equal v default_value ≡ false =
        ground (arith, ne, bytes_equal_iff v []) in
      rw (e, written) refl

  walk_and_write :
      (s s' : SparseMerkleTree N V) (key v root : Bytes) (walk : SideNodes) (end : Bytes)
      → (above : List Bytes) (top : Bytes) → fill_side_nodes (path key) root false s ≡ (ok walk, s)
      → walk.path_nodes ≡ end ∷ above
      → v ≢ []
      → update_with_side_nodes (path key) v walk.side_nodes end above walk.leaf_data s
        ≡ (ok top, s')
      → update_for_root key v root s ≡ (ok top, s')
  unfolding update_for_root
  walk_and_write s s' key v root walk end above top run e ne write =
      rw run (write_value (path key) v root walk walk.path_nodes end above ne e s ∙ write)

  pub root_set :
      (s s' : SparseMerkleTree N V) (key v root top : Bytes)
      → s.root ≡ root
      → update_for_root key v root s ≡ (ok top, s')
      → update key v s ≡ (ok top, record s' { root = top })
  unfolding update set_root
  root_set s s' key v root top at run =
      let next = λ (new_root : Bytes) (s : SparseMerkleTree N V).
        let r : Res Bytes × SparseMerkleTree N V = (ok new_root, set_root s new_root) in r in
      ap (λ r. and_then next (update_for_root key v r s)) at ∙ ap (and_then next) run

module _ ⦃h : Hasher⦄ {N V : Type 0} ⦃ns : MapStore N⦄ ⦃vs : MapStore V⦄ (nodes : HashKeyed ns)
    (values : HashKeyed vs) (Seen : Bytes → Type 0) (free : CollisionFree Seen)
    (s : SparseMerkleTree N V) (t : Trie) (rep : Represents nodes values s t) (full : Full t)
    (seen : Within Seen t) where
  sound : IsSound Seen 0 t
  sound = record { within = seen; well_formed = rep.well_formed; full = full }

  module _ (p v : Bytes) (len : length p ≡ path_size) (bytes : All IsByte p) (ne : v ≢ [])
      (within : Within Seen (insert t p v 0)) (own_seen : Within Seen (leaf p v)) where
    -- Wherever the walk ended, the leaf is inserted.
    write_run : Inserts nodes values Seen free t p v len bytes ne sound within own_seen (
        update_with_side_nodes p v
          (reverse (spine t p 0))
          (root_hash (bottom t p 0))
          (map digest (node_data t p 0))
          (data_of (bottom t p 0))
          s)
    write_run =
        let runs = λ (b : Trie).
          Inserts nodes values Seen free t p v len bytes ne sound within own_seen (
            update_with_side_nodes p v (reverse (spine t p 0)) (root_hash b)
              (map digest (node_data t p 0)) (data_of b) s) in
        elim (bottom-Bottom (nodes.lookup s.nodes) t p 0 rep.well_formed rep.held) [
          | nothing at found ↦
              subst runs (sym at) (
                write-empty nodes values Seen free t p v len bytes ne sound within own_seen s rep
                  at)
          | at_leaf q w at found size some_value stored ↦ elim (Bool-cases (bytes_equal q p)) [
            | inl same ↦
                let e = bytes_equal→eq q p same in
                let own = at ∙ ap (λ x. leaf x w) e in
                let there : find t p 0 ≡ some w = found ∙ rw same refl in
                subst runs (sym own) (
                  write_own nodes values Seen free t p v len bytes ne sound within own_seen s rep w
                    own there (subst (λ x. root_hash (leaf x w) ≢ placeholder) e stored.1)
                    (subst (Within Seen) own (Within-bottom Seen t p 0 seen)).1)
            | inr other ↦ subst runs (sym at) (
                write_other nodes values Seen free t p v len bytes ne sound within own_seen s rep q
                  w at stored.1 other)
          ]
        ]

  -- On a state that stands for a trie with two leaves below each node, where what this trie and
  -- the trie with the new value hash is among data without collisions, `update` with a value
  -- other than the default succeeds: it returns the hash of the trie with the value put in at the
  -- key's path, and leaves a state that stands for that trie, which has two leaves below each
  -- node again.
  pub update-Represents :
      (key v : Bytes)
      → v ≢ []
      → Within Seen (insert t (path key) v 0)
      → (s' : SparseMerkleTree N V) × (update key v s
          ≡ (ok (root_hash (insert t (path key) v 0)), s'))
        × Represents nodes values s' (insert t (path key) v 0)
        × Full (insert t (path key) v 0)
  update-Represents key v ne within =
      let p = path key in
      let len = h.length-digest key in
      let bytes = h.digest-IsByte key in
      let own_seen =
        subst (Within Seen) (bottom-insert t p v 0)
          (Within-bottom Seen (insert t p v 0) p 0 within) in
      let (s', run, stands) = write_run p v len bytes ne within own_seen in
      let walk = fill_side_nodes-slices_of nodes s t p len rep.held rep.well_formed in
      (
        record s' { root = root_hash (insert t p v 0) },
        root_set s s' key v (root_hash t) _ rep.top (
            walk_and_write s s' key v (root_hash t) (slices_of nodes s t p)
              (root_hash (bottom t p 0)) (map digest (node_data t p 0)) _ walk
              (path_nodes-node_data t p 0) ne run),
        stands,
        (new_sound nodes values Seen free t p v len bytes ne sound within).full,
      )
