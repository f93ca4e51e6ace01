-- ===== src/Tree/Api.antt =====
-- The exported methods of SparseMerkleTree in smt.go.
use smt.Prelude.{Bool, true, false, not, Option, none, List, [], ◌∷◌, if◌then◌else◌}
use mathlib.Core.Option.{get_or}
use smt.Res.{Res, ok, err, panic, Error, key_already_empty, invalid_key}
use smt.Res
use smt.Bytes.{Bytes, bytes_equal}
use smt.TreeHasher.{Hasher, path, placeholder, parse_leaf}
use smt.Proofs.{SparseMerkleProof, SparseCompactMerkleProof, compact_proof}
use smt.MapStore.{MapStore}
use smt.Tree.{SparseMerkleTree}
use smt.Tree.Run.{Run, ◌>>=◌, ◌>>◌, return, lift, values_delete}
use smt.Tree.Walk.{SideNodes, fill_side_nodes}
use smt.Tree.Write.{update_with_side_nodes, delete_with_side_nodes}

abbrev pub default_value : Bytes
default_value = []

module _ {N V : Type 0} where
  unfoldable pub set_root : SparseMerkleTree N V → Bytes → SparseMerkleTree N V
  set_root smt root = record smt { root = root }

  unfoldable pub import_sparse_merkle_tree : N → V → Bytes → SparseMerkleTree N V
  import_sparse_merkle_tree nodes values root = record {
    nodes = nodes;
    values = values;
    root = root;
  }

  -- An `Option` changes the new tree.
  unfoldable pub apply_options :
      List (SparseMerkleTree N V → SparseMerkleTree N V)
      → SparseMerkleTree N V
      → SparseMerkleTree N V
  apply_options [] smt = smt
  apply_options (option ∷ rest) smt = apply_options rest (option smt)

  unfoldable pub new_sparse_merkle_tree :
      ⦃h : Hasher⦄
      → N
      → V
      → List (SparseMerkleTree N V → SparseMerkleTree N V)
      → SparseMerkleTree N V
  unfolding apply_options set_root placeholder
  new_sparse_merkle_tree nodes values options =
      set_root (apply_options options (record { nodes = nodes; values = values; root = [] }))
        placeholder

-- A missing key has the default value; any other error is passed on.
unfoldable pub default_if_missing : Res Bytes → Res Bytes
default_if_missing (ok value) = ok value
default_if_missing (err (invalid_key k)) = ok default_value
default_if_missing (err e) = err e
default_if_missing panic = panic

module _ ⦃h : Hasher⦄ where
  -- The leaf data of a proof that shows an unrelated leaf.
  unfoldable pub unrelated_leaf : Bytes → List Bytes → Option Bytes → Res (Option Bytes)
  unfolding bytes_equal placeholder parse_leaf
  unrelated_leaf p [] leaf_data = panic
  unrelated_leaf p (bottom ∷ above) leaf_data =
      if bytes_equal bottom placeholder
      then ok none
      else Res.◌>>=◌ (parse_leaf (get_or leaf_data []))
          λ leaf. ok (if bytes_equal leaf.0 p then none else leaf_data)

module _ ⦃h : Hasher⦄ {N V : Type 0} ⦃ns : MapStore N⦄ ⦃vs : MapStore V⦄ where
  unfoldable pub get : Bytes → Run (SparseMerkleTree N V) Bytes
  unfolding bytes_equal placeholder default_if_missing
  get key smt =
      if bytes_equal smt.root placeholder
      then (ok default_value, smt)
      else (default_if_missing (vs.get smt.values (path key)), smt)

  unfoldable pub has : Bytes → Run (SparseMerkleTree N V) Bool
  unfolding get bytes_equal
  has key = do value ← get key; return (not (bytes_equal default_value value))

  -- What follows the deletion of the nodes. A key that is already empty is no error; after any other
  -- error the value is deleted all the same.
  unfoldable pub after_delete :
      Bytes → Bytes → Res Bytes × SparseMerkleTree N V → Res Bytes × SparseMerkleTree N V
  after_delete p root (err key_already_empty, smt) = (ok root, smt)
  after_delete p root (ok new_root, smt) = (values_delete p >> return new_root) smt
  after_delete p root (err e, smt) = (values_delete p >> lift (err e)) smt
  after_delete p root (panic, smt) = (panic, smt)

  -- The branch on the value, for the slices of the walk.
  unfoldable pub write_with_side_nodes :
      Bytes → Bytes → Bytes → SideNodes → List Bytes → Run (SparseMerkleTree N V) Bytes
  write_with_side_nodes p value root walk [] = lift panic
  write_with_side_nodes p value root walk (bottom ∷ above) =
      if bytes_equal value default_value
      then (λ smt.
          after_delete p root
            (delete_with_side_nodes p walk.side_nodes bottom above walk.leaf_data smt))
      else update_with_side_nodes p value walk.side_nodes bottom above walk.leaf_data

  unfoldable pub update_for_root : Bytes → Bytes → Bytes → Run (SparseMerkleTree N V) Bytes
  update_for_root key value root = do
    walk ← fill_side_nodes (path key) root false
    write_with_side_nodes (path key) value root walk walk.path_nodes

  unfoldable pub delete_for_root : Bytes → Bytes → Run (SparseMerkleTree N V) Bytes
  unfolding update_for_root
  delete_for_root key root = update_for_root key default_value root

  -- The root is set only if the update succeeded.
  unfoldable pub update : Bytes → Bytes → Run (SparseMerkleTree N V) Bytes
  unfolding update_for_root set_root
  update key value smt =
      (update_for_root key value smt.root >>= λ new_root s. (ok new_root, set_root s new_root)) smt

  unfoldable pub delete : Bytes → Run (SparseMerkleTree N V) Bytes
  unfolding update
  delete key = update key default_value

  unfoldable pub do_prove_for_root :
      Bytes → Bytes → Bool → Run (SparseMerkleTree N V) SparseMerkleProof
  do_prove_for_root key root is_updatable = do
    walk ← fill_side_nodes (path key) root is_updatable
    unrelated ← lift (unrelated_leaf (path key) walk.path_nodes walk.leaf_data)
    return (record {
      side_nodes = walk.side_nodes;
      non_membership_leaf_data = unrelated;
      sibling_data = walk.sibling_data;
    })

  unfoldable pub prove_for_root : Bytes → Bytes → Run (SparseMerkleTree N V) SparseMerkleProof
  unfolding do_prove_for_root
  prove_for_root key root = do_prove_for_root key root false

  unfoldable pub prove : Bytes → Run (SparseMerkleTree N V) SparseMerkleProof
  unfolding prove_for_root
  prove key smt = prove_for_root key smt.root smt

  unfoldable pub prove_updatable_for_root :
      Bytes → Bytes → Run (SparseMerkleTree N V) SparseMerkleProof
  unfolding do_prove_for_root
  prove_updatable_for_root key root = do_prove_for_root key root true

  unfoldable pub prove_updatable : Bytes → Run (SparseMerkleTree N V) SparseMerkleProof
  unfolding prove_updatable_for_root
  prove_updatable key smt = prove_updatable_for_root key smt.root smt

  unfoldable pub prove_compact_for_root :
      Bytes → Bytes → Run (SparseMerkleTree N V) SparseCompactMerkleProof
  unfolding prove_for_root compact_proof
  prove_compact_for_root key root = do proof ← prove_for_root key root; lift (compact_proof proof)

  unfoldable pub prove_compact : Bytes → Run (SparseMerkleTree N V) SparseCompactMerkleProof
  unfolding prove_compact_for_root
  prove_compact key smt = prove_compact_for_root key smt.root smt
