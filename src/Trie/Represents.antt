-- ===== src/Trie/Represents.antt =====
-- A state of SparseMerkleTree (smt.go) that stands for a trie, and Get on it.
use smt.Prelude.{◌≡◌, refl, ap, ◌∙◌, inl, inr, none, [], length, if◌then◌else◌, Option-cases}
use mathlib.Core.Option.{get_or}
use smt.Res.{Res, ok}
use smt.Bytes.{Bytes, bytes_equal, bytes_equal_refl}
use smt.TreeHasher.{Hasher, path, path_size, placeholder}
use smt.MapStore.{MapStore, found}
use smt.Tree.{SparseMerkleTree}
use smt.Tree.Api.{default_value, default_if_missing, get, new_sparse_merkle_tree}
use smt.DeepSubTree.{get_descend}
use smt.Trie.{Trie, empty, leaf, node, root_hash, find, WellFormed, Stored}
use smt.Trie.Walk.{HashKeyed, not_placeholder, root_hash-empty}
use smt.Trie.Descend.{find-empty, get_descend-find}

module _ ⦃h : Hasher⦄ {N V : Type 0} ⦃ns : MapStore N⦄ ⦃vs : MapStore V⦄ (nodes : HashKeyed ns)
    (values : HashKeyed vs) where
  -- The root is the trie's hash, the node store holds its data, and the value store holds exactly its
  -- values.
  pub record Represents (s : SparseMerkleTree N V) (t : Trie) : Type 0 where
    pub top : s.root ≡ root_hash t
    pub held : Stored (nodes.lookup s.nodes) t
    pub well_formed : WellFormed 0 t
    pub exact : (p : Bytes) → length p ≡ path_size → values.lookup s.values p ≡ find t p 0

  -- A new tree on an empty value store stands for the empty trie, whatever its node store holds.
  pub new-Represents :
      (n : N) (v : V)
      → ((p : Bytes) → length p ≡ path_size → values.lookup v p ≡ none)
      → Represents (new_sparse_merkle_tree n v []) empty
  unfolding new_sparse_merkle_tree root_hash find
  new-Represents n v none_there = record {
    top = refl;
    held = tt;
    well_formed = tt;
    exact = λ p len. none_there p len;
  }

  module _ (s : SparseMerkleTree N V) (t : Trie) (rep : Represents s t) (key : Bytes) where
    value_of : vs.get s.values (path key) ≡ found (path key) (find t (path key) 0)
    value_of =
        values.is_map.get_lem s.values (path key) (values.fits _ (h.length-digest key))
        ∙ ap (found (path key)) (rep.exact (path key) (h.length-digest key))

    default_of :
        default_if_missing (vs.get s.values (path key)) ≡ ok (get_or (find t (path key) 0) [])
    unfolding default_if_missing
    default_of = elim (Option-cases (find t (path key) 0)) [
      | inl e ↦ rw (value_of, e)
      | inr (v, e) ↦ rw (value_of, e)
    ]

    get_at_root :
        (t' : Trie)
        → Stored (nodes.lookup s.nodes) t'
        → find t (path key) 0 ≡ find t' (path key) 0
        → ◌≡◌ {A = Res Bytes × SparseMerkleTree N V}
            (if bytes_equal (root_hash t') placeholder
              then (ok default_value, s)
              else (default_if_missing (vs.get s.values (path key)), s))
            (ok (get_or (find t (path key) 0) []), s)
    get_at_root empty held e =
        rw (root_hash-empty, bytes_equal_refl placeholder, e, find-empty (path key) 0)
    get_at_root (leaf q v) held e = rw (not_placeholder _ held.1, default_of)
    get_at_root (node l r) held e = rw (not_placeholder _ held.1, default_of)

    get-find : get key s ≡ (ok (get_or (find t (path key) 0) []), s)
    unfolding get
    get-find =
        ap
          (λ r.
            if bytes_equal r placeholder
            then (ok default_value, s)
            else (default_if_missing (vs.get s.values (path key)), s))
          rep.top
        ∙ get_at_root t rep.held refl

    -- Get and GetDescend of a state that stands for a trie both return the trie's value at the key's
    -- path or, where it has none, the default value, and change nothing.
    pub get-get_descend :
        (get key s ≡ (ok (get_or (find t (path key) 0) []), s))
        × (get_descend key s ≡ (ok (get_or (find t (path key) 0) []), s))
    get-get_descend = (
      get-find,
      get_descend-find nodes s t key rep.top rep.held rep.well_formed (λ v e. rw (value_of, e)),
    )
