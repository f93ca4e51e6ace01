-- ===== src/Trie/Update/Reached.antt =====
-- The states of smt.go that updates and deletions reach from a new tree: what Get reads from them, and
-- their roots.
use smt.Prelude.{
  ◌≡◌, ◌≢◌, refl, sym, ap, ◌∙◌, Bool-cases, inl, inr, none, [], length, if◌then◌else◌, arith,
}
use mathlib.Core.Option.{get_or}
use mathlib.Core.Path.{subst}
use smt.Res.{Res, ok}
use smt.Bytes.{Bytes, bytes_equal}
use smt.TreeHasher.{Hasher, path, path_size}
use smt.TreeHasher.Collisions.{CollisionFree}
use smt.MapStore.{MapStore}
use smt.Tree.{SparseMerkleTree}
use smt.Tree.Api.{default_value, delete, get, update, new_sparse_merkle_tree}
use smt.Trie.{Trie, empty, root_hash, find}
use smt.Trie.Walk.{HashKeyed}
use smt.Trie.Represents.{Represents, new-Represents, get-get_descend}
use smt.Trie.Insert.{insert, find-insert, Full}
use smt.Trie.Distinct.{Within}
use smt.Trie.Canonical.{values-root}
use smt.Trie.Remove.{remove, find-remove}
use smt.Trie.Remove.Represents.{delete-Represents}
use smt.Trie.Update.Represents.{update-Represents}

module _ ⦃h : Hasher⦄ {N V : Type 0} ⦃ns : MapStore N⦄ ⦃vs : MapStore V⦄ (nodes : HashKeyed ns)
    (values : HashKeyed vs) (Seen : Bytes → Type 0) (free : CollisionFree Seen) where
  -- A state that updates and deletions reach from a new tree on an empty value store, with the trie of
  -- what was written and not deleted; what the trie hashes is seen.
  pub data Reached : SparseMerkleTree N V → Trie → Type 0 where
    new :
        (n : N) (v : V)
        → ((q : Bytes) → length q ≡ path_size → values.lookup v q ≡ none)
        → Reached (new_sparse_merkle_tree n v []) empty
    updated :
        {s s' : SparseMerkleTree N V} {t : Trie} (key v root : Bytes)
        → Reached s t
        → v ≢ []
        → Within Seen (insert t (path key) v 0)
        → update key v s ≡ (ok root, s')
        → Reached s' (insert t (path key) v 0)
    deleted :
        {s s' : SparseMerkleTree N V} {t : Trie} (key root : Bytes)
        → Reached s t
        → Within Seen (remove t (path key) 0)
        → delete key s ≡ (ok root, s')
        → Reached s' (remove t (path key) 0)

  -- What holds of every reached state.
  pub record Sound (s : SparseMerkleTree N V) (t : Trie) : Type 0 where
    pub represents : Represents nodes values s t
    pub full : Full t
    pub within : Within Seen t

  state_of :
      {r r' : Bytes} {s s' : SparseMerkleTree N V}
      → ◌≡◌ {A = Res Bytes × SparseMerkleTree N V} (ok r, s) (ok r', s')
      → s ≡ s'
  state_of e = ap (λ (x : Res Bytes × SparseMerkleTree N V). x.1) e

  -- Where what the tries hash is among data without collisions, every state that updates with
  -- values other than the default and deletions reach from a new tree stands for the trie of what
  -- was written and not deleted, which has two leaves below each node.
  pub Reached-Sound : {s : SparseMerkleTree N V} {t : Trie} → Reached s t → Sound s t
  Reached-Sound (new n v none_there) = record {
    represents = new-Represents nodes values n v none_there;
    full = tt;
    within = tt;
  }
  Reached-Sound (updated {s} {s'} {t} key v root before ne within run) =
      let i = Reached-Sound before in
      let (s2, runs, stands, full) =
        update-Represents nodes values Seen free s t i.represents i.full i.within key v ne within in
      record {
        represents =
            subst (λ x. Represents nodes values x (insert t (path key) v 0))
              (state_of (sym runs ∙ run)) stands;
        full = full;
        within = within;
      }
  Reached-Sound (deleted {s} {s'} {t} key root before within run) =
      let i = Reached-Sound before in
      let (s2, runs, stands, full) =
        delete-Represents nodes values Seen free s t i.represents i.full i.within key within in
      record {
        represents =
            subst (λ x. Represents nodes values x (remove t (path key) 0))
              (state_of (sym runs ∙ run)) stands;
        full = full;
        within = within;
      }

  -- Where what the tries hash is among data without collisions, two states that updates and
  -- deletions reach have the same root if their value stores have the same values, whatever was written or
  -- deleted before and in whatever order.
  pub Reached-root :
      (s s' : SparseMerkleTree N V) (t u : Trie)
      → Reached s t
      → Reached s' u
      → ((q : Bytes) → length q ≡ path_size → values.lookup s.values q ≡ values.lookup s'.values q)
      → s.root ≡ s'.root
  Reached-root s s' t u a b same =
      let i = Reached-Sound a in
      let j = Reached-Sound b in
      values-root nodes values s s' t u i.represents j.represents i.full j.full same

  module _ (s : SparseMerkleTree N V) (t : Trie) (key v : Bytes) where
    found_after :
        (k : Bytes)
        → Represents nodes values s t
        → get_or (find (insert t (path key) v 0) (path k) 0) []
          ≡ (if bytes_equal (path key) (path k) then v else get_or (find t (path k) 0) [])
    found_after k rep =
        let after =
          find-insert t (path key) v (path k) 0 (h.length-digest key) (h.digest-IsByte key)
            (omega arith) (λ j lt. absurd (omega arith)) rep.well_formed in
        ap (λ o. get_or o []) after ∙ elim (Bool-cases (bytes_equal (path key) (path k))) [
          | inl e ↦ rw e refl
          | inr e ↦ rw e refl
        ]

    -- On a state that updates and deletions reach, where what the tries hash is among data without
    -- collisions,
    -- `update` with a value other than the default succeeds and returns the root that the tree
    -- then has; after it `get` returns that value for the key, and for a key of another path what
    -- it returned before.
    pub update-get :
        (k : Bytes)
        → Reached s t
        → v ≢ []
        → Within Seen (insert t (path key) v 0)
        → (s' : SparseMerkleTree N V) × (root : Bytes) × (update key v s ≡ (ok root, s'))
          × (root ≡ s'.root)
          × (get k s' ≡ ((if bytes_equal (path key) (path k) then ok v else (get k s).0), s'))
    update-get k reached ne within =
        let i = Reached-Sound reached in
        let (s2, run, stands, full) =
          update-Represents nodes values Seen free s t i.represents i.full i.within key v ne
            within in
        let before = (get-get_descend nodes values s t i.represents k).0 in
        let after = (get-get_descend nodes values s2 (insert t (path key) v 0) stands k).0 in
        (
          s2,
          root_hash (insert t (path key) v 0),
          run,
          sym stands.top,
          after
              ∙ ap (λ x. (ok x, s2)) (found_after k i.represents)
              ∙ elim (Bool-cases (bytes_equal (path key) (path k))) [
                | inl e ↦ rw e refl
                | inr e ↦ rw (e, before) refl
              ],
        )

  module _ (s : SparseMerkleTree N V) (t : Trie) (key : Bytes) where
    gone_after :
        (k : Bytes)
        → Represents nodes values s t
        → get_or (find (remove t (path key) 0) (path k) 0) []
          ≡ (if bytes_equal (path key) (path k) then [] else get_or (find t (path k) 0) [])
    gone_after k rep =
        let after = find-remove t (path key) (path k) 0 rep.well_formed in
        ap (λ o. get_or o []) after ∙ elim (Bool-cases (bytes_equal (path key) (path k))) [
          | inl e ↦ rw e refl
          | inr e ↦ rw e refl
        ]

    -- On a state that updates and deletions reach, where what the tries hash is among data without
    -- collisions, `delete` succeeds and returns the root that the tree then has; after it `get`
    -- returns the default value for the key, and for a key of another path what it returned before.
    pub get-delete :
        (k : Bytes)
        → Reached s t
        → Within Seen (remove t (path key) 0)
        → (s' : SparseMerkleTree N V) × (root : Bytes) × (delete key s ≡ (ok root, s'))
          × (root ≡ s'.root)
          × (get k s'
              ≡ ((if bytes_equal (path key) (path k) then ok default_value else (get k s).0), s'))
    get-delete k reached within =
        let i = Reached-Sound reached in
        let (s2, run, stands, full) =
          delete-Represents nodes values Seen free s t i.represents i.full i.within key within in
        let before = (get-get_descend nodes values s t i.represents k).0 in
        let after = (get-get_descend nodes values s2 (remove t (path key) 0) stands k).0 in
        (
          s2,
          root_hash (remove t (path key) 0),
          run,
          sym stands.top,
          after
              ∙ ap (λ x. (ok x, s2)) (gone_after k i.represents)
              ∙ elim (Bool-cases (bytes_equal (path key) (path k))) [
                | inl e ↦ rw e refl
                | inr e ↦ rw (e, before) refl
              ],
        )
