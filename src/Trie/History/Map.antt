-- ===== src/Trie/History/Map.antt =====
-- What a sequence of Update calls of smt.go on a new tree leads to: the map of what was written, which
-- Get and GetDescend read and the root stands for.
use smt.Prelude.{◌≡◌, sym, ap, ◌∙◌, inl, inr, none, some, [], length, Option-cases}
use mathlib.Core.Option.{get_or}
use mathlib.Core.Path.{subst}
use smt.Res.{Res, ok}
use smt.Bytes.{Bytes}
use smt.TreeHasher.{Hasher, path, path_size}
use smt.TreeHasher.Collisions.{CollisionFree}
use smt.MapStore.{MapStore}
use smt.Tree.{SparseMerkleTree}
use smt.Tree.Api.{get, new_sparse_merkle_tree}
use smt.DeepSubTree.{get_descend}
use smt.Trie.{Trie, empty, root_hash, find, WellFormed}
use smt.Trie.Walk.{HashKeyed}
use smt.Trie.Represents.{new-Represents, get-get_descend}
use smt.Trie.Distinct.{root_hash_injective}
use smt.Trie.Canonical.{find_determines, find_nonempty}
use smt.Trie.Descend.{find-empty}
use smt.Trie.History.{
  Writes, put_all, written, written-same, WithinAll, update_all, find-put_all, Stands,
  update_all-Stands,
}

module _ ⦃h : Hasher⦄ where
  -- So what is read with the default value for none tells what is found.
  pub find_of_read :
      (t u : Trie) (q : Bytes)
      → WellFormed 0 t
      → WellFormed 0 u
      → get_or (find t q 0) [] ≡ get_or (find u q 0) []
      → find t q 0 ≡ find u q 0
  find_of_read t u q wt wu e = elim (Option-cases (find t q 0)) [
    | inl et ↦ elim (Option-cases (find u q 0)) [
      | inl eu ↦ et ∙ sym eu
      | inr (w, eu) ↦ absurd (find_nonempty u q w 0 wu eu (sym (rw (et, eu) at e)))
    ]
    | inr (v, et) ↦ elim (Option-cases (find u q 0)) [
      | inl eu ↦ absurd (find_nonempty t q v 0 wt et (rw (et, eu) at e))
      | inr (w, eu) ↦ et ∙ ap some (rw (et, eu) at e) ∙ sym eu
    ]
  ]

module _ ⦃h : Hasher⦄ {N V : Type 0} ⦃ns : MapStore N⦄ ⦃vs : MapStore V⦄ (nodes : HashKeyed ns)
    (values : HashKeyed vs) (Seen : Bytes → Type 0) (free : CollisionFree Seen) where
  -- A value store without values.
  abbrev pub Blank : V → Type 0
  Blank v = (q : Bytes) → length q ≡ path_size → values.lookup v q ≡ none

  pub new_tree :
      (n : N) (v : V)
      → Blank v
      → Stands nodes values Seen free (new_sparse_merkle_tree n v []) empty
  new_tree n v blank = record {
    represents = new-Represents nodes values n v blank;
    full = tt;
    within = tt;
  }

  pub all-written :
      (ws : Writes) (q : Bytes) → get_or (find (put_all empty ws) q 0) [] ≡ written ws (λ x. []) q
  all-written ws q =
      find-put_all empty ws q tt
      ∙ written-same ws _ _ q (λ x. ap (λ o. get_or o []) (find-empty x 0))

  -- Where what the tries hash is among data without collisions, any sequence of updates, with the
  -- default value or another one, runs through on a new tree on an empty value store: no call
  -- fails. Then `get` and `get_descend` return for each key the value that was last written at the
  -- key's path or, where there is none, the default value.
  pub update_all-written :
      (n : N) (v : V) (ws : Writes)
      → Blank v
      → WithinAll Seen empty ws
      → (s : SparseMerkleTree N V) × (update_all ws (new_sparse_merkle_tree n v []) ≡ (ok tt, s))
        × ((key : Bytes)
            → (get key s ≡ (ok (written ws (λ x. []) (path key)), s))
              × (get_descend key s ≡ (ok (written ws (λ x. []) (path key)), s)))
  update_all-written n v ws blank within =
      let (s, run, x) =
        update_all-Stands nodes values Seen free ws _ empty (new_tree n v blank) within in
      (
        s,
        run,
        λ key.
            let (reads, descends) =
              get-get_descend nodes values s (put_all empty ws) x.represents key in
            let e =
              ap (λ (b : Bytes). let r : Res Bytes × SparseMerkleTree N V = (ok b, s) in r)
                (all-written ws (path key)) in
            (reads ∙ e, descends ∙ e),
      )

  after_run :
      (n : N) (v : V) (ws : Writes) (s : SparseMerkleTree N V)
      → Blank v
      → WithinAll Seen empty ws
      → update_all ws (new_sparse_merkle_tree n v []) ≡ (ok tt, s)
      → Stands nodes values Seen free s (put_all empty ws)
  after_run n v ws s blank within run =
      let (s', runs, x) =
        update_all-Stands nodes values Seen free ws _ empty (new_tree n v blank) within in
      subst (λ y. Stands nodes values Seen free y (put_all empty ws))
        (ap (λ (r : Res (Unit {0}) × SparseMerkleTree N V). r.1) (sym runs ∙ run)) x

  -- Where what the tries hash is among data without collisions, two sequences of updates that write
  -- the same map lead from new trees to the same root.
  pub written-root :
      (n n' : N) (v v' : V) (ws ws' : Writes) (s s' : SparseMerkleTree N V)
      → Blank v
      → Blank v'
      → WithinAll Seen empty ws
      → WithinAll Seen empty ws'
      → update_all ws (new_sparse_merkle_tree n v []) ≡ (ok tt, s)
      → update_all ws' (new_sparse_merkle_tree n' v' []) ≡ (ok tt, s')
      → ((q : Bytes) → length q ≡ path_size → written ws (λ x. []) q ≡ written ws' (λ x. []) q)
      → s.root ≡ s'.root
  written-root n n' v v' ws ws' s s' blank blank' within within' run run' same =
      let x = after_run n v ws s blank within run in
      let y = after_run n' v' ws' s' blank' within' run' in
      let t = put_all empty ws in
      let u = put_all empty ws' in
      x.represents.top
      ∙ ap root_hash (
          find_determines t u 0 x.represents.well_formed y.represents.well_formed x.full y.full
            (λ q e.
              find_of_read t u q x.represents.well_formed y.represents.well_formed
                (all-written ws q ∙ same q e ∙ sym (all-written ws' q))))
      ∙ sym y.represents.top

  -- Where what the tries hash is among data without collisions, two sequences of updates that lead
  -- from new trees to the same root have written the same map: the root commits to it.
  pub root-written :
      (n n' : N) (v v' : V) (ws ws' : Writes) (s s' : SparseMerkleTree N V)
      → Blank v
      → Blank v'
      → WithinAll Seen empty ws
      → WithinAll Seen empty ws'
      → update_all ws (new_sparse_merkle_tree n v []) ≡ (ok tt, s)
      → update_all ws' (new_sparse_merkle_tree n' v' []) ≡ (ok tt, s')
      → s.root ≡ s'.root
      → (q : Bytes) → written ws (λ x. []) q ≡ written ws' (λ x. []) q
  root-written n n' v v' ws ws' s s' blank blank' within within' run run' same q =
      let x = after_run n v ws s blank within run in
      let y = after_run n' v' ws' s' blank' within' run' in
      let t = put_all empty ws in
      let u = put_all empty ws' in
      let e =
        root_hash_injective Seen free t u 0 0 x.within y.within x.represents.well_formed
          y.represents.well_formed (sym x.represents.top ∙ same ∙ y.represents.top) in
      sym (all-written ws q) ∙ ap (λ z. get_or (find z q 0) []) e ∙ all-written ws' q
