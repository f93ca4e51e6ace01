-- ===== src/Trie/History/Undo.antt =====
-- A deletion in smt.go undoes an update of a new key.
use smt.Prelude.{
  ◌≡◌, ◌≢◌, refl, sym, ap, ◌∙◌, Bool-cases, inl, inr, none, [], Option-cases, if◌then◌else◌, arith,
}
use mathlib.Core.Option.{get_or}
use mathlib.Core.Path.{subst}
use smt.Res.{Res, ok}
use smt.Bytes.{Bytes, bytes_equal, bytes_equal→eq}
use smt.TreeHasher.{Hasher, path}
use smt.TreeHasher.Collisions.{CollisionFree}
use smt.MapStore.{MapStore}
use smt.Tree.{SparseMerkleTree}
use smt.Tree.Api.{delete, get, update}
use smt.Trie.{Trie, root_hash, find, WellFormed}
use smt.Trie.Walk.{HashKeyed}
use smt.Trie.Represents.{get-get_descend}
use smt.Trie.Descend.{Agrees}
use smt.Trie.Insert.{insert, find-insert, Full}
use smt.Trie.Insert.Shape.{WellFormed-insert, Full-insert}
use smt.Trie.Remove.{remove, find-remove}
use smt.Trie.Remove.Shape.{WellFormed-remove, Full-remove}
use smt.Trie.Remove.Represents.{delete-Represents}
use smt.Trie.Distinct.{Within}
use smt.Trie.Canonical.{find_determines, find_nonempty}
use smt.Trie.Update.Represents.{update-Represents}
use smt.Trie.Update.Reached.{Reached, Reached-Sound}

module _ ⦃h : Hasher⦄ where
  -- Removing a leaf that was put in where none was gives the trie back.
  remove-insert :
      (t : Trie) (key v : Bytes)
      → WellFormed 0 t
      → Full t
      → v ≢ []
      → find t (path key) 0 ≡ none
      → remove (insert t (path key) v 0) (path key) 0 ≡ t
  remove-insert t key v wf full ne nowhere =
      let p = path key in
      let len = h.length-digest key in
      let bytes = h.digest-IsByte key in
      let top : Agrees p 0 t = λ j lt. absurd (omega arith) in
      let u = insert t p v 0 in
      let wu = WellFormed-insert t p v 0 (omega arith) len bytes ne wf in
      let fu = Full-insert p v len bytes t 0 (omega arith) top wf full in
      find_determines (remove u p 0) t 0 (WellFormed-remove u p 0 wu) wf (Full-remove u p 0 fu) full
        λ q e.
          find-remove u p q 0 wu
          ∙ ap (λ o. if bytes_equal p q then none else o)
              (find-insert t p v q 0 len bytes (omega arith) top wf)
          ∙ elim (Bool-cases (bytes_equal p q)) [
            | inl at ↦ rw at (sym nowhere ∙ ap (λ x. find t x 0) (bytes_equal→eq p q at))
            | inr off ↦ rw off refl
          ]

module _ ⦃h : Hasher⦄ {N V : Type 0} ⦃ns : MapStore N⦄ ⦃vs : MapStore V⦄ (nodes : HashKeyed ns)
    (values : HashKeyed vs) (Seen : Bytes → Type 0) (free : CollisionFree Seen)
    (s : SparseMerkleTree N V) (t : Trie) where
  value_of :
      (r r' : Bytes) → ◌≡◌ {A = Res Bytes × SparseMerkleTree N V} (ok r, s) (ok r', s) → r ≡ r'
  value_of r r' e =
      let q : ◌≡◌ {A = Res Bytes} (ok r) (ok r') =
        ap (λ (x : Res Bytes × SparseMerkleTree N V). x.0) e in
      cc

  -- On a state that updates and deletions reach, where what the tries hash is among data without
  -- collisions and `get` reads the default value for a key, `update` of that key with another
  -- value and then `delete` of it succeed: the root is what it was, and `get` reads for every key
  -- what it read before.
  pub update-delete :
      (key v : Bytes)
      → Reached nodes values Seen free s t
      → get key s ≡ (ok [], s)
      → v ≢ []
      → Within Seen (insert t (path key) v 0)
      → (s1 : SparseMerkleTree N V) × (s2 : SparseMerkleTree N V) × (root : Bytes) × (update key v s
          ≡ (ok root, s1))
        × (delete key s1 ≡ (ok s.root, s2))
        × (s2.root ≡ s.root)
        × ((k : Bytes) → get k s2 ≡ ((get k s).0, s2))
  update-delete key v before reads ne within =
      let i = Reached-Sound nodes values Seen free before in
      let p = path key in
      let nowhere : find t p 0 ≡ none = elim (Option-cases (find t p 0)) [
        | inl e ↦ e
        | inr (w, e) ↦
            let same =
              value_of _ _ (sym (get-get_descend nodes values s t i.represents key).0 ∙ reads) in
            absurd (find_nonempty t p w 0 i.represents.well_formed e (rw e at same))
      ] in
      let u = insert t p v 0 in
      let (s1, run, rep, full) =
        update-Represents nodes values Seen free s t i.represents i.full i.within key v ne within in
      let back = remove-insert t key v i.represents.well_formed i.full ne nowhere in
      let (s2, runs, rep2, full2) =
        delete-Represents nodes values Seen free s1 u rep full within key
          (subst (Within Seen) (sym back) i.within) in
      let root = ap root_hash back ∙ sym i.represents.top in
      (
        s1,
        s2,
        root_hash u,
        run,
        runs ∙ ap (λ (r : Bytes). let x : Res Bytes × SparseMerkleTree N V = (ok r, s2) in x) root,
        rep2.top ∙ root,
        λ k.
            (get-get_descend nodes values s2 (remove u p 0) rep2 k).0
            ∙ ap
                (λ (x : Trie).
                  let y : Res Bytes × SparseMerkleTree N V =
                    (ok (get_or (find x (path k) 0) []), s2) in
                  y)
                back
            ∙ ap
                (λ (x : Res Bytes × SparseMerkleTree N V).
                  let y : Res Bytes × SparseMerkleTree N V = (x.0, s2) in y)
                (sym (get-get_descend nodes values s t i.represents k).0),
      )
