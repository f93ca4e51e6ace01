-- ===== src/Trie/Update/Rest.antt =====
-- The end of updateWithSideNodes in smt.go: the nodes on the old path are deleted, the new ones are set
-- and the value is stored.
use smt.Prelude.{
  ℕ, zero, suc, ◌-◌, ◌≤◌, ◌<◌, ◌≡◌, refl, sym, ap, ◌∙◌, none, some, List, [], ◌∷◌, length, take,
  map, if◌then◌else◌, arith,
}
use mathlib.Core.Path.{subst}
use smt.Res.{ok}
use smt.Bytes.{Bytes, bytes_equal}
use smt.TreeHasher.{Hasher, digest, path_size}
use smt.TreeHasher.Collisions.{CollisionFree, Listed}
use smt.MapStore.{MapStore}
use smt.Proofs.Climb.{fold_down, SeenDown}
use smt.Tree.{SparseMerkleTree}
use smt.Tree.Run.{values_set, values_delete}
use smt.Tree.Walk.{depth}
use smt.Tree.Write.{side_at, update_loop, update_rest}
use smt.Trie.Walk.{HashKeyed}
use smt.Trie.Distinct.Along.{Distinct}
use smt.Trie.Effects.{Held, Keeps, delete_nodes_lem}
use smt.Trie.Update.Loop.{nth, update_loop-fold_down}

take_all : (n : ℕ) (xs : List Bytes) → length xs ≤ n → take n xs ≡ xs
take_all zero [] le = refl
take_all zero (x ∷ xs) le = absurd (omega arith)
take_all (suc n) [] le = refl
take_all (suc n) (x ∷ xs) le = ap (◌∷◌ x) (take_all n xs (omega arith))

module _ ⦃h : Hasher⦄ {N V : Type 0} ⦃ns : MapStore N⦄ ⦃vs : MapStore V⦄ (nodes : HashKeyed ns)
    (values : HashKeyed vs) (Seen : Bytes → Type 0) (free : CollisionFree Seen) (p v : Bytes)
    (len : length p ≡ path_size) where
  -- The value is stored, and nothing else changes.
  pub values_set_lem :
      (s : SparseMerkleTree N V)
      → (s' : SparseMerkleTree N V) × (values_set p v s ≡ (ok tt, s'))
        × (s'.nodes ≡ s.nodes)
        × (s'.root ≡ s.root)
        × ((q : Bytes)
            → length q ≡ path_size
            → values.lookup s'.values q
              ≡ (if bytes_equal p q then some v else values.lookup s.values q))
  values_set_lem s =
      let (n, run, now) = values.is_map.set_lem s.values p v (values.fits p len) in
      (record s { values = n }, rw run, refl, refl, λ q e. now q (values.fits q e))

  -- A value that is there is deleted, and nothing else changes.
  pub values_delete_lem :
      (s : SparseMerkleTree N V) (w : Bytes)
      → values.lookup s.values p ≡ some w
      → (s' : SparseMerkleTree N V) × (values_delete p s ≡ (ok tt, s'))
        × (s'.nodes ≡ s.nodes)
        × (s'.root ≡ s.root)
        × ((q : Bytes)
            → length q ≡ path_size
            → values.lookup s'.values q
              ≡ (if bytes_equal p q then none else values.lookup s.values q))
  values_delete_lem s w there =
      let (n, run, now) = values.is_map.delete_lem s.values p w (values.fits p len) there in
      (record s { values = n }, rw run, refl, refl, λ q e. now q (values.fits q e))

  -- The whole climb over the side nodes `front`.
  whole_climb :
      (s : SparseMerkleTree N V) (sides front : List Bytes) (common : ℕ) (current : Bytes)
      → ((m : ℕ) → m < depth → side_at sides common (depth - suc m) m ≡ ok (nth front m))
      → length front ≤ depth
      → SeenDown Seen p 0 front current
      → (s' : SparseMerkleTree N V) × (update_loop depth p sides common current s
          ≡ (ok (fold_down p 0 front current), s'))
        × SeenDown (Held nodes s'.nodes) p 0 front current
        × Keeps nodes Seen s s'
  whole_climb s sides front common current at le seen =
      let all = take_all depth front le in
      subst
        (λ (l : List Bytes).
          (s' : SparseMerkleTree N V) × (update_loop depth p sides common current s
            ≡ (ok (fold_down p 0 l current), s'))
          × SeenDown (Held nodes s'.nodes) p 0 l current
          × Keeps nodes Seen s s')
        all
        (update_loop-fold_down nodes Seen free p len s depth sides front common current at
          (omega arith) (subst (λ (l : List Bytes). SeenDown Seen p 0 l current) (sym all) seen))

  -- What the end of an update does: the root of the climb, its nodes stored, and of the rest nothing
  -- lost but the data `gone`.
  pub record Rewritten (gone : List Bytes) (front : List Bytes) (current : Bytes)
      (s s' : SparseMerkleTree N V) : Type 0 where
    pub path : SeenDown (Held nodes s'.nodes) p 0 front current
    pub kept :
        (d : Bytes) → Seen d → (Listed gone d → ⊥) → Held nodes s.nodes d → Held nodes s'.nodes d
    pub root : s'.root ≡ s.root
    pub value :
        (q : Bytes)
        → length q ≡ path_size
        → values.lookup s'.values q ≡ (if bytes_equal p q then some v else values.lookup s.values q)

  pub update_rest-Rewritten :
      (s : SparseMerkleTree N V) (gone sides front : List Bytes) (common : ℕ) (current : Bytes)
      → Distinct gone
      → ((d : Bytes) → Listed gone d → Seen d × Held nodes s.nodes d)
      → ((m : ℕ) → m < depth → side_at sides common (depth - suc m) m ≡ ok (nth front m))
      → length front ≤ depth
      → SeenDown Seen p 0 front current
      → (s' : SparseMerkleTree N V) × (update_rest p v sides (map digest gone) common current s
          ≡ (ok (fold_down p 0 front current), s'))
        × Rewritten gone front current s s'
  unfolding update_rest
  update_rest-Rewritten s gone sides front common current dist there at le seen =
      let (s1, deletes, k1) = delete_nodes_lem nodes Seen free s gone dist there in
      let (s2, climbs, path, k2) = whole_climb s1 sides front common current at le seen in
      let (s3, stores, same, root, value) = values_set_lem s2 in
      (
        s3,
        rw (deletes, climbs, stores) refl,
        record {
          path = rw same path;
          kept = λ d a n e. rw same (k2.held d a (k1.held d (a, n) e));
          root = root ∙ k2.root ∙ k1.root;
          value = λ q e. value q e ∙ rw (k2.values, k1.values) refl;
        },
      )
