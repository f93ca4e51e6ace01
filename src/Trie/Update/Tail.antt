-- ===== src/Trie/Update/Tail.antt =====
-- The end of an update of smt.go where the walk ended at nothing, at the path's own leaf or at another.
use smt.Prelude.{
  ℕ, ◌+◌, ◌≤◌, ◌<◌, ◌≡◌, ◌≢◌, refl, sym, ap, ◌∙◌, false, not, ◌&&◌, inl, inr, Bool-cases, List, [],
  ◌++◌, length, replicate, reverse, map, ltb, ◌==◌, arith, All,
}
use mathlib.Core.List.{append-nil}
use mathlib.Core.Path.{subst}
use smt.Res.{Res, ok}
use smt.Bytes.{Bytes, IsByte, bytes_equal, bytes_equal_iff}
use smt.TreeHasher.{Hasher, digest, path_size, placeholder}
use smt.TreeHasher.Collisions.{CollisionFree, Listed}
use smt.MapStore.{MapStore}
use smt.Proofs.{join}
use smt.Proofs.Climb.{fold_down, SeenDown}
use smt.Tree.{SparseMerkleTree}
use smt.Tree.Walk.{depth}
use smt.Tree.Write.{update_rest}
use smt.Trie.{Trie, leaf, root_hash, spine, bottom}
use smt.Trie.Walk.{HashKeyed}
use smt.Trie.Represents.{Represents}
use smt.Trie.Spine.{fold_down-spine, length-spine}
use smt.Trie.Child.{length-root_hash}
use smt.Trie.Insert.{insert}
use smt.Trie.Distinct.{Within, IsSound, Holds-Seen}
use smt.Trie.Distinct.Along.{node_data, node_data-Holds, node_data-Distinct}
use smt.Trie.Update.Loop.{nth}
use smt.Trie.Update.Path.{bottom-insert}
use smt.Trie.Update.Sides.{side_at-nth}
use smt.Trie.Update.Stores.{Within-SeenDown}
use smt.Trie.Update.Rest.{Rewritten, update_rest-Rewritten}
use smt.Trie.Update.Ready.{Ready, new_sound, Ready-Represents}
use smt.Trie.Update.Nodes.{node_data-Joins}

path_in : Trie → Bytes
path_in (leaf q w) = q
path_in t = []

pub leaf_path : (q w : Bytes) {p v : Bytes} → leaf q w ≡ leaf p v → q ≡ p
unfolding path_in
leaf_path q w e = ap path_in e

module _ ⦃h : Hasher⦄ {N V : Type 0} ⦃ns : MapStore N⦄ ⦃vs : MapStore V⦄ (nodes : HashKeyed ns)
    (values : HashKeyed vs) (Seen : Bytes → Type 0) (free : CollisionFree Seen) (t : Trie)
    (p v : Bytes) (len : length p ≡ path_size) (bytes : All IsByte p) (ne : v ≢ [])
    (sound : IsSound Seen 0 t) (within : Within Seen (insert t p v 0))
    (own_seen : Within Seen (leaf p v)) where
  -- A run that ends with the new trie's hash, in a state that then stands for the new trie.
  abbrev pub Inserts : Res Bytes × SparseMerkleTree N V → Type 0
  Inserts run =
      (s' : SparseMerkleTree N V) × (run ≡ (ok (root_hash (insert t p v 0)), s'))
      × Represents nodes values (record s' { root = root_hash (insert t p v 0) }) (insert t p v 0)

  -- The new path is seen, and folds to the new hash.
  pub new_path :
      SeenDown Seen p 0 (spine (insert t p v 0) p 0) (root_hash (leaf p v))
      × (fold_down p 0 (spine (insert t p v 0) p 0) (root_hash (leaf p v))
          ≡ root_hash (insert t p v 0))
  new_path =
      let U = insert t p v 0 in
      subst
        (λ (x : Trie).
          SeenDown Seen p 0 (spine U p 0) (root_hash x)
          × (fold_down p 0 (spine U p 0) (root_hash x) ≡ root_hash U))
        (bottom-insert t p v 0) (Within-SeenDown Seen U p 0 within, fold_down-spine U p 0)

  new_size : length (spine (insert t p v 0) p 0) ≤ depth
  new_size = omega (
    arith,
    length-spine (insert t p v 0) p 0 (omega arith)
        (new_sound nodes values Seen free t p v len bytes ne sound within).well_formed,
  )

  pub old_size : length (spine t p 0) ≤ depth
  old_size = omega (arith, length-spine t p 0 (omega arith) sound.well_formed)

  -- The rest of the update with `k` placeholders below the side nodes of the walk.
  pub rest_run :
      (s : SparseMerkleTree N V) (k common : ℕ) (current : Bytes)
      → ((n : ℕ)
          → n < depth
          → length (spine t p 0) ≤ n
          → (not (common == depth) && ltb n common) ≡ ltb n (length (spine t p 0) + k))
      → (front : List Bytes) → spine t p 0 ++ replicate k placeholder ≡ front
      → length front ≤ depth
      → Ready nodes values Seen free t p v s
      → SeenDown Seen p 0 front current
      → (s' : SparseMerkleTree N V) × (update_rest p v
            (reverse (spine t p 0))
            (map digest (node_data t p 0))
            common
            current
            s
          ≡ (ok (fold_down p 0 front current), s'))
        × Rewritten nodes values Seen free p v len (node_data t p 0) front current s s'
  rest_run s k common current pads front e size ready seen =
      update_rest-Rewritten nodes values Seen free p v len s (node_data t p 0)
        (reverse (spine t p 0)) front common current (node_data-Distinct Seen free t p 0 sound)
        (λ d m. (Holds-Seen Seen t d sound.within (node_data-Holds t p 0 d m), ready.on_path d m))
        (λ n lt.
          side_at-nth (spine t p 0) k common n old_size lt (pads n lt) ∙ ap (λ l. ok (nth l n)) e)
        size seen

  -- Where no other leaf is in the way, the new leaf's hash is folded up.
  pub update_rest-Inserts :
      (s : SparseMerkleTree N V)
      → spine (insert t p v 0) p 0 ≡ spine t p 0
      → Ready nodes values Seen free t p v s
      → Inserts (
          update_rest p v
            (reverse (spine t p 0))
            (map digest (node_data t p 0))
            depth
            (root_hash (leaf p v))
            s)
  update_rest-Inserts s e ready =
      let front = spine (insert t p v 0) p 0 in
      let (s', run, done) =
        rest_run s 0 depth (root_hash (leaf p v)) (λ n lt past. ground (arith, lt, past)) front
          (append-nil (spine t p 0) ∙ sym e) new_size ready new_path.0 in
      (
        s',
        run ∙ ap (λ x. (ok x, s')) new_path.1,
        Ready-Represents nodes values Seen free t p v len bytes ne sound within s s' front _ ready
            done own_seen.0 done.path,
      )

  -- The node over the two leaves is not on the old path.
  pub new_node :
      (q w : Bytes) (b : ℕ)
      → bottom t p 0 ≡ leaf q w
      → bytes_equal q p ≡ false
      → Listed (node_data t p 0) (join b (root_hash (leaf q w)) (root_hash (leaf p v))).1
      → ⊥
  unfolding join
  new_node q w b at other m =
      let sized = λ (c : Trie). length-root_hash c in
      let joins = node_data-Joins Seen free p v len (λ i. (len, bytes, ne)) own_seen t in
      let ends : bottom t p 0 ≡ leaf p v = elim (Bool-cases (b == 1)) [
        | inl one ↦
            joins (root_hash (leaf q w)) (root_hash (leaf p v)) 0 (sized (leaf q w)) sound.within
              sound.well_formed (inr refl) (rw one at m)
        | inr nil ↦
            joins (root_hash (leaf p v)) (root_hash (leaf q w)) 0 (sized (leaf p v)) sound.within
              sound.well_formed (inl refl) (rw nil at m)
      ] in
      absurd (ground (arith, other, bytes_equal_iff q p, leaf_path q w (sym at ∙ ends)))
