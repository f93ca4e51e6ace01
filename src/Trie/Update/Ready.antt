-- ===== src/Trie/Update/Ready.antt =====
-- A state of smt.go in which an update has stored its leaf, and what the rest of the update makes of it.
use smt.Prelude.{
  ◌≡◌, ◌≢◌, refl, sym, ap, ◌∙◌, inl, inr, Option, some, List, [], length, if◌then◌else◌, arith, All,
}
use mathlib.Core.Path.{subst}
use smt.Bytes.{Bytes, IsByte, bytes_equal}
use smt.TreeHasher.{Hasher, digest, path_size, leaf_value}
use smt.TreeHasher.Layout.{leaf_value-ne-node_value}
use smt.TreeHasher.Collisions.{CollisionFree, Listed}
use smt.MapStore.{MapStore}
use smt.Proofs.Climb.{SeenDown}
use smt.Tree.{SparseMerkleTree}
use smt.Trie.{Trie, leaf, root_hash, find, spine, bottom}
use smt.Trie.Walk.{HashKeyed}
use smt.Trie.Represents.{Represents}
use smt.Trie.Insert.{insert, find-insert}
use smt.Trie.Insert.Shape.{WellFormed-insert, Full-insert}
use smt.Trie.Distinct.{Holds, Within, IsSound, Holds-Seen}
use smt.Trie.Distinct.Along.{
  node_data, Beside, node_data-Holds, Beside-Holds, bottom-Holds, node_data-node_value,
  Beside-apart,
}
use smt.Trie.Effects.{Held, Keeps}
use smt.Trie.Update.Path.{Moved, Beside-insert, bottom-insert}
use smt.Trie.Update.Stores.{Stored-of_path}
use smt.Trie.Update.Rest.{Rewritten}

module _ ⦃h : Hasher⦄ {N V : Type 0} ⦃ns : MapStore N⦄ ⦃vs : MapStore V⦄ (nodes : HashKeyed ns)
    (values : HashKeyed vs) (Seen : Bytes → Type 0) (free : CollisionFree Seen) (t : Trie)
    (p v : Bytes) where
  -- The old path is held, with all beside it, the leaf in the way and the new leaf; but for the path's,
  -- the values are the trie's.
  pub record Ready (s : SparseMerkleTree N V) : Type 0 where
    pub on_path : (d : Bytes) → Listed (node_data t p 0) d → Held nodes s.nodes d
    pub beside : (d : Bytes) → Beside d t p 0 → Held nodes s.nodes d
    pub moved : (d : Bytes) → Moved d p (bottom t p 0) → Held nodes s.nodes d
    pub own : Held nodes s.nodes (leaf_value p (digest v))
    pub value :
        (q : Bytes)
        → length q ≡ path_size
        → ◌≡◌ {A = Option Bytes}
            (if bytes_equal p q then some v else values.lookup s.values q)
            (if bytes_equal p q then some v else find t q 0)

  pub Moved-Holds : (d : Bytes) → Moved d p (bottom t p 0) → Holds d t
  Moved-Holds d (q, w, at, other, e) = bottom-Holds t p 0 d (subst (Holds d) (sym at) e)

  -- Where no seen data is lost, all is as before.
  pub Ready-Keeps :
      (s s' : SparseMerkleTree N V)
      → Within Seen t
      → Seen (leaf_value p (digest v))
      → Keeps nodes Seen s s'
      → Ready s
      → Ready s'
  Ready-Keeps s s' w seen k r =
      let here = λ (d : Bytes) (a : Holds d t). Holds-Seen Seen t d w a in
      record {
        on_path = λ d m. k.held d (here d (node_data-Holds t p 0 d m)) (r.on_path d m);
        beside = λ d m. k.held d (here d (Beside-Holds t p 0 d m)) (r.beside d m);
        moved = λ d m. k.held d (here d (Moved-Holds d m)) (r.moved d m);
        own = k.held _ seen r.own;
        value = λ q e.
            ap (λ n. if bytes_equal p q then some v else values.lookup n q) k.values ∙ r.value q e;
      }

  -- A leaf's data is not deleted with the nodes of the path.
  pub leaf_stays : (q d : Bytes) → Listed (node_data t p 0) (leaf_value q d) → ⊥
  leaf_stays q d m =
      let (l, r, e) = node_data-node_value t p 0 (leaf_value q d) m in
      leaf_value-ne-node_value q d l r e

  module _ (len : length p ≡ path_size) (bytes : All IsByte p) (ne : v ≢ [])
      (sound : IsSound Seen 0 t) (within : Within Seen (insert t p v 0)) where
    -- The new trie is sound too.
    pub new_sound : IsSound Seen 0 (insert t p v 0)
    new_sound = record {
      within = within;
      well_formed = WellFormed-insert t p v 0 (omega arith) len bytes ne sound.well_formed;
      full =
          Full-insert p v len bytes t 0 (omega arith) (λ j lt. absurd (omega arith))
            sound.well_formed sound.full;
    }

    module _ (s s' : SparseMerkleTree N V) (front : List Bytes) (current : Bytes) (ready : Ready s)
        (done : Rewritten nodes values Seen free p v len (node_data t p 0) front current s s') where
      leaf_kept :
          (q w : Bytes)
          → Seen (leaf_value q (digest w))
          → Held nodes s.nodes (leaf_value q (digest w))
          → Held nodes s'.nodes (leaf_value q (digest w))
      leaf_kept q w seen was = done.kept _ seen (leaf_stays q (digest w)) was

      old_kept : (d : Bytes) → Beside d t p 0 → Held nodes s'.nodes d
      old_kept d m =
          done.kept d (Holds-Seen Seen t d sound.within (Beside-Holds t p 0 d m))
            (λ on. Beside-apart Seen free t p 0 d sound m (inl on)) (ready.beside d m)

      moved_kept : (d : Bytes) → Moved d p (bottom t p 0) → Held nodes s'.nodes d
      moved_kept d (q, w, at, other, e) =
          let m : Moved d p (bottom t p 0) = (q, w, at, other, e) in
          let seen = Holds-Seen Seen t d sound.within (Moved-Holds d m) in
          subst (Held nodes s'.nodes) (sym e)
            (leaf_kept q w (subst Seen e seen) (subst (Held nodes s.nodes) e (ready.moved d m)))

      new_beside : (d : Bytes) → Beside d (insert t p v 0) p 0 → Held nodes s'.nodes d
      new_beside d m = elim (Beside-insert t p v 0 d m) [
        | inl old ↦ old_kept d old
        | inr moved ↦ moved_kept d moved
      ]

      new_exact :
          (q : Bytes) → length q ≡ path_size → values.lookup s'.values q ≡ find (insert t p v 0) q 0
      new_exact q e =
          done.value q e
          ∙ ready.value q e
          ∙ sym (
              find-insert t p v q 0 len bytes (omega arith) (λ j lt. absurd (omega arith))
                sound.well_formed)

      -- With the new path stored, the state stands for the trie with the new leaf.
      pub Ready-Represents :
          Seen (leaf_value p (digest v))
          → SeenDown (Held nodes s'.nodes) p 0 (spine (insert t p v 0) p 0) (root_hash (leaf p v))
          → Represents nodes values
              (record s' { root = root_hash (insert t p v 0) })
              (insert t p v 0)
      Ready-Represents seen path =
          let own = leaf_kept p v seen ready.own in
          let end : (d : Bytes) → Holds d (leaf p v) → Held nodes s'.nodes d =
            λ d e. subst (Held nodes s'.nodes) (sym e) own in
          let at = sym (bottom-insert t p v 0) in
          record {
            top = refl;
            held =
                Stored-of_path (nodes.lookup s'.nodes) Seen free (insert t p v 0) p 0 within
                  (subst
                    (λ (x : Trie).
                      SeenDown (Held nodes s'.nodes) p 0 (spine (insert t p v 0) p 0) (root_hash x))
                    at path)
                  (subst (λ (x : Trie). (d : Bytes) → Holds d x → Held nodes s'.nodes d) at end)
                  new_beside;
            well_formed = new_sound.well_formed;
            exact = new_exact;
          }
