-- ===== src/Trie/Update/Apply.antt =====
-- Update of smt.go on a state that stands for a trie.
use smt.Prelude.{
  ℕ, suc, ◌≡◌, ◌≢◌, refl, sym, ap, ◌∙◌, Bool-cases, inl, inr, some, [], length, ◌==◌, if◌then◌else◌,
  arith, All,
}
use mathlib.Core.Path.{subst}
use smt.Res.{Res, ok}
use smt.Bytes.{Bytes, IsByte, bytes_equal, eq→bytes_equal, bytes_equal_iff}
use smt.Utils.Bits.{bit}
use smt.TreeHasher.{Hasher, digest, path_size, leaf_value}
use smt.TreeHasher.Layout.{leaf_value-data}
use smt.TreeHasher.Collisions.{CollisionFree, Listed}
use smt.MapStore.{MapStore}
use smt.Tree.{SparseMerkleTree}
use smt.Tree.Run.{Run, ◌>>◌, and_then, nodes_delete, values_delete}
use smt.Trie.{Trie, empty, leaf, node, root_hash, bottom, find}
use smt.Trie.Walk.{HashKeyed}
use smt.Trie.Represents.{Represents}
use smt.Trie.Insert.{insert}
use smt.Trie.Distinct.{Holds, Within, IsSound, Holds-Seen}
use smt.Trie.Distinct.Along.{node_data, node_data-Holds, Beside-Holds, bottom-Holds, Beside-apart}
use smt.Trie.Effects.{Held, Keeps, nodes_delete_lem}
use smt.Trie.Update.Stores.{Stored-Holds, Holds-Stored}
use smt.Trie.Update.Rest.{values_delete_lem}
use smt.Trie.Update.Ready.{Ready, Moved-Holds, leaf_stays}
use smt.Trie.Update.Tail.{leaf_path, Inserts}

deleted :
    {S : Type 0} {m : Res (Unit {0}) × S} {s1 s2 : S} (n : Run S (Unit {0})) (rest : Run S Bytes)
    → m ≡ (ok tt, s1)
    → n s1 ≡ (ok tt, s2)
    → and_then (λ _. n >> rest) m ≡ rest s2
deleted n rest a b = rw (a, b) refl

module _ ⦃h : Hasher⦄ where
  -- To insert what is there changes nothing.
  insert-same : (t : Trie) (p v : Bytes) (i : ℕ) → bottom t p i ≡ leaf p v → insert t p v i ≡ t
  unfolding insert bottom
  insert-same empty p v i e = sym e
  insert-same (leaf q w) p v i e =
      let same = eq→bytes_equal q p (leaf_path q w e) in rw same (sym e)
  insert-same (node l r) p v i e = elim (Bool-cases (bit p i == 1)) [
    | inl o ↦ rw o (ap (λ x. node l x) (insert-same r p v (suc i) (rw o at e)))
    | inr o ↦ rw o (ap (λ x. node x r) (insert-same l p v (suc i) (rw o at e)))
  ]

module _ ⦃h : Hasher⦄ {N V : Type 0} ⦃ns : MapStore N⦄ ⦃vs : MapStore V⦄ (nodes : HashKeyed ns)
    (values : HashKeyed vs) (Seen : Bytes → Type 0) (free : CollisionFree Seen) (t : Trie)
    (p v : Bytes) (len : length p ≡ path_size) (bytes : All IsByte p) (ne : v ≢ [])
    (sound : IsSound Seen 0 t) (within : Within Seen (insert t p v 0))
    (own_seen : Within Seen (leaf p v)) (s : SparseMerkleTree N V)
    (rep : Represents nodes values s t) where
  seen_in : (d : Bytes) → Holds d t → Seen d
  seen_in d a = Holds-Seen Seen t d sound.within a

  held_in : (d : Bytes) → Holds d t → Held nodes s.nodes d
  held_in d a = Stored-Holds (nodes.lookup s.nodes) t d rep.held a

  -- The leaf is stored, and nothing is lost.
  pub stored_leaf :
      (s1 : SparseMerkleTree N V)
      → Held nodes s1.nodes (leaf_value p (digest v))
      → Keeps nodes Seen s s1
      → Ready nodes values Seen free t p v s1
  stored_leaf s1 own k =
      let kept = λ (d : Bytes) (a : Holds d t). k.held d (seen_in d a) (held_in d a) in
      record {
        on_path = λ d m. kept d (node_data-Holds t p 0 d m);
        beside = λ d m. kept d (Beside-Holds t p 0 d m);
        moved = λ d m. kept d (Moved-Holds nodes values Seen free t p v d m);
        own = own;
        value = λ q e.
            ap (λ n. if bytes_equal p q then some v else values.lookup n q) k.values
            ∙ ap (λ o. if bytes_equal p q then some v else o) (rep.exact q e);
      }

  -- The path's own leaf with another value is deleted, and its value too.
  pub replaced_leaf :
      (s1 : SparseMerkleTree N V) (w : Bytes)
      → bottom t p 0 ≡ leaf p w
      → find t p 0 ≡ some w
      → (digest w ≢ digest v)
      → Held nodes s1.nodes (leaf_value p (digest v))
      → Keeps nodes Seen s s1
      → (s2 : SparseMerkleTree N V) × ((rest : Run (SparseMerkleTree N V) Bytes)
          → (nodes_delete (digest (leaf_value p (digest w))) >> (values_delete p >> rest)) s1
            ≡ rest s2)
        × Ready nodes values Seen free t p v s2
  replaced_leaf s1 w at there other own k =
      let ready = stored_leaf s1 own k in
      let old = leaf_value p (digest w) in
      let end : Holds old (bottom t p 0) = subst (Holds old) (sym at) refl in
      let inside = bottom-Holds t p 0 old end in
      let here = seen_in old inside in
      let (s2, run, k2) =
        nodes_delete_lem nodes Seen free s1 old here (k.held old here (held_in old inside)) in
      let value = ap (λ n. values.lookup n p) (k2.values ∙ k.values) ∙ rep.exact p len ∙ there in
      let (s3, runs, same, root, left) =
        values_delete_lem nodes values Seen free p v len s2 w value in
      let kept = λ (d : Bytes) (seen : Seen d) (n : d ≢ old) (was : Held nodes s1.nodes d).
        subst (λ n. Held nodes n d) (sym same) (k2.held d (seen, n) was) in
      (
        s3,
        λ rest. deleted (values_delete p) rest run runs,
        record {
          on_path = λ d m.
              kept d (seen_in d (node_data-Holds t p 0 d m))
                (λ e.
                  leaf_stays nodes values Seen free t p v p (digest w)
                    (subst (Listed (node_data t p 0)) e m))
                (ready.on_path d m);
          beside = λ d m.
              kept d (seen_in d (Beside-Holds t p 0 d m))
                (λ e.
                  Beside-apart Seen free t p 0 d sound m
                    (inr (subst (λ x. Holds x (bottom t p 0)) (sym e) end)))
                (ready.beside d m);
          moved = λ d (q, u, e, apart, x).
              absurd (ground (arith, apart, bytes_equal_iff q p, leaf_path q u (sym e ∙ at)));
          own =
              kept _ own_seen.0
                (λ e. other (sym (leaf_value-data p (digest v) p (digest w) refl e))) own;
          value = λ q e. elim (Bool-cases (bytes_equal p q)) [
            | inl yes_it ↦ rw yes_it refl
            | inr not_it ↦ rw not_it (
                left q e
                ∙ rw not_it (ap (λ n. values.lookup n q) (k2.values ∙ k.values) ∙ rep.exact q e))
          ];
        },
      )

  -- The path's own leaf with the same value leaves the trie as it is.
  pub same_leaf :
      (s1 : SparseMerkleTree N V)
      → bottom t p 0 ≡ leaf p v
      → Keeps nodes Seen s s1
      → Inserts nodes values Seen free t p v len bytes ne sound within own_seen (ok s1.root, s1)
  same_leaf s1 at k =
      subst
        (λ (u : Trie).
          (s' : SparseMerkleTree N V) × (◌≡◌ {A = Res Bytes × SparseMerkleTree N V} (ok s1.root, s1)
            (ok (root_hash u), s'))
          × Represents nodes values (record s' { root = root_hash u }) u)
        (sym (insert-same t p v 0 at))
        (
          s1,
          ap (λ r. (ok r, s1)) (k.root ∙ rep.top),
          record {
            top = refl;
            held =
                Holds-Stored (nodes.lookup s1.nodes) Seen free t sound.within
                  (λ d a. k.held d (seen_in d a) (held_in d a));
            well_formed = rep.well_formed;
            exact = λ q e. ap (λ n. values.lookup n q) k.values ∙ rep.exact q e;
          },
        )
