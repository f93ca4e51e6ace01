-- ===== src/Trie/Effects.antt =====
-- What the calls of the node store leave of the data that it held.
use smt.Prelude.{◌≡◌, ◌≢◌, refl, sym, ap, ◌∙◌, true, Bool-cases, inl, inr, some, List, [], ◌∷◌, map}
use smt.Res.{ok}
use smt.Bytes.{Bytes, bytes_equal, bytes_equal_iff, bytes_equal_refl}
use smt.TreeHasher.{Hasher, digest}
use smt.TreeHasher.Collisions.{CollisionFree, Listed}
use smt.MapStore.{MapStore}
use smt.Tree.{SparseMerkleTree}
use smt.Tree.Run.{nodes_set, nodes_delete}
use smt.Tree.Write.{delete_nodes}
use smt.Trie.Walk.{HashKeyed}
use smt.Trie.Distinct.Along.{Distinct}

module _ ⦃h : Hasher⦄ where
  same_digest :
      (Seen : Bytes → Type 0)
      → CollisionFree Seen
      → (d e : Bytes) → Seen d
      → Seen e
      → bytes_equal (digest d) (digest e) ≡ true
      → d ≡ e
  same_digest Seen free d e a b q =
      free.injective d e a b ((bytes_equal_iff (digest d) (digest e)).0 q)

module _ ⦃h : Hasher⦄ {N : Type 0} ⦃ns : MapStore N⦄ (nodes : HashKeyed ns) where
  -- The store has the data under its digest.
  abbrev pub Held : N → Bytes → Type 0
  Held n d = nodes.lookup n (digest d) ≡ some d

module _ ⦃h : Hasher⦄ {N V : Type 0} ⦃ns : MapStore N⦄ (nodes : HashKeyed ns) where
  -- Of the data that `P` tells, all that was held is still held, and nothing else has changed.
  pub record Keeps (P : Bytes → Type 0) (s s' : SparseMerkleTree N V) : Type 0 where
    pub held : (d : Bytes) → P d → Held nodes s.nodes d → Held nodes s'.nodes d
    pub values : s'.values ≡ s.values
    pub root : s'.root ≡ s.root

  pub Keeps-refl : (P : Bytes → Type 0) (s : SparseMerkleTree N V) → Keeps P s s
  Keeps-refl P s = record { held = λ d p e. e; values = refl; root = refl }

  pub Keeps-trans :
      (P : Bytes → Type 0) (s t u : SparseMerkleTree N V) → Keeps P s t → Keeps P t u → Keeps P s u
  Keeps-trans P s t u a b = record {
    held = λ d p e. b.held d p (a.held d p e);
    values = b.values ∙ a.values;
    root = b.root ∙ a.root;
  }

  pub Keeps-weaker :
      (P Q : Bytes → Type 0) (s t : SparseMerkleTree N V)
      → ((d : Bytes) → Q d → P d)
      → Keeps P s t
      → Keeps Q s t
  Keeps-weaker P Q s t i a = record {
    held = λ d q e. a.held d (i d q) e;
    values = a.values;
    root = a.root;
  }

  module _ (Seen : Bytes → Type 0) (free : CollisionFree Seen) where
    -- Data that is set is held, and no other is lost.
    pub nodes_set_lem :
        (s : SparseMerkleTree N V) (d : Bytes)
        → Seen d
        → (s' : SparseMerkleTree N V) × (nodes_set (digest d) d s ≡ (ok tt, s'))
          × Held nodes s'.nodes d
          × Keeps Seen s s'
    nodes_set_lem s d seen =
        let fits = λ (e : Bytes). nodes.fits (digest e) (h.length-digest e) in
        let (n, run, now) = nodes.is_map.set_lem s.nodes (digest d) d (fits d) in
        (
          record s { nodes = n },
          rw run,
          now (digest d) (fits d) ∙ rw (bytes_equal_refl (digest d)),
          record {
            held = λ e p was.
                now (digest e) (fits e) ∙ elim (Bool-cases (bytes_equal (digest d) (digest e))) [
                  | inl q ↦ rw q (ap some (same_digest Seen free d e seen p q))
                  | inr q ↦ rw q was
                ];
            values = refl;
            root = refl;
          },
        )

    -- Of held data, deleting one piece loses that piece alone.
    pub nodes_delete_lem :
        (s : SparseMerkleTree N V) (d : Bytes)
        → Seen d
        → Held nodes s.nodes d
        → (s' : SparseMerkleTree N V) × (nodes_delete (digest d) s ≡ (ok tt, s'))
          × Keeps (λ e. Seen e × (e ≢ d)) s s'
    nodes_delete_lem s d seen there =
        let fits = λ (e : Bytes). nodes.fits (digest e) (h.length-digest e) in
        let (n, run, now) = nodes.is_map.delete_lem s.nodes (digest d) d (fits d) there in
        (
          record s { nodes = n },
          rw run,
          record {
            held = λ e p was.
                now (digest e) (fits e) ∙ elim (Bool-cases (bytes_equal (digest d) (digest e))) [
                  | inl q ↦ absurd (p.1 (sym (same_digest Seen free d e seen p.0 q)))
                  | inr q ↦ rw q was
                ];
            values = refl;
            root = refl;
          },
        )

    -- Different data that is held is deleted one piece after another.
    pub delete_nodes_lem :
        ⦃vs : MapStore V⦄
        → (s : SparseMerkleTree N V) (ds : List Bytes) → Distinct ds
        → ((d : Bytes) → Listed ds d → Seen d × Held nodes s.nodes d)
        → (s' : SparseMerkleTree N V) × (delete_nodes (map digest ds) s ≡ (ok tt, s'))
          × Keeps (λ e. Seen e × (Listed ds e → ⊥)) s s'
    unfolding delete_nodes
    delete_nodes_lem s [] dist all = (s, refl, Keeps-refl _ s)
    delete_nodes_lem s (d ∷ ds) dist all =
        let own = all d (inl refl) in
        let (s1, run, k) = nodes_delete_lem s d own.0 own.1 in
        let (s2, runs, ks) = delete_nodes_lem s1 ds dist.1 (λ e m.
          let was = all e (inr m) in (was.0, k.held e (was.0, λ q. dist.0 e m (sym q)) was.1)) in
        (
          s2,
          rw (run, runs),
          Keeps-trans _ s s1 s2 (Keeps-weaker _ _ s s1 (λ e p. (p.0, λ q. p.1 (inl q))) k)
              (Keeps-weaker _ _ s1 s2 (λ e p. (p.0, λ m. p.1 (inr m))) ks),
        )
