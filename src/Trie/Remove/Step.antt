-- ===== src/Trie/Remove/Step.antt =====
-- One round of deleteWithSideNodes' climb in smt.go, at a node whose child on the path has become `c` and
-- whose other child is `x`.
use smt.Prelude.{
  ℕ, ◌+◌, ◌≤◌, ◌<◌, ◌≡◌, refl, sym, ◌∙◌, Bool, true, false, Bool-cases, inl, inr, ◌⊎◌, Option, none,
  some, length, ◌==◌, arith,
}
use mathlib.Core.Path.{subst}
use smt.Res.{ok}
use smt.Bytes.{Bytes, bytes_equal_refl}
use smt.Utils.Bits.{bit}
use smt.TreeHasher.{Hasher, path_size, placeholder}
use smt.TreeHasher.Layout.{is_leaf-leaf_value, is_leaf-node_value}
use smt.TreeHasher.Collisions.{CollisionFree}
use smt.MapStore.{MapStore}
use smt.Proofs.{join}
use smt.Tree.{SparseMerkleTree}
use smt.Tree.Run.{Run, ◌>>=◌}
use smt.Tree.Walk.{depth}
use smt.Tree.Write.{join_and_set, delete_step}
use smt.Trie.{Trie, empty, leaf, node, root_hash, Stored}
use smt.Trie.Walk.{HashKeyed, not_placeholder, root_hash-empty, get_stored}
use smt.Trie.Insert.{fork, leaves}
use smt.Trie.Insert.Shape.{fork-of}
use smt.Trie.Remove.{collapse}
use smt.Trie.Distinct.{Holds, Within}
use smt.Trie.Effects.{Held, Keeps, Keeps-refl}
use smt.Trie.Update.Loop.{join_and_set_lem}

module _ ⦃h : Hasher⦄ where
  -- The climb's current hash and data for a trie: nil for the empty one.
  abbrev pub left_over : Trie → Option Bytes
  left_over empty = none
  left_over (leaf p v) = some (root_hash (leaf p v))
  left_over (node l r) = some (root_hash (node l r))

  -- Whether the climb has reached a sibling that stays: it stands at a node.
  abbrev pub reached : Trie → Bool
  reached empty = false
  reached (leaf p v) = false
  reached (node l r) = true

  module _ (b : ℕ) (c x : Trie) where
    abbrev own : Bytes
    own = (join b (root_hash x) (root_hash c)).1

    fork-join : (join b (root_hash x) (root_hash c)).0 ≡ root_hash (fork b c x)
    unfolding join fork root_hash
    fork-join = elim (Bool-cases (b == 1)) [ inl e ↦ rw e refl | inr e ↦ rw e refl ]

    fork-left_over : left_over (fork b c x) ≡ some (root_hash (fork b c x))
    fork-left_over = fork-of (λ u. left_over u ≡ some (root_hash u)) b c x (λ o. refl) (λ o. refl)

    fork-reached : reached (fork b c x) ≡ true
    fork-reached = fork-of (λ u. reached u ≡ true) b c x (λ o. refl) (λ o. refl)

    pub Within-fork :
        (Seen : Bytes → Type 0)
        → Within Seen (fork b c x)
        → Seen own × Within Seen c × Within Seen x
    unfolding join fork
    Within-fork Seen w = elim (Bool-cases (b == 1)) [
      | inl e ↦ let w' = rw e at w in rw (own, e) (w'.0, w'.2, w'.1)
      | inr e ↦ let w' = rw e at w in rw (own, e) (w'.0, w'.1, w'.2)
    ]

    Holds-fork : (d : Bytes) → Holds d (fork b c x) → (d ≡ own) ⊎ (Holds d c ⊎ Holds d x)
    unfolding join fork
    Holds-fork d a = elim (Bool-cases (b == 1)) [
      | inl e ↦ elim (rw e at a) [
        | inl o ↦ rw (own, e) (inl o)
        | inr (inl k) ↦ inr (inr k)
        | inr (inr k) ↦ inr (inl k)
      ]
      | inr e ↦ elim (rw e at a) [ inl o ↦ rw (own, e) (inl o) | inr k ↦ inr k ]
    ]

module _ ⦃h : Hasher⦄ {N V : Type 0} ⦃ns : MapStore N⦄ ⦃vs : MapStore V⦄ (nodes : HashKeyed ns)
    (Seen : Bytes → Type 0) (free : CollisionFree Seen) (p : Bytes) (len : length p ≡ path_size)
    (i : ℕ) (lt : i < depth)
    (next : Option Bytes → Option Bytes → Bool → Run (SparseMerkleTree N V) (Option Bytes))
    (s : SparseMerkleTree N V) where
  -- From `s` the climb goes on with the trie `u`, after a round that may have stored new data.
  pub record GoesOn (run : Run (SparseMerkleTree N V) (Option Bytes)) (c x u : Trie) : Type 0 where
    pub after : SparseMerkleTree N V
    pub run_lem : run s ≡ next (left_over u) (left_over u) (reached u) after
    pub keeps : Keeps nodes Seen s after
    pub stored : (d : Bytes) → Holds d u → (Holds d c ⊎ Holds d x) ⊎ Held nodes after.nodes d

  joined_next :
      (side current top : Bytes) (s' : SparseMerkleTree N V)
      → join_and_set p i side current s ≡ (ok top, s')
      → (join_and_set p i side current >>= λ top. next (some top) (some top) true) s
        ≡ next (some top) (some top) true s'
  joined_next side current top s' e = rw e refl

  -- A round that stores the node over the two.
  joins :
      (c x : Trie)
      → Within Seen (fork (bit p i) c x)
      → GoesOn
          (join_and_set p i (root_hash x) (root_hash c) >>= λ top. next (some top) (some top) true)
          c
          x
          (fork (bit p i) c x)
  joins c x w =
      let b = bit p i in
      let (s', run, held, keeps) =
        join_and_set_lem nodes Seen free p len s i (root_hash x) (root_hash c) lt
          (Within-fork b c x Seen w).0 in
      record {
        after = s';
        run_lem =
            joined_next (root_hash x) (root_hash c) _ s' run
            ∙ rw (fork-join b c x, fork-left_over b c x, fork-reached b c x) refl;
        keeps = keeps;
        stored = λ d a. elim (Holds-fork b c x d a) [
          | inl e ↦ inr (subst (Held nodes s'.nodes) (sym e) held)
          | inr k ↦ inl k
        ];
      }

  -- A round that stores nothing.
  stays :
      (run : Run (SparseMerkleTree N V) (Option Bytes)) (c x u : Trie)
      → run s ≡ next (left_over u) (left_over u) (reached u) s
      → ((d : Bytes) → Holds d u → Holds d c ⊎ Holds d x)
      → GoesOn run c x u
  stays run c x u e k = record {
    after = s;
    run_lem = e;
    keeps = Keeps-refl nodes Seen s;
    stored = λ d a. inl (k d a);
  }

  abbrev Round : Trie → Trie → Type 0
  Round c x =
      GoesOn (delete_step p (root_hash x) i (left_over c) (left_over c) (reached c) next) c x
        (collapse (bit p i) c x)

  -- What runs as another round goes on as that one.
  GoesOn-run :
      (f g : Run (SparseMerkleTree N V) (Option Bytes)) (c x u : Trie)
      → f s ≡ g s
      → GoesOn g c x u
      → GoesOn f c x u
  GoesOn-run f g c x u e o = record {
    after = o.after;
    run_lem = e ∙ o.run_lem;
    keeps = o.keeps;
    stored = o.stored;
  }

  -- A round goes on with the collapsed node.
  pub delete_step-collapse :
      (c x : Trie)
      → 1 ≤ leaves c + leaves x
      → Within Seen (collapse (bit p i) c x)
      → Stored (nodes.lookup s.nodes) x
      → Round c x
  unfolding collapse delete_step
  delete_step-collapse empty empty one w st = absurd (omega arith)
  delete_step-collapse empty (leaf q v) one w st =
      stays _ empty (leaf q v) (leaf q v)
        (rw (get_stored nodes s.nodes (leaf q v) _ st.0, is_leaf-leaf_value) refl) (λ d a. inr a)
  delete_step-collapse empty (node l r) one w st =
      GoesOn-run _ _ empty (node l r) (fork (bit p i) empty (node l r))
        (rw (get_stored nodes s.nodes (node l r) _ st.0, is_leaf-node_value, root_hash-empty) refl)
        (joins empty (node l r) w)
  delete_step-collapse (leaf q v) empty one w st =
      stays _ (leaf q v) empty (leaf q v) (rw (root_hash-empty, bytes_equal_refl placeholder) refl)
        (λ d a. inl a)
  delete_step-collapse (leaf q v) (leaf q' v') one w st =
      GoesOn-run _ _ (leaf q v) (leaf q' v') _ (rw (not_placeholder _ st.1) refl)
        (joins (leaf q v) (leaf q' v') w)
  delete_step-collapse (leaf q v) (node l r) one w st =
      GoesOn-run _ _ (leaf q v) (node l r) _ (rw (not_placeholder _ st.1) refl)
        (joins (leaf q v) (node l r) w)
  delete_step-collapse (node l r) x one w st = joins (node l r) x w
