-- ===== src/Sharded/Steps.antt =====
-- The goroutines of BulkUpdate in sharded.go: each touches its own shard alone, so that two of them can
-- be taken in either order.
use smt.Prelude.{
  ℕ, zero, suc, ◌≡◌, refl, sym, ap, ◌∙◌, false, inl, inr, ◌⊎◌, List, [], ◌∷◌, set, ◌==◌, arith,
}
use smt.Res.{Res, ok, err, panic}
use smt.Bytes.{Bytes, index}
use smt.TreeHasher.{Hasher}
use smt.MapStore.{MapStore}
use smt.Tree.{SparseMerkleTree}
use smt.Tree.Run.{Run}
use smt.Bulk.Walk
use smt.Sharded.{ShardedSmt, on_shard}
use smt.Sharded.Bulk.{shard_update}

module _ {A : Type 0} where
  -- The list with `f` applied at a position.
  abbrev pub modify : (A → A) → List A → ℕ → List A
  modify f [] i = []
  modify f (x ∷ xs) zero = f x ∷ xs
  modify f (x ∷ xs) (suc i) = x ∷ modify f xs i

  modify_comm :
      (f g : A → A) (xs : List A) (i j : ℕ)
      → (i == j) ≡ false
      → modify f (modify g xs j) i ≡ modify g (modify f xs i) j
  modify_comm f g [] i j ne = refl
  modify_comm f g (x ∷ xs) zero zero ne = absurd (ground (arith, ne))
  modify_comm f g (x ∷ xs) zero (suc j) ne = refl
  modify_comm f g (x ∷ xs) (suc i) zero ne = refl
  modify_comm f g (x ∷ xs) (suc i) (suc j) ne =
      ap (◌∷◌ x) (modify_comm f g xs i j (ground (arith, ne)))

  index-modify :
      (f : A → A) (xs : List A) (i j : ℕ) → (i == j) ≡ false → index (modify f xs j) i ≡ index xs i
  unfolding index
  index-modify f [] i j ne = refl
  index-modify f (x ∷ xs) zero zero ne = absurd (ground (arith, ne))
  index-modify f (x ∷ xs) zero (suc j) ne = refl
  index-modify f (x ∷ xs) (suc i) zero ne = refl
  index-modify f (x ∷ xs) (suc i) (suc j) ne = index-modify f xs i j (ground (arith, ne))

  set-modify :
      (f : A → A) (xs : List A) (i : ℕ) (x : A) → index xs i ≡ ok x → set xs i (f x) ≡ modify f xs i
  unfolding index
  set-modify f [] i x e = refl
  set-modify f (y ∷ xs) zero x e = let same : y ≡ x = cc in ap (λ z. f z ∷ xs) (sym same)
  set-modify f (y ∷ xs) (suc i) x e = ap (◌∷◌ y) (set-modify f xs i x e)

  modify_missing : (f : A → A) (xs : List A) (i : ℕ) → index xs i ≡ panic → modify f xs i ≡ xs
  unfolding index
  modify_missing f [] i e = refl
  modify_missing f (y ∷ xs) zero e = absurd cc
  modify_missing f (y ∷ xs) (suc i) e = ap (◌∷◌ y) (modify_missing f xs i e)

  index-cases : (xs : List A) (i : ℕ) → ((x : A) × (index xs i ≡ ok x)) ⊎ (index xs i ≡ panic)
  unfolding index
  index-cases [] i = inr refl
  index-cases (x ∷ xs) zero = inl (x, refl)
  index-cases (x ∷ xs) (suc i) = index-cases xs i

module _ ⦃h : Hasher⦄ (sum256 : Bytes → Bytes) {N V : Type 0} where
  pub on_shard-found :
      (s : ShardedSmt N V) (i : ℕ) (call : Run (SparseMerkleTree N V) Bytes)
      → (t : SparseMerkleTree N V) → index s.shards i ≡ ok t
      → on_shard sum256 i call s ≡ ((call t).0, record s { shards = set s.shards i (call t).1 })
  unfolding on_shard
  on_shard-found s i call t e = rw (e, on_shard) refl

module _ ⦃h : Hasher⦄ (sum256 : Bytes → Bytes) (N V : Type 0) ⦃ns : MapStore N⦄ ⦃vs : MapStore V⦄
    (bucket_k bucket_v : List (List Bytes)) where
  abbrev pub step : ℕ → Run (ShardedSmt N V) Bytes
  step = shard_update sum256 bucket_k bucket_v

  abbrev shards_of : ShardedSmt N V → List (SparseMerkleTree N V)
  shards_of s = s.shards

  -- A step's result comes from its own shard, and it changes that shard alone.
  record Local (i : ℕ) : Type 0 where
    pub effect : SparseMerkleTree N V → SparseMerkleTree N V
    pub result : Res (SparseMerkleTree N V) → Res Bytes
    pub changes :
        (s : ShardedSmt N V) → (step i s).1 ≡ record s { shards = modify effect s.shards i }
    pub returns : (s : ShardedSmt N V) → (step i s).0 ≡ result (index s.shards i)

  modify_id : (xs : List (SparseMerkleTree N V)) (i : ℕ) → modify (λ t. t) xs i ≡ xs
  modify_id [] i = refl
  modify_id (x ∷ xs) zero = refl
  modify_id (x ∷ xs) (suc i) = ap (◌∷◌ x) (modify_id xs i)

  on_shard_missing :
      (s : ShardedSmt N V) (i : ℕ) (call : Run (SparseMerkleTree N V) Bytes)
      → index s.shards i ≡ panic
      → on_shard sum256 i call s ≡ (panic, s)
  unfolding on_shard
  on_shard_missing s i call e = rw (e, on_shard) refl

  -- A step whose buckets are missing.
  unmoved : (i : ℕ) → ((s : ShardedSmt N V) → step i s ≡ (panic, s)) → Local i
  unmoved i run = record {
    effect = λ t. t;
    result = λ r. panic;
    changes = λ s.
        ap (λ (x : Res Bytes × ShardedSmt N V). x.1) (run s)
        ∙ ap (λ l. record s { shards = l }) (sym (modify_id s.shards i));
    returns = λ s. ap (λ (x : Res Bytes × ShardedSmt N V). x.0) (run s);
  }

  abbrev run_in : List Bytes → List Bytes → Res (SparseMerkleTree N V) → Res Bytes
  run_in ks vals (ok t) = (Walk.bulk_update ks vals t).0
  run_in ks vals (err e) = err e
  run_in ks vals panic = panic

  moved :
      (i : ℕ) (ks vals : List Bytes)
      → ((s : ShardedSmt N V) → step i s ≡ on_shard sum256 i (Walk.bulk_update ks vals) s)
      → Local i
  moved i ks vals run =
      let f = λ (t : SparseMerkleTree N V). (Walk.bulk_update ks vals t).1 in
      record {
        effect = f;
        result = run_in ks vals;
        changes = λ s.
            ap (λ (x : Res Bytes × ShardedSmt N V). x.1) (run s) ∙ elim (index-cases s.shards i) [
              | inl (t, e) ↦
                  ap (λ (x : Res Bytes × ShardedSmt N V). x.1) (on_shard-found sum256 s i _ t e)
                  ∙ ap (λ l. record s { shards = l }) (set-modify f s.shards i t e)
              | inr e ↦
                  ap (λ (x : Res Bytes × ShardedSmt N V). x.1) (on_shard_missing s i _ e)
                  ∙ ap (λ l. record s { shards = l }) (sym (modify_missing f s.shards i e))
            ];
        returns = λ s.
            ap (λ (x : Res Bytes × ShardedSmt N V). x.0) (run s) ∙ elim (index-cases s.shards i) [
              | inl (t, e) ↦
                  ap (λ (x : Res Bytes × ShardedSmt N V). x.0) (on_shard-found sum256 s i _ t e)
                  ∙ ap (run_in ks vals) (sym e)
              | inr e ↦
                  ap (λ (x : Res Bytes × ShardedSmt N V). x.0) (on_shard_missing s i _ e)
                  ∙ ap (run_in ks vals) (sym e)
            ];
      }

  each-Local : (i : ℕ) → Local i
  unfolding shard_update
  each-Local i = elim (index-cases bucket_k i) [
    | inr e ↦ unmoved i (λ s. rw e refl)
    | inl (ks, e) ↦ elim (index-cases bucket_v i) [
      | inr f ↦ unmoved i (λ s. rw (e, f) refl)
      | inl (vals, f) ↦ moved i ks vals (λ s. rw (e, f) refl)
    ]
  ]

  -- The result of a step does not change by another shard's step.
  pub step-step :
      (s : ShardedSmt N V) (i j : ℕ) → (i == j) ≡ false → (step i (step j s).1).0 ≡ (step i s).0
  step-step s i j ne =
      let a = each-Local i in
      let b = each-Local j in
      a.returns (step j s).1
      ∙ ap (λ (t : ShardedSmt N V). a.result (index t.shards i)) (b.changes s)
      ∙ ap a.result (index-modify b.effect s.shards i j ne)
      ∙ sym (a.returns s)

  -- Two shards' steps leave the same state in either order.
  pub step_comm :
      (s : ShardedSmt N V) (i j : ℕ)
      → (i == j) ≡ false
      → (step i (step j s).1).1 ≡ (step j (step i s).1).1
  step_comm s i j ne =
      let a = each-Local i in
      let b = each-Local j in
      a.changes (step j s).1
      ∙ ap (λ (t : ShardedSmt N V). record t { shards = modify a.effect t.shards i }) (b.changes s)
      ∙ ap (λ l. record s { shards = l }) (modify_comm a.effect b.effect s.shards i j ne)
      ∙ ap (λ (t : ShardedSmt N V). record t { shards = modify b.effect t.shards j })
          (sym (a.changes s))
      ∙ sym (b.changes (step i s).1)
