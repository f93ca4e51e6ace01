-- ===== src/Sharded/Updates.antt =====
-- Update and Get of sharded.go on shards that stand for tries.
use smt.Prelude.{
  ℕ, zero, suc, ◌<◌, ◌≡◌, refl, sym, ap, ◌∙◌, false, ◌&&◌, Bool-cases, inl, inr, List, [], ◌∷◌,
  length, length-set, set, ◌==◌, if◌then◌else◌, arith,
}
use mathlib.Core.Option.{get_or}
use mathlib.Core.Path.{subst}
use smt.Res.{Res, ok}
use smt.Bytes.{Bytes, bytes_equal, index}
use smt.TreeHasher.{Hasher, path}
use smt.TreeHasher.Collisions.{CollisionFree}
use smt.MapStore.{MapStore}
use smt.Tree.{SparseMerkleTree}
use smt.Tree.Api
use smt.Sharded.{ShardedSmt, compute_root, shard_of, update, get}
use smt.Sharded.Steps.{on_shard-found}
use smt.Trie.{Trie, find}
use smt.Trie.Walk.{HashKeyed}
use smt.Trie.Represents.{get-get_descend}
use smt.Trie.Distinct.{Within}
use smt.Trie.History.{put, find-put, Stands, update-put}

module _ {A : Type 0} where
  index_lt : (xs : List A) (i : ℕ) → i < length xs → (x : A) × (index xs i ≡ ok x)
  unfolding index
  index_lt [] i lt = absurd (omega (arith, lt))
  index_lt (x ∷ xs) zero lt = (x, refl)
  index_lt (x ∷ xs) (suc i) lt = index_lt xs i (omega (arith, lt))

  set-same : (xs : List A) (i : ℕ) (x : A) → index xs i ≡ ok x → set xs i x ≡ xs
  unfolding index
  set-same [] i x e = refl
  set-same (y ∷ xs) zero x e = let q : y ≡ x = cc in ap (λ z. z ∷ xs) (sym q)
  set-same (y ∷ xs) (suc i) x e = ap (◌∷◌ y) (set-same xs i x e)

  index-set : (xs : List A) (i : ℕ) (x : A) → i < length xs → index (set xs i x) i ≡ ok x
  unfolding index
  index-set [] i x lt = absurd (omega (arith, lt))
  index-set (y ∷ xs) zero x lt = refl
  index-set (y ∷ xs) (suc i) x lt = index-set xs i x (omega (arith, lt))

  index-set_other :
      (xs : List A) (i j : ℕ) (x : A) → (j == i) ≡ false → index (set xs i x) j ≡ index xs j
  unfolding index
  index-set_other [] i j x ne = refl
  index-set_other (y ∷ xs) zero zero x ne = absurd (ground (arith, ne))
  index-set_other (y ∷ xs) zero (suc j) x ne = refl
  index-set_other (y ∷ xs) (suc i) zero x ne = refl
  index-set_other (y ∷ xs) (suc i) (suc j) x ne = index-set_other xs i j x (ground (arith, ne))

module _ ⦃h : Hasher⦄ where
  -- The key's shard, which is there.
  abbrev pub RoutedTo : {N V : Type 0} → (Bytes → Bytes) → ShardedSmt N V → Bytes → ℕ → Type 0
  RoutedTo sum256 s key i = (shard_of sum256 s key ≡ ok i) × (i < length s.shards)

  -- The tries after an update in shard `i`.
  abbrev pub put_at : (ℕ → Trie) → ℕ → Bytes → Bytes → ℕ → Trie
  put_at tries i key v j = if j == i then put (tries i) key v else tries j

module _ ⦃h : Hasher⦄ {N V : Type 0} ⦃ns : MapStore N⦄ ⦃vs : MapStore V⦄ (nodes : HashKeyed ns)
    (values : HashKeyed vs) (Seen : Bytes → Type 0) (free : CollisionFree Seen)
    (sum256 : Bytes → Bytes) where
  -- Every shard stands for its trie.
  abbrev pub ShardsStand : ShardedSmt N V → (ℕ → Trie) → Type 0
  ShardsStand s tries =
      (i : ℕ) (t : SparseMerkleTree N V)
      → index s.shards i ≡ ok t
      → Stands nodes values Seen free t (tries i)

  get_run :
      (s : ShardedSmt N V) (i : ℕ) (t : SparseMerkleTree N V) (key value : Bytes)
      → shard_of sum256 s key ≡ ok i
      → index s.shards i ≡ ok t
      → Api.get key t ≡ (ok value, t)
      → get sum256 key s ≡ (ok value, s)
  unfolding get
  get_run s i t key value routed at run =
      rw (routed, on_shard-found sum256 s i (Api.get key) t at, run)
        (ap (λ ts. let r : Res Bytes × ShardedSmt N V = (ok value, record s { shards = ts }) in r)
          (set-same s.shards i t at))

  pub get-ShardsStand :
      (s : ShardedSmt N V) (tries : ℕ → Trie) (key : Bytes) (i : ℕ)
      → ShardsStand s tries
      → RoutedTo sum256 s key i
      → get sum256 key s ≡ (ok (get_or (find (tries i) (path key) 0) []), s)
  get-ShardsStand s tries key i all (routed, lt) =
      let (t, at) = index_lt s.shards i lt in
      let x = all i t at in
      get_run s i t key _ routed at (get-get_descend nodes values t (tries i) x.represents key).0

  update_run :
      (s : ShardedSmt N V) (i : ℕ) (t t' : SparseMerkleTree N V) (key v root : Bytes)
      → shard_of sum256 s key ≡ ok i
      → index s.shards i ≡ ok t
      → Api.update key v t ≡ (ok root, t')
      → update sum256 key v s ≡ compute_root (record s { shards = set s.shards i t' })
  unfolding update
  update_run s i t t' key v root routed at run =
      rw (routed, on_shard-found sum256 s i (Api.update key v) t at, run) refl

  set-ShardsStand :
      (s : ShardedSmt N V) (tries : ℕ → Trie) (key v : Bytes) (i : ℕ) (t' : SparseMerkleTree N V)
      → ShardsStand s tries
      → i < length s.shards
      → Stands nodes values Seen free t' (put (tries i) key v)
      → ShardsStand (record s { shards = set s.shards i t' }) (put_at tries i key v)
  set-ShardsStand s tries key v i t' all lt x j t at = elim (Bool-cases (j == i)) [
    | inl e ↦
        let q : j ≡ i = ground (arith, e) in
        let here : ◌≡◌ {A = Res (SparseMerkleTree N V)} (ok t') (ok t) =
          sym (index-set s.shards i t' lt) ∙ ap (index (set s.shards i t')) (sym q) ∙ at in
        let same : t' ≡ t = cc in
        rw e (subst (λ y. Stands nodes values Seen free y (put (tries i) key v)) same x)
    | inr e ↦ rw e (all j t (sym (index-set_other s.shards i j t' e) ∙ at))
  ]

  same_route :
      (s : ShardedSmt N V) (i : ℕ) (t' : SparseMerkleTree N V) (k : Bytes) (j : ℕ)
      → RoutedTo sum256 s k j
      → RoutedTo sum256 (record s { shards = set s.shards i t' }) k j
  unfolding shard_of
  same_route s i t' k j (routed, lt) = (routed, omega (arith, lt, length-set s.shards i t'))

  value_after :
      (tries : ℕ → Trie) (i j : ℕ) (key v k : Bytes) (t : SparseMerkleTree N V) (old : Res Bytes)
      → Stands nodes values Seen free t (tries i)
      → old ≡ ok (get_or (find (tries j) (path k) 0) [])
      → ok (get_or (find (put_at tries i key v j) (path k) 0) [])
        ≡ (if j == i && bytes_equal (path key) (path k) then ok v else old)
  value_after tries i j key v k t old x before = elim (Bool-cases (j == i)) [
    | inl e ↦
        let q : j ≡ i = ground (arith, e) in
        let was : old ≡ ok (get_or (find (tries i) (path k) 0) []) =
          before ∙ ap (λ n. ok (get_or (find (tries n) (path k) 0) [])) q in
        let now = find-put (tries i) key v (path k) x.represents.well_formed in
        elim (Bool-cases (bytes_equal (path key) (path k))) [
          | inl same ↦ rw (e, same) (ap ok (now ∙ rw same refl))
          | inr other ↦ rw (e, other) (ap ok (now ∙ rw other refl) ∙ sym was)
        ]
    | inr e ↦ rw e (sym before)
  ]

  -- Update of a key routes it to its shard, updates that shard's tree and returns the root of all.
  -- Where what the shard's trie then hashes is among data without collisions, every shard stands
  -- for its trie again, routing is as before, and Get returns the new value for a key of that
  -- shard and path and what it returned before for every other key.
  pub put-ShardsStand :
      (s : ShardedSmt N V) (tries : ℕ → Trie) (key v : Bytes) (i : ℕ)
      → ShardsStand s tries
      → RoutedTo sum256 s key i
      → Within Seen (put (tries i) key v)
      → (s' : ShardedSmt N V) × (update sum256 key v s ≡ compute_root s')
        × ShardsStand s' (put_at tries i key v)
        × (length s'.shards ≡ length s.shards)
        × ((k : Bytes) (j : ℕ)
            → RoutedTo sum256 s k j
            → RoutedTo sum256 s' k j
              × (get sum256 k s' ≡ (
                if j == i && bytes_equal (path key) (path k) then ok v else (get sum256 k s).0,
                s',
              )))
  put-ShardsStand s tries key v i all (routed, lt) within =
      let (t, at) = index_lt s.shards i lt in
      let (t', run, x') = update-put nodes values Seen free t (tries i) key v (all i t at) within in
      let s' = record s { shards = set s.shards i t' } in
      let all' = set-ShardsStand s tries key v i t' all lt x' in
      (
        s',
        update_run s i t t' key v _ routed at run,
        all',
        length-set s.shards i t',
        λ k j to.
            let to' = same_route s i t' k j to in
            let read = get-ShardsStand s' (put_at tries i key v) k j all' to' in
            let before =
              ap (λ (r : Res Bytes × ShardedSmt N V). r.0) (get-ShardsStand s tries k j all to) in
            (
              to',
              read
                  ∙ ap (λ (r : Res Bytes). let x : Res Bytes × ShardedSmt N V = (r, s') in x)
                      (value_after tries i j key v k t _ (all i t at) before),
            ),
      )
