-- ===== src/Sharded/History.antt =====
-- Sequences of Update calls of sharded.go on a new sharded tree: each shard is a tree with its own
-- share of the calls.
use smt.Prelude.{
  ℕ, zero, suc, ◌-◌, ◌/◌, ◌^◌, ◌≤◌, ◌<◌, ◌≡◌, refl, sym, ap, ◌∙◌, true, Bool-cases, inl, inr, [],
  ◌∷◌, All, length, ◌==◌, if◌then◌else◌, arith,
}
use mathlib.Core.Path.{subst}
use smt.Res.{ok, Returns}
use smt.Res
use smt.Bytes.{Bytes, IsByte, index}
use smt.TreeHasher.{Hasher, path}
use smt.TreeHasher.Collisions.{CollisionFree}
use smt.MapStore.{MapStore}
use smt.Tree.{SparseMerkleTree}
use smt.Tree.Run.{Run, ◌>>=◌, return}
use smt.Tree.Api.{new_sparse_merkle_tree}
use smt.Sharded.{ShardedSmt, shard_of, update, get, new_shards, new_sharded_smt}
use smt.Sharded.Root.{compute_root-balanced}
use smt.Sharded.Routing.{shift_lt, made, new_sharded_smt-made, length-new_shards}
use smt.Sharded.Updates.{ShardsStand, RoutedTo, put_at, get-ShardsStand, put-ShardsStand}
use smt.Trie.{Trie, empty}
use smt.Trie.Walk.{HashKeyed}
use smt.Trie.Distinct.{Within}
use smt.Trie.History.{Writes, put, put_all, written, WithinAll, WithinAll-Within, Stands}
use smt.Trie.History.Map.{Blank, new_tree, all-written}

abbrev first_byte : Bytes → ℕ
first_byte [] = 0
first_byte (b ∷ d) = b

-- The shard of a key among `2 ^ k` shards.
abbrev pub route : (Bytes → Bytes) → ℕ → Bytes → ℕ
route sum256 k key = first_byte (sum256 key) / 2 ^ (8 - k)

first_byte-route :
    (k : ℕ) (d : Bytes)
    → k ≤ 8
    → length d ≡ 32
    → All IsByte d
    → (Res.◌>>=◌ (index d 0) (λ b. ok (b / 2 ^ (8 - k))) ≡ ok (first_byte d / 2 ^ (8 - k)))
      × (first_byte d / 2 ^ (8 - k) < 2 ^ k)
unfolding index
first_byte-route k [] le size bytes = absurd (omega arith)
first_byte-route k (b ∷ d) le size bytes = (refl, shift_lt k b le bytes.0)

-- The calls that go to shard `i`.
unfoldable pub share : (Bytes → ℕ) → ℕ → Writes → Writes
share to i [] = []
share to i ((key, v) ∷ rest) =
    let others = share to i rest in if i == to key then (key, v) ∷ others else others

module _ ⦃h : Hasher⦄ {N V : Type 0} ⦃ns : MapStore N⦄ ⦃vs : MapStore V⦄ where
  -- One call of `update` after the other.
  unfoldable pub update_each : (Bytes → Bytes) → Writes → Run (ShardedSmt N V) (Unit {0})
  unfolding update
  update_each sum256 [] = return tt
  update_each sum256 ((key, v) ∷ rest) = update sum256 key v >>= λ root. update_each sum256 rest

  module _ (nodes : HashKeyed ns) (values : HashKeyed vs) (Seen : Bytes → Type 0)
      (free : CollisionFree Seen) (sum256 : Bytes → Bytes) (to : Bytes → ℕ) where
    -- After all calls each shard stands for the trie of its share.
    abbrev after : (ℕ → Trie) → Writes → ℕ → Trie
    after tries ws i = put_all (tries i) (share to i ws)

    after-put_at :
        (tries : ℕ → Trie) (key v : Bytes) (rest : Writes) (i : ℕ)
        → after (put_at tries (to key) key v) rest i ≡ after tries ((key, v) ∷ rest) i
    unfolding share put_all
    after-put_at tries key v rest i = elim (Bool-cases (i == to key)) [
      | inl e ↦
          let q : i ≡ to key = ground (arith, e) in
          rw e (ap (λ n. put_all (put (tries n) key v) (share to i rest)) (sym q))
      | inr e ↦ rw e refl
    ]

    WithinAll-put_at :
        (tries : ℕ → Trie) (key v : Bytes) (rest : Writes) (i : ℕ)
        → WithinAll Seen (tries i) (share to i ((key, v) ∷ rest))
        → WithinAll Seen (put_at tries (to key) key v i) (share to i rest)
    unfolding share
    WithinAll-put_at tries key v rest i = elim (Bool-cases (i == to key)) [
      | inl e ↦
          let q : i ≡ to key = ground (arith, e) in
          rw e (λ w. subst (λ n. WithinAll Seen (put (tries n) key v) (share to i rest)) q w.1)
      | inr e ↦ rw e (λ w. w)
    ]

    WithinAll-at :
        (tries : ℕ → Trie) (key v : Bytes) (rest : Writes)
        → WithinAll Seen (tries (to key)) (share to (to key) ((key, v) ∷ rest))
        → Within Seen (put (tries (to key)) key v)
    unfolding share
    WithinAll-at tries key v rest =
        let e : (to key == to key) ≡ true = ground arith in
        rw e (λ w. WithinAll-Within Seen _ (share to (to key) rest) w.1)

    update_each-ShardsStand :
        (ws : Writes) (n : ℕ) (s : ShardedSmt N V) (tries : ℕ → Trie)
        → length s.shards ≡ 2 ^ n
        → ShardsStand nodes values Seen free sum256 s tries
        → ((key : Bytes) → RoutedTo sum256 s key (to key))
        → ((i : ℕ) → WithinAll Seen (tries i) (share to i ws))
        → (s' : ShardedSmt N V) × (update_each sum256 ws s ≡ (ok tt, s'))
          × ShardsStand nodes values Seen free sum256 s' (after tries ws)
          × ((key : Bytes) → RoutedTo sum256 s' key (to key))
    unfolding update_each share put_all
    update_each-ShardsStand [] n s tries size all routed within = (s, refl, all, routed)
    update_each-ShardsStand ((key, v) ∷ rest) n s tries size all routed within =
        let i = to key in
        let (s1, run, all1, size1, keys1) =
          put-ShardsStand nodes values Seen free sum256 s tries key v i all (routed key)
            (WithinAll-at tries key v rest (within i)) in
        let (s2, runs, all2, routed2) =
          update_each-ShardsStand rest n s1 (put_at tries i key v) (size1 ∙ size) all1
            (λ k. (keys1 k (to k) (routed k)).0)
            (λ j. WithinAll-put_at tries key v rest j (within j)) in
        (
          s2,
          rw (run, compute_root-balanced n s1 (size1 ∙ size)) runs,
          (λ j t at.
              subst (Stands nodes values Seen free t) (after-put_at tries key v rest j)
                (all2 j t at)),
          routed2,
        )

    pub new_shards-Stands :
        (mapstore_factory : ℕ → N × V)
        → ((i : ℕ) → Blank nodes values Seen free (mapstore_factory i).1)
        → (n i j : ℕ) (t : SparseMerkleTree N V) → index (new_shards n i mapstore_factory) j ≡ ok t
        → Stands nodes values Seen free t empty
    unfolding new_shards index
    new_shards-Stands mapstore_factory blank zero i j t at = absurd cc
    new_shards-Stands mapstore_factory blank (suc n) i zero t at =
        let stores = mapstore_factory i in
        let same : new_sparse_merkle_tree stores.0 stores.1 [] ≡ t = cc in
        subst (λ x. Stands nodes values Seen free x empty) same
          (new_tree nodes values Seen free stores.0 stores.1 (blank i))
    new_shards-Stands mapstore_factory blank (suc n) i (suc j) t at =
        new_shards-Stands mapstore_factory blank n (suc i) j t at

  pub made-RoutedTo :
      (mapstore_factory : ℕ → N × V) (sum256 : Bytes → Bytes)
      → ((key : Bytes) → length (sum256 key) ≡ 32)
      → ((key : Bytes) → All IsByte (sum256 key))
      → (k : ℕ) → k ≤ 8
      → (key : Bytes) → RoutedTo sum256 (made mapstore_factory k) key (route sum256 k key)
  unfolding shard_of
  made-RoutedTo mapstore_factory sum256 size bytes k le key =
      let (e, lt) = first_byte-route k (sum256 key) le (size key) (bytes key) in
      (e, rw (length-new_shards mapstore_factory (2 ^ k) 0) lt)

  module _ (nodes : HashKeyed ns) (values : HashKeyed vs) (Seen : Bytes → Type 0)
      (free : CollisionFree Seen) where
    -- A new sharded tree of `2 ^ k` shards, up to 256, on empty value stores, where the routing
    -- hash returns 32 bytes and what each shard's tries hash is among data without collisions:
    -- NewShardedSMT succeeds, any sequence of updates, with the default value or another one, runs
    -- through, and then Get returns for each key the value that was last written at the key's path
    -- by the calls whose keys go to its shard or, where there is none, the default value.
    pub update_each-written :
        (mapstore_factory : ℕ → N × V) (sum256 : Bytes → Bytes) (k : ℕ) (ws : Writes)
        → ((i : ℕ) → Blank nodes values Seen free (mapstore_factory i).1)
        → ((key : Bytes) → length (sum256 key) ≡ 32)
        → ((key : Bytes) → All IsByte (sum256 key))
        → k ≤ 8
        → ((i : ℕ) → WithinAll Seen empty (share (route sum256 k) i ws))
        → Returns (new_sharded_smt (2 ^ k) mapstore_factory) λ s0.
          (s : ShardedSmt N V) × (update_each sum256 ws s0 ≡ (ok tt, s))
          × ((key : Bytes)
              → get sum256 key s ≡ (
                ok (written (share (route sum256 k) (route sum256 k key) ws) (λ x. []) (path key)),
                s,
              ))
    update_each-written mapstore_factory sum256 k ws blank size bytes le within =
        let to = route sum256 k in
        let (s, run, all, routed) =
          update_each-ShardsStand nodes values Seen free sum256 to ws k (made mapstore_factory k)
            (λ i. empty) (length-new_shards mapstore_factory (2 ^ k) 0)
            (λ i t at.
              new_shards-Stands nodes values Seen free sum256 to mapstore_factory blank (2 ^ k) 0 i
                t at)
            (made-RoutedTo mapstore_factory sum256 size bytes k le) within in
        (
          made mapstore_factory k,
          new_sharded_smt-made mapstore_factory k le,
          (
            s,
            run,
            λ key.
                get-ShardsStand nodes values Seen free sum256 s _ key (to key) all (routed key)
                ∙ ap (λ r. (ok r, s))
                    (all-written nodes values Seen free (share to (to key) ws) (path key)),
          ),
        )
