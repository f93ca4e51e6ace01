-- ===== src/Sharded/Order.antt =====
-- BulkUpdate of sharded.go ends the same in whatever order the shards' goroutines run.
use smt.Prelude.{
  ℕ, ◌<◌, false, ◌==◌, ◌≡◌, refl, sym, ap, ◌∙◌, Bool-cases, inl, inr, ◌⊎◌, Option, none, some, List,
  [], ◌∷◌, length, replicate, arith,
}
use mathlib.Core.Path.{subst}
use smt.Res.{Res, ok, err, panic, Error}
use smt.Bytes.{Bytes}
use smt.TreeHasher.{Hasher}
use smt.MapStore.{MapStore}
use smt.Tree.Run.{Run, ◌>>=◌, lift, and_then}
use smt.Sharded.{ShardedSmt}
use smt.Sharded.Bulk.{
  fill_buckets, started, record_error, after_shard, run_shards, finish, bulk_update,
}
use smt.Sharded.Parallel.{Computes}
use smt.Sharded.Schedules.{Computes-map}
use smt.Sharded.Steps.{step, step-step, step_comm}

-- Orders of the same goroutines: neighbours are exchanged, any number of times.
pub data Reordered : List ℕ → List ℕ → Type 0 where
  unchanged : {xs : List ℕ} → Reordered xs xs
  after_first : {x : ℕ} {xs ys : List ℕ} → Reordered xs ys → Reordered (x ∷ xs) (x ∷ ys)
  exchanged : {x y : ℕ} {xs : List ℕ} → Reordered (x ∷ y ∷ xs) (y ∷ x ∷ xs)
  chained : {xs ys zs : List ℕ} → Reordered xs ys → Reordered ys zs → Reordered xs zs

Reordered-sym : {xs ys : List ℕ} → Reordered xs ys → Reordered ys xs
Reordered-sym unchanged = unchanged
Reordered-sym (after_first a) = after_first (Reordered-sym a)
Reordered-sym exchanged = exchanged
Reordered-sym (chained a b) = chained (Reordered-sym b) (Reordered-sym a)

-- A schedule runs each goroutine that was started once.
abbrev pub IsSchedule : (List ℕ → List ℕ) → Type 0
IsSchedule schedule = (started : List ℕ) → Reordered started (schedule started)

-- Two runs end alike: both in a panic, both in an error, perhaps not the same one, with one state, or
-- both with one value and one state.
pub data SameEnd {S : Type 0} : Res Bytes × S → Res Bytes × S → Type 0 where
  both_panic : {s t : S} → SameEnd (panic, s) (panic, t)
  both_fail : {e f : Error} {s : S} → SameEnd (err e, s) (err f, s)
  both_return : {b : Bytes} {s : S} → SameEnd (ok b, s) (ok b, s)

SameEnd-refl : {S : Type 0} (r : Res Bytes × S) → SameEnd r r
SameEnd-refl (ok b, s) = both_return
SameEnd-refl (err e, s) = both_fail
SameEnd-refl (panic, s) = both_panic

SameEnd-trans : {S : Type 0} {a b c : Res Bytes × S} → SameEnd a b → SameEnd b c → SameEnd a c
SameEnd-trans both_panic both_panic = both_panic
SameEnd-trans both_fail both_fail = both_fail
SameEnd-trans both_return both_return = both_return

-- An error was recorded in both, or in none.
data SameGot : Option Error → Option Error → Type 0 where
  both_none : SameGot none none
  both_some : {e f : Error} → SameGot (some e) (some f)

SameGot-refl : (g : Option Error) → SameGot g g
SameGot-refl none = both_none
SameGot-refl (some e) = both_some

recorded : (g g' : Option Error) (e f : Error) → SameGot (record_error g e) (record_error g' f)
unfolding record_error
recorded none none e f = both_some
recorded none (some x) e f = both_some
recorded (some x) none e f = both_some
recorded (some x) (some y) e f = both_some

Res-cases : (r : Res Bytes) → ((b : Bytes) × (r ≡ ok b)) ⊎ ((e : Error) × (r ≡ err e)) ⊎ (r ≡ panic)
Res-cases (ok b) = inl (b, refl)
Res-cases (err e) = inr (inl (e, refl))
Res-cases panic = inr (inr refl)

module _ ⦃h : Hasher⦄ (sum256 : Bytes → Bytes) (N V : Type 0) ⦃ns : MapStore N⦄ ⦃vs : MapStore V⦄
    (bucket_k bucket_v : List (List Bytes)) where
  -- The goroutines in an order, with what follows them.
  abbrev whole : List ℕ → Option Error → Run (ShardedSmt N V) Bytes
  whole order got = run_shards sum256 bucket_k bucket_v order got >>= finish sum256

  abbrev take_step : ℕ → Run (ShardedSmt N V) Bytes
  take_step = step sum256 N V bucket_k bucket_v

  -- What follows a step with this result.
  abbrev follow : Res Bytes → List ℕ → Option Error → ShardedSmt N V → Res Bytes × ShardedSmt N V
  follow (ok b) rest got s = whole rest got s
  follow (err e) rest got s = whole rest (record_error got e) s
  follow panic rest got s = (panic, s)

  after_shard-follow :
      (r : Res Bytes) (rest : List ℕ) (got : Option Error) (s : ShardedSmt N V)
      → and_then
          (finish sum256)
          (after_shard sum256 (run_shards sum256 bucket_k bucket_v rest) got r s)
        ≡ follow r rest got s
  unfolding after_shard
  after_shard-follow (ok b) rest got s = refl
  after_shard-follow (err e) rest got s = refl
  after_shard-follow panic rest got s = refl

  whole-cons :
      (i : ℕ) (rest : List ℕ) (got : Option Error) (s : ShardedSmt N V)
      → whole (i ∷ rest) got s ≡ follow (take_step i s).0 rest got (take_step i s).1
  unfolding run_shards
  whole-cons i rest got s = after_shard-follow (take_step i s).0 rest got (take_step i s).1

  finish-SameEnd :
      (g g' : Option Error) (s : ShardedSmt N V)
      → SameGot g g'
      → SameEnd (finish sum256 g s) (finish sum256 g' s)
  unfolding finish
  finish-SameEnd none none s both_none = SameEnd-refl _
  finish-SameEnd (some e) (some f) s both_some = both_fail
  finish-SameEnd none (some f) s differ = elim differ [ ]
  finish-SameEnd (some e) none s differ = elim differ [ ]

  -- What was recorded before tells only whether there is an error.
  whole-SameGot :
      (order : List ℕ) (g g' : Option Error) (s : ShardedSmt N V)
      → SameGot g g'
      → SameEnd (whole order g s) (whole order g' s)
  whole-SameGot [] g g' s same = unfold run_shards in finish-SameEnd g g' s same
  whole-SameGot (i ∷ rest) g g' s same =
      rw (whole-cons i rest g s, whole-cons i rest g' s)
        (elim (Res-cases (take_step i s).0) [
          | inl (b, e) ↦ rw e (whole-SameGot rest g g' (take_step i s).1 same)
          | inr (inl (x, e)) ↦ rw e (whole-SameGot rest _ _ (take_step i s).1 (recorded g g' x x))
          | inr (inr e) ↦ rw e both_panic
        ])

  follow-SameEnd :
      (r : Res Bytes) (xs ys : List ℕ) (g : Option Error) (s : ShardedSmt N V)
      → ((g : Option Error) → SameEnd (whole xs g s) (whole ys g s))
      → SameEnd (follow r xs g s) (follow r ys g s)
  follow-SameEnd (ok b) xs ys g s on = on g
  follow-SameEnd (err e) xs ys g s on = on (record_error g e)
  follow-SameEnd panic xs ys g s on = both_panic

  -- Two steps with their results, in both orders.
  both_follow :
      (r q : Res Bytes) (rest : List ℕ) (g : Option Error) (s1 s2 t : ShardedSmt N V)
      → (x y : ℕ) → take_step y s1 ≡ (q, t)
      → take_step x s2 ≡ (r, t)
      → SameEnd (follow r (y ∷ rest) g s1) (follow q (x ∷ rest) g s2)
  both_follow (ok a) q rest g s1 s2 t x y ey ex = rw (whole-cons y rest g s1, ey) (second q)
    where
      second : (q : Res Bytes) → SameEnd (follow q rest g t) (follow q (x ∷ rest) g s2)
      second (ok b) = rw (whole-cons x rest g s2, ex) (SameEnd-refl _)
      second (err e) = rw (whole-cons x rest (record_error g e) s2, ex) (SameEnd-refl _)
      second panic = both_panic
  both_follow (err f) q rest g s1 s2 t x y ey ex =
      rw (whole-cons y rest (record_error g f) s1, ey) (second q)
    where
      second :
          (q : Res Bytes) → SameEnd (follow q rest (record_error g f) t) (follow q (x ∷ rest) g s2)
      second (ok b) = rw (whole-cons x rest g s2, ex) (SameEnd-refl _)
      second (err e) =
          rw (whole-cons x rest (record_error g e) s2, ex)
            (whole-SameGot rest _ _ t (recorded (record_error g f) (record_error g e) e f))
      second panic = both_panic
  both_follow panic q rest g s1 s2 t x y ey ex = second q
    where
      second : (q : Res Bytes) → SameEnd (panic, s1) (follow q (x ∷ rest) g s2)
      second (ok b) = rw (whole-cons x rest g s2, ex) both_panic
      second (err e) = rw (whole-cons x rest (record_error g e) s2, ex) both_panic
      second panic = both_panic

  whole-exchanged :
      (x y : ℕ) (rest : List ℕ) (g : Option Error) (s : ShardedSmt N V)
      → SameEnd (whole (x ∷ y ∷ rest) g s) (whole (y ∷ x ∷ rest) g s)
  whole-exchanged x y rest g s = elim (Bool-cases (x == y)) [
    | inl e ↦
        let same : x ≡ y = ground arith in
        subst (λ z. SameEnd (whole (x ∷ y ∷ rest) g s) (whole (y ∷ z ∷ rest) g s)) (sym same)
          (subst (λ z. SameEnd (whole (z ∷ y ∷ rest) g s) (whole (y ∷ y ∷ rest) g s)) (sym same)
            (SameEnd-refl _))
    | inr e ↦
        let other : (y == x) ≡ false = ground (arith, e) in
        let t = (take_step x (take_step y s).1).1 in
        let xr = (take_step x s).0 in
        let yr = (take_step y s).0 in
        let after_y : take_step x (take_step y s).1 ≡ (xr, t) =
          ap (λ r. (r, t)) (step-step sum256 N V bucket_k bucket_v s x y e) in
        let after_x : take_step y (take_step x s).1 ≡ (yr, t) =
          ap (λ r. (r, (take_step y (take_step x s).1).1))
            (step-step sum256 N V bucket_k bucket_v s y x other)
          ∙ ap (λ u. (yr, u)) (step_comm sum256 N V bucket_k bucket_v s y x other) in
        rw (whole-cons x (y ∷ rest) g s, whole-cons y (x ∷ rest) g s)
          (both_follow xr yr rest g (take_step x s).1 (take_step y s).1 t x y after_x after_y)
  ]

  pub whole-Reordered :
      {xs ys : List ℕ} (g : Option Error) (s : ShardedSmt N V)
      → Reordered xs ys
      → SameEnd (whole xs g s) (whole ys g s)
  whole-Reordered g s unchanged = SameEnd-refl _
  whole-Reordered g s (after_first {x = x} {xs = xs} {ys = ys} later) =
      rw (whole-cons x xs g s, whole-cons x ys g s)
        (follow-SameEnd (take_step x s).0 xs ys g (take_step x s).1
          (λ g'. whole-Reordered g' (take_step x s).1 later))
  whole-Reordered g s (exchanged {x = x} {y = y} {xs = rest}) = whole-exchanged x y rest g s
  whole-Reordered g s (chained a b) = SameEnd-trans (whole-Reordered g s a) (whole-Reordered g s b)

module _ ⦃h : Hasher⦄ (sum256 : Bytes → Bytes) {N V : Type 0} ⦃ns : MapStore N⦄
    ⦃vs : MapStore V⦄ where
  bulk_update-Reordered :
      (idxs : List ℕ) (order order' : List ℕ → List ℕ) (keys values : List Bytes)
      → (s : ShardedSmt N V) → IsSchedule order
      → IsSchedule order'
      → SameEnd
          (bulk_update sum256 idxs order keys values s)
          (bulk_update sum256 idxs order' keys values s)
  unfolding bulk_update
  bulk_update-Reordered idxs order order' keys values s any any' =
      elim (Bool-cases (length keys == length values)) [
        | inr e ↦ rw e (SameEnd-refl _)
        | inl e ↦ elim (Bool-cases (length keys == 0)) [
          | inl f ↦ rw (e, f) (SameEnd-refl _)
          | inr f ↦ rw (e, f) (after_buckets (fill_buckets idxs keys values none_yet none_yet))
        ]
      ]
    where
      none_yet : List (List Bytes)
      none_yet = replicate (length s.shards) []

      after_buckets :
          (r : Res (List (List Bytes) × List (List Bytes)))
          → SameEnd
              ((lift r >>= λ buckets.
                  run_shards sum256 buckets.0 buckets.1 (order (started 0 buckets.0)) none
                  >>= finish sum256)
                s)
              ((lift r >>= λ buckets.
                  run_shards sum256 buckets.0 buckets.1 (order' (started 0 buckets.0)) none
                  >>= finish sum256)
                s)
      after_buckets (ok (bucket_k, bucket_v)) =
          whole-Reordered sum256 N V bucket_k bucket_v none s
            (chained (Reordered-sym (any (started 0 bucket_k))) (any' (started 0 bucket_k)))
      after_buckets (err e) = both_fail
      after_buckets panic = both_panic

  -- On at least one processor, BulkUpdate of a sharded tree ends alike whatever the schedules: of
  -- the goroutines that compute the shard indices, in buffers of one entry per key, and of the
  -- goroutines of the shards, each of which runs once. Both runs panic, or both fail and leave
  -- one state, or both return one root and leave one state.
  pub bulk_update-SameEnd :
      (s : ShardedSmt N V) (keys values : List Bytes) (procs : ℕ)
      (buffer buffer' idxs idxs' : List ℕ)
      → (order order' : List ℕ → List ℕ) → 0 < procs
      → length buffer ≡ length keys
      → length buffer' ≡ length keys
      → Computes sum256 s.shard_bits procs keys buffer idxs
      → Computes sum256 s.shard_bits procs keys buffer' idxs'
      → IsSchedule order
      → IsSchedule order'
      → SameEnd
          (bulk_update sum256 idxs order keys values s)
          (bulk_update sum256 idxs' order' keys values s)
  bulk_update-SameEnd s keys values procs buffer buffer' idxs idxs' order order' some_procs size
        size' computed computed' any any' =
      let first =
        (Computes-map sum256 s.shard_bits keys procs buffer some_procs size).1 idxs computed in
      let second =
        (Computes-map sum256 s.shard_bits keys procs buffer' some_procs size').1 idxs' computed' in
      subst
        (λ l.
          SameEnd (bulk_update sum256 idxs order keys values s)
            (bulk_update sum256 l order' keys values s))
        (first ∙ sym second) (bulk_update-Reordered idxs order order' keys values s any any')
