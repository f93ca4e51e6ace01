-- ===== src/Sharded/Buckets.antt =====
-- The buckets of BulkUpdate in sharded.go: every shard gets its keys, with their values, in their order.
use smt.Prelude.{
  ℕ, zero, suc, ◌≤◌, ◌<◌, ◌≡◌, refl, sym, ap, ◌∙◌, Bool-cases, inl, inr, List, [], ◌∷◌, ◌++◌,
  length, length-set, set, get_or, replicate, length-replicate, map, ◌^◌, ◌==◌, if◌then◌else◌,
  arith, All,
}
use mathlib.Core.List.{append_assoc, append-nil}
use smt.Res.{Returns}
use smt.Bytes.{Bytes, IsByte, index-get_or}
use smt.Sharded.Parallel.{shard_idx}
use smt.Sharded.Routing.{shift_lt}
use smt.Sharded.Bulk.{push, fill_buckets}

-- Of some items with a shard index each, those of shard `j`.
abbrev pub of_shard : ℕ → List ℕ → List Bytes → List Bytes
of_shard j (i ∷ idxs) (x ∷ xs) = let rest = of_shard j idxs xs in if i == j then x ∷ rest else rest
of_shard j [] xs = []
of_shard j (i ∷ idxs) [] = []

get_set :
    (bs : List (List Bytes)) (i j : ℕ) (b : List Bytes)
    → i < length bs
    → get_or (set bs i b) j [] ≡ (if i == j then b else get_or bs j [])
get_set [] i j b lt = absurd (omega arith)
get_set (x ∷ bs) zero zero b lt = refl
get_set (x ∷ bs) zero (suc j) b lt = ground arith
get_set (x ∷ bs) (suc i) zero b lt = ground arith
get_set (x ∷ bs) (suc i) (suc j) b lt = get_set bs i j b (omega arith) ∙ ground arith

-- An item is appended to its shard's bucket, and the other buckets stay.
push-get_or :
    (bs : List (List Bytes)) (i : ℕ) (x : Bytes)
    → i < length bs
    → Returns (push bs i x) λ bs'.
      (length bs' ≡ length bs)
      × ((j : ℕ) → get_or bs' j [] ≡ (if i == j then get_or bs j [] ++ x ∷ [] else get_or bs j []))
unfolding push
push-get_or bs i x lt = (
  set bs i (get_or bs i [] ++ x ∷ []),
  rw (index-get_or bs i [] lt) refl,
  (
    length-set bs i _,
    λ j. get_set bs i j _ lt ∙ elim (Bool-cases (i == j)) [
      | inl e ↦ let at : i ≡ j = ground arith in rw e (ap (λ n. get_or bs n [] ++ x ∷ []) at)
      | inr e ↦ rw e refl
    ],
  ),
)

-- A bucket with what is pushed to it.
pushed :
    (b b' : List Bytes) (i j : ℕ) (x : Bytes) (idxs : List ℕ) (xs : List Bytes)
    → b' ≡ (if i == j then b ++ x ∷ [] else b)
    → b' ++ of_shard j idxs xs ≡ b ++ of_shard j (i ∷ idxs) (x ∷ xs)
pushed b b' i j x idxs xs e = elim (Bool-cases (i == j)) [
  | inl f ↦
      let at : b' ≡ b ++ x ∷ [] = e ∙ rw f refl in
      rw f (ap (λ l. l ++ of_shard j idxs xs) at ∙ append_assoc b (x ∷ []) (of_shard j idxs xs))
  | inr f ↦ let at : b' ≡ b = e ∙ rw f refl in rw f (ap (λ l. l ++ of_shard j idxs xs) at)
]

-- Buckets after the loop from given ones.
record Filled (idxs : List ℕ) (keys values : List Bytes) (bucket_k bucket_v : List (List Bytes))
    (after : List (List Bytes) × List (List Bytes)) : Type 0 where
  pub size_k : length after.0 ≡ length bucket_k
  pub size_v : length after.1 ≡ length bucket_v
  pub at_k : (j : ℕ) → get_or after.0 j [] ≡ get_or bucket_k j [] ++ of_shard j idxs keys
  pub at_v : (j : ℕ) → get_or after.1 j [] ≡ get_or bucket_v j [] ++ of_shard j idxs values

fill_buckets-Filled :
    (idxs : List ℕ) (keys values : List Bytes) (bucket_k bucket_v : List (List Bytes))
    → length idxs ≡ length keys
    → length values ≡ length keys
    → All (λ i. (i < length bucket_k) × (i < length bucket_v)) idxs
    → Returns
        (fill_buckets idxs keys values bucket_k bucket_v)
        (Filled idxs keys values bucket_k bucket_v)
unfolding fill_buckets
fill_buckets-Filled [] [] [] bk bv li lv all = (
  (bk, bv),
  refl,
  record {
    size_k = refl;
    size_v = refl;
    at_k = λ j. sym (append-nil _);
    at_v = λ j. sym (append-nil _);
  },
)
fill_buckets-Filled [] [] (v ∷ values) bk bv li lv all = absurd (omega (arith, lv))
fill_buckets-Filled [] (k ∷ keys) values bk bv li lv all = absurd (omega (arith, li))
fill_buckets-Filled (i ∷ idxs) [] values bk bv li lv all = absurd (omega (arith, li))
fill_buckets-Filled (i ∷ idxs) (k ∷ keys) [] bk bv li lv all = absurd (omega (arith, lv))
fill_buckets-Filled (i ∷ idxs) (k ∷ keys) (v ∷ values) bk bv li lv (here, all) =
    let (bk', run_k, (size_k, at_k)) = push-get_or bk i k here.0 in
    let (bv', run_v, (size_v, at_v)) = push-get_or bv i v here.1 in
    let (after, run, f) =
      fill_buckets-Filled idxs keys values bk' bv' (omega (arith, li)) (omega (arith, lv))
        (rw (size_k, size_v) all) in
    (
      after,
      rw (run_k, run_v) run,
      record {
        size_k = f.size_k ∙ size_k;
        size_v = f.size_v ∙ size_v;
        at_k = λ j. f.at_k j ∙ pushed _ _ i j k idxs keys (at_k j);
        at_v = λ j. f.at_v j ∙ pushed _ _ i j v idxs values (at_v j);
      },
    )

no_item : (n j : ℕ) → get_or {A = List Bytes} (replicate n []) j [] ≡ []
no_item zero j = refl
no_item (suc n) zero = refl
no_item (suc n) (suc j) = no_item n j

module _ (sum256 : Bytes → Bytes) (sum256-All : (key : Bytes) → All IsByte (sum256 key)) (k : ℕ)
    (few : k ≤ 8) where
  first_byte : (d : Bytes) → All IsByte d → get_or d 0 0 < 256
  first_byte [] bytes = omega arith
  first_byte (b ∷ d) bytes = omega (arith, bytes.0)

  idxs_in_range :
      (bk bv : List (List Bytes)) (keys : List Bytes)
      → length bk ≡ 2 ^ k
      → length bv ≡ 2 ^ k
      → All (λ i. (i < length bk) × (i < length bv)) (map (shard_idx sum256 k) keys)
  unfolding shard_idx
  idxs_in_range bk bv [] ek ev = tt
  idxs_in_range bk bv (key ∷ keys) ek ev =
      let lt =
        shift_lt k (get_or (sum256 key) 0 0) few (first_byte (sum256 key) (sum256-All key)) in
      ((rw ek lt, rw ev lt), idxs_in_range bk bv keys ek ev)

  length-idxs : (keys : List Bytes) → length (map (shard_idx sum256 k) keys) ≡ length keys
  length-idxs [] = refl
  length-idxs (key ∷ keys) = ap suc (length-idxs keys)

  -- With 2 ^ k shards, k at most 8, as many values as keys, and a routing hash that returns
  -- bytes, BulkUpdate's loop never panics, and leaves in the buckets of each shard the keys that
  -- are routed to it, in their order, and their values.
  pub fill_buckets-of_shard :
      (keys values : List Bytes)
      → length values ≡ length keys
      → let idxs = map (shard_idx sum256 k) keys in
        Returns (fill_buckets idxs keys values (replicate (2 ^ k) []) (replicate (2 ^ k) [])) λ b.
          (j : ℕ)
          → (get_or b.0 j [] ≡ of_shard j idxs keys) × (get_or b.1 j [] ≡ of_shard j idxs values)
  fill_buckets-of_shard keys values size =
      let idxs = map (shard_idx sum256 k) keys in
      let none_yet : List (List Bytes) = replicate (2 ^ k) [] in
      let len = length-replicate (2 ^ k) [] in
      let (b, run, f) =
        fill_buckets-Filled idxs keys values none_yet none_yet (length-idxs keys) size
          (idxs_in_range none_yet none_yet keys len len) in
      (
        b,
        run,
        λ j. (
          f.at_k j ∙ ap (λ l. l ++ of_shard j idxs keys) (no_item (2 ^ k) j),
          f.at_v j ∙ ap (λ l. l ++ of_shard j idxs values) (no_item (2 ^ k) j),
        ),
      )
