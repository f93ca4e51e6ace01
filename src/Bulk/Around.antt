-- ===== src/Bulk/Around.antt =====
-- Where the path of a leaf stands in a sorted batch, as mergeLeafWithKVs of bulk.go searches for it.
use smt.Prelude.{
  ℕ, ◌≡◌, refl, sym, ap, ◌∙◌, true, false, Bool-cases, inl, inr, ◌⊎◌, Option, none, some,
  Option-cases, List, [], ◌∷◌, ◌++◌, length, take, drop, ltb, arith, All, take-append, drop-append,
}
use mathlib.Core.Path.{ap₂}
use smt.Res.{ok}
use smt.Bytes.{Bytes, bytes_equal, bytes_equal→eq}
use smt.TreeHasher.{Hasher}
use smt.Bulk.{BulkKv, less, more, compare, not_less, insert_index, is_shadowed}
use smt.Bulk.Batch.{last_value, Below, Increasing}
use smt.Bulk.Split.{search-append}
use smt.Bulk.Target.{over, over-none, last_value-append, last_value-later, last_value-head}
use smt.Trie.{leaf, find}

-- Two paths are equal, or one is below the other.
compare-either : (x y : Bytes) → (compare x y ≡ less) ⊎ ((x ≡ y) ⊎ (compare y x ≡ less))
unfolding compare
compare-either [] [] = inr (inl refl)
compare-either [] (b ∷ y) = inl refl
compare-either (a ∷ x) [] = inr (inr refl)
compare-either (a ∷ x) (b ∷ y) = elim (Bool-cases (ltb a b)) [
  | inl e ↦ inl (rw e refl)
  | inr e ↦ elim (Bool-cases (ltb b a)) [
    | inl f ↦ inr (inr (rw f refl))
    | inr f ↦ elim (compare-either x y) [
      | inl k ↦ inl (rw (e, f) k)
      | inr (inl k) ↦ inr (inl (ap₂ ◌∷◌ (let q : a ≡ b = ground (arith, e, f) in q) k))
      | inr (inr k) ↦ inr (inr (rw (e, f) k))
    ]
  ]
]

compare_trans : (x y z : Bytes) → compare x y ≡ less → compare y z ≡ less → compare x z ≡ less
unfolding compare
compare_trans [] [] z h k = absurd cc
compare_trans [] (b ∷ y) [] h k = absurd cc
compare_trans [] (b ∷ y) (c ∷ z) h k = refl
compare_trans (a ∷ x) [] z h k = absurd cc
compare_trans (a ∷ x) (b ∷ y) [] h k = absurd cc
compare_trans (a ∷ x) (b ∷ y) (c ∷ z) h k = ground (arith, h, k, compare_trans x y z)

compare-more : (x y : Bytes) → compare x y ≡ less → compare y x ≡ more
unfolding compare
compare-more [] [] h = absurd cc
compare-more [] (b ∷ y) h = refl
compare-more (a ∷ x) [] h = absurd cc
compare-more (a ∷ x) (b ∷ y) h = ground (arith, h, compare-more x y)

-- The items below a path, and those above it, with an item of that path between them.
pub record Around (old : BulkKv) (kvs : List BulkKv) : Type 0 where
  pub lower : List BulkKv
  pub upper : List BulkKv
  pub both : kvs ≡ lower ++ upper
  pub all_lower : All (λ (kv : BulkKv). compare kv.path old.path ≡ less) lower
  pub all_upper : All (λ (kv : BulkKv). compare old.path kv.path ≡ less) upper
  pub up : Increasing (lower ++ old ∷ upper)

All-above :
    (q : Bytes) (a : BulkKv) (rest : List BulkKv)
    → Increasing (a ∷ rest)
    → compare q a.path ≡ less
    → All (λ (kv : BulkKv). compare q kv.path ≡ less) (a ∷ rest)
All-above q a [] up e = (e, tt)
All-above q a (b ∷ rest) up e = (e, All-above q b rest up.1 (compare_trans q a.path b.path e up.0))

Below-lower :
    (a old : BulkKv) (kvs lower upper : List BulkKv)
    → kvs ≡ lower ++ upper
    → Below a kvs
    → compare a.path old.path ≡ less
    → Below a (lower ++ old ∷ upper)
Below-lower a old kvs [] upper e b k = k
Below-lower a old [] (c ∷ lower) upper e b k = absurd cc
Below-lower a old (d ∷ kvs) (c ∷ lower) upper e b k = let same : d ≡ c = cc in rw same at b

absent_later :
    (a : BulkKv) (rest : List BulkKv) (q : Bytes)
    → last_value (a ∷ rest) q ≡ none
    → last_value rest q ≡ none
absent_later a rest q e = elim (Option-cases (last_value rest q)) [
  | inl f ↦ f
  | inr (v, f) ↦
      absurd (
        let g : ◌≡◌ {A = Option Bytes} (some v) none = sym (last_value-later a rest q v f) ∙ e in
        cc)
]

absent_head :
    (a : BulkKv) (rest : List BulkKv) (q : Bytes) → a.path ≡ q → last_value (a ∷ rest) q ≡ none → ⊥
absent_head a rest q e f =
    let (v, g) = last_value-head a rest in
    let k : ◌≡◌ {A = Option Bytes} (some v) none = sym g ∙ ap (last_value (a ∷ rest)) e ∙ f in
    absurd cc

pub Increasing-Around :
    (old : BulkKv) (kvs : List BulkKv)
    → Increasing kvs
    → last_value kvs old.path ≡ none
    → Around old kvs
Increasing-Around old [] up absent = record {
  lower = [];
  upper = [];
  both = refl;
  all_lower = tt;
  all_upper = tt;
  up = (tt, tt);
}
Increasing-Around old (a ∷ rest) up absent = elim (compare-either a.path old.path) [
  | inl e ↦
      let x = Increasing-Around old rest up.1 (absent_later a rest old.path absent) in
      record {
        lower = a ∷ x.lower;
        upper = x.upper;
        both = ap (◌∷◌ a) x.both;
        all_lower = (e, x.all_lower);
        all_upper = x.all_upper;
        up = (Below-lower a old rest x.lower x.upper x.both up.0 e, x.up);
      }
  | inr (inl e) ↦ absurd (absent_head a rest old.path e absent)
  | inr (inr e) ↦ record {
    lower = [];
    upper = a ∷ rest;
    both = refl;
    all_lower = tt;
    all_upper = All-above old.path a rest up e;
    up = (e, up);
  }
]

-- The search for the leaf's place ends behind the items below it.
pub insert_index-Around :
    (old : BulkKv) (kvs : List BulkKv) (x : Around old kvs)
    → (insert_index kvs old.path ≡ ok (length x.lower))
      × (take (length x.lower) kvs ≡ x.lower)
      × (drop (length x.lower) kvs ≡ x.upper)
unfolding insert_index
insert_index-Around old kvs x = (
  rw x.both (
      search-append (λ kv. ok (not_less (compare kv.path old.path))) (λ kv e. rw e refl)
        (λ kv e. rw (compare-more old.path kv.path e) refl) x.lower x.upper x.all_lower
        x.all_upper),
  ap (take (length x.lower)) x.both ∙ take-append (length x.lower) x.lower x.upper refl,
  ap (drop (length x.lower)) x.both ∙ drop-append (length x.lower) x.lower x.upper refl,
)

pub All-Around :
    (P : BulkKv → Type 0) (old : BulkKv) (lower upper : List BulkKv)
    → All P (lower ++ upper)
    → P old
    → All P (lower ++ old ∷ upper)
All-Around P old [] upper all p = (p, all)
All-Around P old (a ∷ lower) upper all p = (all.0, All-Around P old lower upper all.1 p)

pub not_shadowed :
    (kvs : List BulkKv) (q : Bytes) → is_shadowed kvs q ≡ false → last_value kvs q ≡ none
unfolding is_shadowed last_value
not_shadowed [] q e = refl
not_shadowed (kv ∷ rest) q e = elim (Bool-cases (bytes_equal kv.path q)) [
  | inl yes_it ↦ absurd (let f : true ≡ false = rw yes_it at e in cc)
  | inr off ↦ rw (not_shadowed rest q (rw off at e), off) refl
]

pub shadowed-value :
    (kvs : List BulkKv) (q : Bytes)
    → is_shadowed kvs q ≡ true
    → (v : Bytes) × (last_value kvs q ≡ some v)
unfolding is_shadowed last_value
shadowed-value [] q e = absurd cc
shadowed-value (kv ∷ rest) q e = elim (Option-cases (last_value rest q)) [
  | inr (v, f) ↦ (v, rw f refl)
  | inl f ↦ elim (Bool-cases (bytes_equal kv.path q)) [
    | inl yes_it ↦ (kv.value, rw (f, yes_it) refl)
    | inr off ↦
        let (v, k) = shadowed-value rest q (rw off at e) in
        absurd (let z : ◌≡◌ {A = Option Bytes} none (some v) = sym f ∙ k in cc)
  ]
]

over_parts : (a b : Option Bytes) → over a b ≡ none → (a ≡ none) × (b ≡ none)
over_parts none b e = (refl, e)
over_parts (some v) b e = absurd cc

module _ ⦃h : Hasher⦄ where
  old_value_at :
      (old : BulkKv) (upper : List BulkKv) (below : Option Bytes) (q : Bytes) (i : ℕ)
      → (bytes_equal old.path q ≡ true → (last_value upper q ≡ none) × (below ≡ none))
      → over (last_value (old ∷ upper) q) below
        ≡ over (over (last_value upper q) below) (find (leaf old.path old.value) q i)
  unfolding last_value find
  old_value_at old upper below q i own = elim (Bool-cases (bytes_equal old.path q)) [
    | inl e ↦ let (a, b) = own e in rw (a, b, e) refl
    | inr e ↦ elim (Option-cases (last_value upper q)) [
      | inl f ↦ rw (f, e) (sym (over-none below))
      | inr (v, f) ↦ rw f refl
    ]
  ]

  -- The merged items have the batch's values over the leaf's.
  pub last_value-Around :
      (old : BulkKv) (kvs : List BulkKv) (x : Around old kvs) (q : Bytes) (i : ℕ)
      → last_value kvs old.path ≡ none
      → last_value (x.lower ++ old ∷ x.upper) q
        ≡ over (last_value kvs q) (find (leaf old.path old.value) q i)
  last_value-Around old kvs x q i absent =
      let whole : last_value kvs q ≡ over (last_value x.upper q) (last_value x.lower q) =
        ap (λ xs. last_value xs q) x.both ∙ last_value-append x.lower x.upper q in
      last_value-append x.lower (old ∷ x.upper) q
      ∙ old_value_at old x.upper (last_value x.lower q) q i (λ e.
        let at = ap (last_value kvs) (sym (bytes_equal→eq old.path q e)) ∙ absent in
        over_parts (last_value x.upper q) (last_value x.lower q) (sym whole ∙ at))
      ∙ ap (λ o. over o (find (leaf old.path old.value) q i)) (sym whole)
