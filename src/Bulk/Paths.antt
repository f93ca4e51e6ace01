-- ===== src/Bulk/Paths.antt =====
-- The paths of a sorted batch in bulk.go: where they share a prefix, their next bits are 0 first and then
-- 1, which is the shape that partitionByBit searches.
use smt.Prelude.{
  ℕ, zero, suc, ◌+◌, ◌-◌, ◌*◌, ◌≤◌, ◌<◌, ◌≡◌, refl, sym, ap, ◌∙◌, Bool-cases, inl, inr, List, [],
  ◌∷◌, ◌++◌, length, ltb, ◌==◌, if◌then◌else◌, arith, All,
}
use smt.Bytes.{Bytes, IsByte}
use smt.Utils.{bit_of}
use smt.Utils.Bits.{
  bit, bit-le, bit_of-le, weight, weight_lem, bit-cons_head, bit-cons_tail, bits_determine_byte,
}
use smt.TreeHasher.{Hasher, path_size}
use smt.Tree.Walk.{depth}
use smt.Bulk.{BulkKv, less, compare}
use smt.Bulk.Batch.{Below, Increasing}
use smt.Bulk.Split.{BitIs}

-- Of two bytes whose bits agree above `k`, the smaller has no bit at `k` that the greater has not.
byte_bits :
    (x y k : ℕ)
    → x < 256
    → y < 256
    → x < y
    → k < 8
    → ((j : ℕ) → j < k → bit_of x j ≡ bit_of y j)
    → bit_of x k ≡ 1
    → bit_of y k ≡ 1
unfolding weight
byte_bits x y zero hx hy lt hk e one = omega (
  arith,
  weight_lem x hx,
  weight_lem y hy,
  bit_of-le x 0,
  bit_of-le x 1,
  bit_of-le x 2,
  bit_of-le x 3,
  bit_of-le x 4,
  bit_of-le x 5,
  bit_of-le x 6,
  bit_of-le x 7,
  bit_of-le y 0,
  bit_of-le y 1,
  bit_of-le y 2,
  bit_of-le y 3,
  bit_of-le y 4,
  bit_of-le y 5,
  bit_of-le y 6,
  bit_of-le y 7,
)
byte_bits x y (suc zero) hx hy lt hk e one = omega (
  arith,
  weight_lem x hx,
  weight_lem y hy,
  e 0 (omega arith),
  bit_of-le x 1,
  bit_of-le x 2,
  bit_of-le x 3,
  bit_of-le x 4,
  bit_of-le x 5,
  bit_of-le x 6,
  bit_of-le x 7,
  bit_of-le y 1,
  bit_of-le y 2,
  bit_of-le y 3,
  bit_of-le y 4,
  bit_of-le y 5,
  bit_of-le y 6,
  bit_of-le y 7,
)
byte_bits x y (suc (suc zero)) hx hy lt hk e one = omega (
  arith,
  weight_lem x hx,
  weight_lem y hy,
  e 0 (omega arith),
  e 1 (omega arith),
  bit_of-le x 2,
  bit_of-le x 3,
  bit_of-le x 4,
  bit_of-le x 5,
  bit_of-le x 6,
  bit_of-le x 7,
  bit_of-le y 2,
  bit_of-le y 3,
  bit_of-le y 4,
  bit_of-le y 5,
  bit_of-le y 6,
  bit_of-le y 7,
)
byte_bits x y (suc (suc (suc zero))) hx hy lt hk e one = omega (
  arith,
  weight_lem x hx,
  weight_lem y hy,
  e 0 (omega arith),
  e 1 (omega arith),
  e 2 (omega arith),
  bit_of-le x 3,
  bit_of-le x 4,
  bit_of-le x 5,
  bit_of-le x 6,
  bit_of-le x 7,
  bit_of-le y 3,
  bit_of-le y 4,
  bit_of-le y 5,
  bit_of-le y 6,
  bit_of-le y 7,
)
byte_bits x y (suc (suc (suc (suc zero)))) hx hy lt hk e one = omega (
  arith,
  weight_lem x hx,
  weight_lem y hy,
  e 0 (omega arith),
  e 1 (omega arith),
  e 2 (omega arith),
  e 3 (omega arith),
  bit_of-le x 4,
  bit_of-le x 5,
  bit_of-le x 6,
  bit_of-le x 7,
  bit_of-le y 4,
  bit_of-le y 5,
  bit_of-le y 6,
  bit_of-le y 7,
)
byte_bits x y (suc (suc (suc (suc (suc zero))))) hx hy lt hk e one = omega (
  arith,
  weight_lem x hx,
  weight_lem y hy,
  e 0 (omega arith),
  e 1 (omega arith),
  e 2 (omega arith),
  e 3 (omega arith),
  e 4 (omega arith),
  bit_of-le x 5,
  bit_of-le x 6,
  bit_of-le x 7,
  bit_of-le y 5,
  bit_of-le y 6,
  bit_of-le y 7,
)
byte_bits x y (suc (suc (suc (suc (suc (suc zero)))))) hx hy lt hk e one = omega (
  arith,
  weight_lem x hx,
  weight_lem y hy,
  e 0 (omega arith),
  e 1 (omega arith),
  e 2 (omega arith),
  e 3 (omega arith),
  e 4 (omega arith),
  e 5 (omega arith),
  bit_of-le x 6,
  bit_of-le x 7,
  bit_of-le y 6,
  bit_of-le y 7,
)
byte_bits x y (suc (suc (suc (suc (suc (suc (suc zero))))))) hx hy lt hk e one = omega (
  arith,
  weight_lem x hx,
  weight_lem y hy,
  e 0 (omega arith),
  e 1 (omega arith),
  e 2 (omega arith),
  e 3 (omega arith),
  e 4 (omega arith),
  e 5 (omega arith),
  e 6 (omega arith),
  bit_of-le x 7,
  bit_of-le y 7,
)
byte_bits x y (suc (suc (suc (suc (suc (suc (suc (suc k)))))))) hx hy lt hk e one =
    absurd (omega arith)

-- Of two paths that agree on the bits above `i`, the lesser has no bit at `i` that the other has not.
compare_bits :
    (xs ys : Bytes) (i : ℕ)
    → length xs ≡ length ys
    → All IsByte xs
    → All IsByte ys
    → i < length xs * 8
    → ((j : ℕ) → j < i → bit xs j ≡ bit ys j)
    → compare xs ys ≡ less
    → bit xs i ≡ 1
    → bit ys i ≡ 1
unfolding compare
compare_bits [] ys i n hx hy lt e c one = absurd (omega arith)
compare_bits (x ∷ xs) [] i n hx hy lt e c one = absurd (omega arith)
compare_bits (x ∷ xs) (y ∷ ys) i n hx hy lt e c one = elim (Bool-cases (ltb i 8)) [
  | inl early ↦
      let near : i < 8 = ground (arith, early) in
      let head = λ (j : ℕ) (le : j ≤ i). bit-cons_head x xs j (omega (arith, near)) in
      let same_bits = λ (j : ℕ) (lo : j < i).
        sym (bit-cons_head x xs j (omega (arith, near)))
        ∙ e j lo
        ∙ bit-cons_head y ys j (omega (arith, near)) in
      let own = sym (bit-cons_head x xs i near) ∙ one in
      bit-cons_head y ys i near ∙ elim (Bool-cases (ltb x y)) [
        | inl below ↦ byte_bits x y i hx.0 hy.0 (ground (arith, below)) near same_bits own
        | inr above ↦ let q : x ≡ y = ground (arith, above, c) in ap (λ b. bit_of b i) (sym q) ∙ own
      ]
  | inr late ↦
      let far : 8 ≤ i = ground (arith, late) in
      let q : x ≡ y = bits_determine_byte x y hx.0 hy.0 (λ j lo.
        sym (bit-cons_head x xs j lo) ∙ e j (omega (arith, far)) ∙ bit-cons_head y ys j lo) in
      let rest : compare xs ys ≡ less = ground (arith, q, c) in
      let back : (i - 8) + 8 ≡ i = omega (arith, far) in
      ap (bit (y ∷ ys)) (sym back)
      ∙ bit-cons_tail y ys (i - 8)
      ∙ compare_bits xs ys (i - 8) (omega (arith, n)) hx.1 hy.1 (omega (arith, lt, far))
          (λ j lo.
            sym (bit-cons_tail x xs j) ∙ e (j + 8) (omega (arith, lo, far)) ∙ bit-cons_tail y ys j)
          rest (sym (bit-cons_tail x xs (i - 8)) ∙ ap (bit (x ∷ xs)) back ∙ one)
]

module _ ⦃h : Hasher⦄ where
  -- A path of a digest's length whose first `i` bits are those of `g`.
  abbrev pub Shares : (ℕ → ℕ) → ℕ → BulkKv → Type 0
  Shares g i kv =
      (length kv.path ≡ path_size) × All IsByte kv.path × ((j : ℕ) → j < i → bit kv.path j ≡ g j)

  -- The bits with one more.
  abbrev pub extend : (ℕ → ℕ) → ℕ → ℕ → ℕ → ℕ
  extend g i b j = if j == i then b else g j

  pub extend-below :
      (g : ℕ → ℕ) (i b : ℕ) (f : ℕ → ℕ)
      → ((j : ℕ) → j < i → f j ≡ g j)
      → f i ≡ b
      → (j : ℕ) → j < suc i
      → f j ≡ extend g i b j
  extend-below g i b f below here j lt = elim (Bool-cases (j == i)) [
    | inl e ↦ let at : j ≡ i = ground arith in rw e (ap f at ∙ here)
    | inr e ↦ rw e (below j (ground (arith, e, lt)))
  ]

  Shares-extend :
      (g : ℕ → ℕ) (i b : ℕ) (kv : BulkKv)
      → Shares g i kv
      → bit kv.path i ≡ b
      → Shares (extend g i b) (suc i) kv
  Shares-extend g i b kv s e = (s.0, s.1, extend-below g i b (bit kv.path) s.2 e)

  -- The two halves of a sorted batch.
  pub record Halves (g : ℕ → ℕ) (i : ℕ) (kvs : List BulkKv) : Type 0 where
    pub zeros : List BulkKv
    pub ones : List BulkKv
    pub both : kvs ≡ zeros ++ ones
    pub all_zero : All (BitIs i 0) zeros
    pub all_one : All (BitIs i 1) ones
    pub up_zeros : Increasing zeros
    pub up_ones : Increasing ones
    pub zeros_share : All (Shares (extend g i 0) (suc i)) zeros
    pub ones_share : All (Shares (extend g i 1) (suc i)) ones

  Below-zeros :
      (a : BulkKv) (kvs zeros ones : List BulkKv)
      → kvs ≡ zeros ++ ones
      → Below a kvs
      → Below a zeros
  Below-zeros a kvs [] ones e b = tt
  Below-zeros a [] (z ∷ zeros) ones e b = absurd cc
  Below-zeros a (k ∷ kvs) (z ∷ zeros) ones e b = let same : k ≡ z = cc in rw same at b

  Below-ones : (a : BulkKv) (kvs ones : List BulkKv) → kvs ≡ ones → Below a kvs → Below a ones
  Below-ones a kvs ones e b = rw e at b

  -- After an item with a bit 1 no item has a bit 0.
  no_zeros :
      (g : ℕ → ℕ) (i : ℕ) (a : BulkKv) (kvs zeros ones : List BulkKv)
      → i < depth
      → Shares g i a
      → All (Shares g i) kvs
      → Below a kvs
      → kvs ≡ zeros ++ ones
      → All (BitIs i 0) zeros
      → bit a.path i ≡ 1
      → zeros ≡ []
  no_zeros g i a kvs [] ones lt sa ss b e all one = refl
  no_zeros g i a [] (z ∷ zeros) ones lt sa ss b e all one = absurd cc
  no_zeros g i a (k ∷ kvs) (z ∷ zeros) ones lt sa ss b e all one =
      let same : k ≡ z = cc in
      let next : bit k.path i ≡ 1 =
        compare_bits a.path k.path i (sa.0 ∙ sym ss.0.0) sa.1 ss.0.1 (omega (arith, lt, sa.0))
          (λ j lo. sa.2 j lo ∙ sym (ss.0.2 j lo)) b one in
      let nil : bit k.path i ≡ 0 = ap (λ (x : BulkKv). bit x.path i) same ∙ all.0.1 in
      absurd (omega (arith, next, nil))

  add_zero :
      (g : ℕ → ℕ) (i : ℕ) (a : BulkKv) (kvs : List BulkKv)
      → i < depth
      → Shares g i a
      → Below a kvs
      → Halves g i kvs
      → bit a.path i ≡ 0
      → Halves g i (a ∷ kvs)
  add_zero g i a kvs lt sa b x e = record {
    zeros = a ∷ x.zeros;
    ones = x.ones;
    both = ap (◌∷◌ a) x.both;
    all_zero = ((omega (arith, lt, sa.0), e), x.all_zero);
    all_one = x.all_one;
    up_zeros = (Below-zeros a kvs x.zeros x.ones x.both b, x.up_zeros);
    up_ones = x.up_ones;
    zeros_share = (Shares-extend g i 0 a sa e, x.zeros_share);
    ones_share = x.ones_share;
  }

  add_one :
      (g : ℕ → ℕ) (i : ℕ) (a : BulkKv) (kvs : List BulkKv)
      → i < depth
      → Shares g i a
      → All (Shares g i) kvs
      → Below a kvs
      → Halves g i kvs
      → bit a.path i ≡ 1
      → Halves g i (a ∷ kvs)
  add_one g i a kvs lt sa ss b x e =
      let nil = no_zeros g i a kvs x.zeros x.ones lt sa ss b x.both x.all_zero e in
      let all : kvs ≡ x.ones = x.both ∙ ap (λ zs. zs ++ x.ones) nil in
      record {
        zeros = [];
        ones = a ∷ x.ones;
        both = ap (◌∷◌ a) all;
        all_zero = tt;
        all_one = ((omega (arith, lt, sa.0), e), x.all_one);
        up_zeros = tt;
        up_ones = (Below-ones a kvs x.ones all b, x.up_ones);
        zeros_share = tt;
        ones_share = (Shares-extend g i 1 a sa e, x.ones_share);
      }

  -- A sorted batch whose paths share their first `i` bits has the items with the next bit 0 first.
  pub Increasing-Halves :
      (g : ℕ → ℕ) (i : ℕ) (kvs : List BulkKv)
      → i < depth
      → All (Shares g i) kvs
      → Increasing kvs
      → Halves g i kvs
  Increasing-Halves g i [] lt ss up = record {
    zeros = [];
    ones = [];
    both = refl;
    all_zero = tt;
    all_one = tt;
    up_zeros = tt;
    up_ones = tt;
    zeros_share = tt;
    ones_share = tt;
  }
  Increasing-Halves g i (a ∷ kvs) lt ss up =
      let x = Increasing-Halves g i kvs lt ss.1 up.1 in
      elim (Bool-cases (bit a.path i == 1)) [
        | inl e ↦ add_one g i a kvs lt ss.0 ss.1 up.0 x (ground arith)
        | inr e ↦ add_zero g i a kvs lt ss.0 up.0 x (ground (arith, bit-le a.path i))
      ]
