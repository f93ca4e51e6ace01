-- ===== src/Utils/Count.antt =====
-- countSetBits and countCommonPrefix of utils.go against the bits in a range of positions.
use smt.Prelude.{
  ℕ, zero, suc, ◌+◌, ◌*◌, ◌≤◌, ◌<◌, ◌≡◌, ◌≢◌, refl, ap, ◌∙◌, length, ◌==◌, arith, All, Bool-cases,
  inl, inr,
}
use native.Mathlib.Nat.{zero-add, add-zero}
use smt.Res.{ok, Returns}
use smt.Bytes.{Bytes, IsByte}
use smt.Utils.{count_set_bits_loop, count_set_bits, count_common_prefix_loop, count_common_prefix}
use smt.Utils.Bits.{bit, bit-le, get_bit_at_from_msb_lem, bits_determine}

-- The set bits among the `n` positions from `i`.
unfoldable pub ones : Bytes → ℕ → ℕ → ℕ
ones bytes i zero = 0
ones bytes i (suc n) = bit bytes i + ones bytes (i + 1) n

pub ones-le : (bytes : Bytes) (i n : ℕ) → ones bytes i n ≤ n
unfolding ones
ones-le bytes i zero = omega arith
ones-le bytes i (suc n) = omega (arith, bit-le bytes i, ones-le bytes (i + 1) n)

pub ones-add :
    (bytes : Bytes) (i n m : ℕ) → ones bytes i (n + m) ≡ ones bytes i n + ones bytes (i + n) m
unfolding ones
ones-add bytes i zero m = rw (zero-add m, add-zero i) (omega arith)
ones-add bytes i (suc n) m =
    let e : suc n + m ≡ suc (n + m) = omega arith in
    let d : i + suc n ≡ i + 1 + n = omega arith in
    rw (e, d) (omega (arith, ones-add bytes (i + 1) n m))

-- A positive count shows a set bit in the range.
pub ones-pos :
    (bytes : Bytes) (i n : ℕ)
    → 0 < ones bytes i n
    → (k : ℕ) × (i ≤ k) × (k < i + n) × (bit bytes k ≡ 1)
unfolding ones
ones-pos bytes i zero h = absurd (omega arith)
ones-pos bytes i (suc n) h = elim (Bool-cases (bit bytes i == 1)) [
  | inl e ↦ (i, omega arith, omega arith, ground arith)
  | inr e ↦
      let clear : bit bytes i ≡ 0 = ground (arith, bit-le bytes i) in
      let (k, lo, hi, set) = ones-pos bytes (i + 1) n (omega arith) in
      (k, omega arith, omega arith, set)
]

pub pos-ones :
    (bytes : Bytes) (i n k : ℕ) → i ≤ k → k < i + n → bit bytes k ≡ 1 → 0 < ones bytes i n
unfolding ones
pos-ones bytes i zero k lo hi e = absurd (omega arith)
pos-ones bytes i (suc n) k lo hi e = elim (Bool-cases (i == k)) [
  | inl here ↦ let at : i ≡ k = ground arith in omega (arith, ap (bit bytes) at)
  | inr later ↦ omega (arith, pos-ones bytes (i + 1) n k (ground arith) (omega arith) e)
]

pub ones-clear :
    (bytes : Bytes) (i n : ℕ) → ((k : ℕ) → i ≤ k → bit bytes k ≡ 0) → ones bytes i n ≡ 0
unfolding ones
ones-clear bytes i zero h = refl
ones-clear bytes i (suc n) h =
    omega (arith, h i (omega arith), ones-clear bytes (i + 1) n (λ k lo. h k (omega arith)))

count_set_bits_loop-ones :
    (n : ℕ) (bytes : Bytes) (i count : ℕ)
    → i + n ≤ length bytes * 8
    → count_set_bits_loop n bytes i count ≡ ok (count + ones bytes i n)
unfolding count_set_bits_loop ones
count_set_bits_loop-ones zero bytes i count h = ap ok (omega arith)
count_set_bits_loop-ones (suc n) bytes i count h =
    rw (get_bit_at_from_msb_lem bytes i (omega arith)) (
      count_set_bits_loop-ones n bytes (i + 1) _ (omega arith)
      ∙ ap ok (ground (arith, bit-le bytes i)))

-- `count_set_bits` never panics, and counts the set bits at all positions.
pub count_set_bits-ones :
    (bytes : Bytes) → count_set_bits bytes ≡ ok (ones bytes 0 (length bytes * 8))
unfolding count_set_bits
count_set_bits-ones bytes =
    count_set_bits_loop-ones (length bytes * 8) bytes 0 0 (omega arith) ∙ ap ok (omega arith)

-- The positions below `n` on which two slices agree, up to the first difference.
pub record CommonPrefix (xs ys : Bytes) (n : ℕ) (c : ℕ) : Type 0 where
  pub within : c ≤ n
  pub agree : (j : ℕ) → j < c → bit xs j ≡ bit ys j
  pub differ : c < n → bit xs c ≢ bit ys c

count_common_prefix_loop-CommonPrefix :
    (n : ℕ) (xs ys : Bytes) (i : ℕ)
    → i + n ≤ length xs * 8
    → i + n ≤ length ys * 8
    → ((j : ℕ) → j < i → bit xs j ≡ bit ys j)
    → Returns (count_common_prefix_loop n xs ys i i) (CommonPrefix xs ys (i + n))
unfolding count_common_prefix_loop
count_common_prefix_loop-CommonPrefix zero xs ys i hx hy before =
    (i, refl, record { within = omega arith; agree = before; differ = λ lt. absurd (omega arith) })
count_common_prefix_loop-CommonPrefix (suc n) xs ys i hx hy before =
    elim (Bool-cases (bit xs i == bit ys i)) [
      | inl same ↦
          let eq : bit xs i ≡ bit ys i = ground arith in
          let (c, run, p) =
            count_common_prefix_loop-CommonPrefix n xs ys (i + 1) (omega arith) (omega arith)
              (λ j lt. extend j eq lt) in
          (
            c,
            rw
                (
                  get_bit_at_from_msb_lem xs i (omega arith),
                  get_bit_at_from_msb_lem ys i (omega arith),
                  same,
                )
                run,
            record {
              within = omega (arith, p.within);
              agree = p.agree;
              differ = λ lt. p.differ (omega arith);
            },
          )
      | inr differs ↦ (
        i,
        rw (
          get_bit_at_from_msb_lem xs i (omega arith),
          get_bit_at_from_msb_lem ys i (omega arith),
          differs,
        ),
        record { within = omega arith; agree = before; differ = λ lt q. ground arith },
      )
    ]
  where
    extend : (j : ℕ) → bit xs i ≡ bit ys i → j < i + 1 → bit xs j ≡ bit ys j
    extend j eq lt = elim (Bool-cases (j == i)) [
      | inl here ↦ let at : j ≡ i = ground arith in rw at eq
      | inr earlier ↦ before j (ground arith)
    ]

-- `count_common_prefix` of two slices of one length returns the first position where their bits
-- differ, or the number of their bits.
pub count_common_prefix-CommonPrefix :
    (xs ys : Bytes)
    → length xs ≡ length ys
    → Returns (count_common_prefix xs ys) (CommonPrefix xs ys (length xs * 8))
unfolding count_common_prefix
count_common_prefix-CommonPrefix xs ys e =
    let (c, run, p) =
      count_common_prefix_loop-CommonPrefix (length xs * 8) xs ys 0 (omega arith) (omega arith)
        (λ j lt. absurd (omega arith)) in
    (
      c,
      run,
      record {
        within = omega (arith, p.within);
        agree = p.agree;
        differ = λ lt. p.differ (omega arith);
      },
    )

-- The whole depth is returned for equal slices alone.
pub CommonPrefix-full :
    {xs ys : Bytes} {c : ℕ}
    → length xs ≡ length ys
    → All IsByte xs
    → All IsByte ys
    → CommonPrefix xs ys (length xs * 8) c
    → c ≡ length xs * 8
    → xs ≡ ys
CommonPrefix-full {xs} {ys} e hx hy p full =
    bits_determine xs ys e hx hy (λ i lt. p.agree i (omega arith))
