-- ===== src/Utils/Bits.antt =====
-- getBitAtFromMSB and setBitAtFromMSB of utils.go: the bits in range, the bytes they determine, and
-- the bits after a bit was set. Facts about one byte are tables, checked by evaluation.
use smt.Prelude.{
  ℕ, zero, suc, ◌+◌, ◌-◌, ◌*◌, ◌/◌, ◌%◌, ◌^◌, ◌<◌, ◌≤◌, ◌≡◌, refl, Bool, true, ◌&&◌, [], ◌∷◌,
  length, set, replicate, ◌==◌, if◌then◌else◌, arith, get_or, All, length-set, sym, ◌∙◌,
}
use Prim.Native.Nat.{bit_and-bitwise}
use mathlib.Core.Path.{ap₂}
use smt.Res.{ok}
use smt.Bytes.{Bytes, IsByte, index-get_or}
use smt.Utils.{bit_of, with_bit, get_bit_at_from_msb, set_bit_at_from_msb}

-- `test` passes at each number under the bound.
every : (ℕ → Bool) → ℕ → Bool
every test zero = true
every test (suc bound) = every test bound && test bound

every_sound :
    (test : ℕ → Bool) (bound : ℕ) {k : ℕ} → every test bound ≡ true → k < bound → test k ≡ true
unfolding every
every_sound test zero passed below = absurd (omega arith)
every_sound test (suc bound) {k} passed below =
    ground (arith, every_sound test bound {k = k} (ground arith))

-- The bit at a position, 0 past the end.
unfoldable pub bit : Bytes → ℕ → ℕ
bit bytes i = bit_of (get_or bytes (i / 8) 0) (i % 8)

pub get_bit_at_from_msb_lem :
    (bytes : Bytes) (i : ℕ) → i < length bytes * 8 → get_bit_at_from_msb bytes i ≡ ok (bit bytes i)
unfolding get_bit_at_from_msb bit
get_bit_at_from_msb_lem bytes i h = rw (index-get_or bytes (i / 8) 0 (omega arith))

pub bit_of-le : (b k : ℕ) → bit_of b k ≤ 1
unfolding bit_of
bit_of-le b k = ground arith

pub bit-le : (bytes : Bytes) (i : ℕ) → bit bytes i ≤ 1
unfolding bit
bit-le bytes i = bit_of-le _ _

-- A byte is the number that its bits spell.
unfoldable pub weight : ℕ → ℕ
weight b =
    bit_of b 0 * 128
    + bit_of b 1 * 64
    + bit_of b 2 * 32
    + bit_of b 3 * 16
    + bit_of b 4 * 8
    + bit_of b 5 * 4
    + bit_of b 6 * 2
    + bit_of b 7

weight_table : every (λ b. weight b == b) 256 ≡ true
unfolding every weight bit_of
weight_table = refl

pub weight_lem : (b : ℕ) → b < 256 → weight b ≡ b
weight_lem b h = ground (arith, every_sound (λ b. weight b == b) 256 {k = b} weight_table h)

pub bits_determine_byte :
    (b c : ℕ) → b < 256 → c < 256 → ((k : ℕ) → k < 8 → bit_of b k ≡ bit_of c k) → b ≡ c
unfolding weight
bits_determine_byte b c hb hc e = omega (
  arith,
  weight_lem b hb,
  weight_lem c hc,
  e 0 (omega arith),
  e 1 (omega arith),
  e 2 (omega arith),
  e 3 (omega arith),
  e 4 (omega arith),
  e 5 (omega arith),
  e 6 (omega arith),
  e 7 (omega arith),
)

set_table :
    every
      (λ b.
        every (λ k. every (λ j. bit_of (with_bit b k) j == (if k == j then 1 else bit_of b j)) 8) 8)
      256
    ≡ true
unfolding every with_bit bit_of
set_table = refl

bit_of-with_bit :
    (b k j : ℕ)
    → b < 256
    → k < 8
    → j < 8
    → bit_of (with_bit b k) j ≡ (if k == j then 1 else bit_of b j)
bit_of-with_bit b k j hb hk hj =
    let row = every_sound _ 256 {k = b} set_table hb in
    let cell = every_sound _ 8 {k = k} row hk in
    let entry = every_sound _ 8 {k = j} cell hj in ground (arith, entry)

with_bit-IsByte : (b k : ℕ) → with_bit b k < 256
unfolding with_bit
with_bit-IsByte b k = omega arith

get_or-IsByte : (bytes : Bytes) (i : ℕ) → All IsByte bytes → get_or bytes i 0 < 256
get_or-IsByte [] i h = omega arith
get_or-IsByte (x ∷ xs) zero h = h.0
get_or-IsByte (x ∷ xs) (suc i) h = get_or-IsByte xs i h.1

pub replicate-IsByte : (n : ℕ) → All IsByte (replicate n 0)
replicate-IsByte zero = tt
replicate-IsByte (suc n) = (omega arith, replicate-IsByte n)

set-IsByte : (bytes : Bytes) (i v : ℕ) → All IsByte bytes → v < 256 → All IsByte (set bytes i v)
set-IsByte [] i v h hv = tt
set-IsByte (x ∷ xs) zero v h hv = (hv, h.1)
set-IsByte (x ∷ xs) (suc i) v h hv = (h.0, set-IsByte xs i v h.1 hv)

get_or-set :
    (xs : Bytes) (i j v : ℕ)
    → i < length xs
    → get_or (set xs i v) j 0 ≡ (if i == j then v else get_or xs j 0)
get_or-set [] i j v h = absurd (omega arith)
get_or-set (x ∷ xs) zero zero v h = refl
get_or-set (x ∷ xs) zero (suc j) v h = ground arith
get_or-set (x ∷ xs) (suc i) zero v h = ground arith
get_or-set (x ∷ xs) (suc i) (suc j) v h = ground (arith, get_or-set xs i j v (omega arith))

-- Setting a bit in range keeps the length, the bytes' range and every other bit.
pub set_bit_at_from_msb_lem :
    (bytes : Bytes) (i : ℕ)
    → All IsByte bytes
    → i < length bytes * 8
    → (marked : Bytes) × (set_bit_at_from_msb bytes i ≡ ok marked)
      × (length marked ≡ length bytes)
      × All IsByte marked
      × ((j : ℕ) → bit marked j ≡ (if i == j then 1 else bit bytes j))
unfolding set_bit_at_from_msb bit
set_bit_at_from_msb_lem bytes i h n =
    let b = get_or bytes (i / 8) 0 in
    let v = with_bit b (i % 8) in
    (
      set bytes (i / 8) v,
      rw (index-get_or bytes (i / 8) 0 (omega arith)),
      length-set bytes (i / 8) v,
      set-IsByte bytes (i / 8) v h (with_bit-IsByte b (i % 8)),
      λ j. rw (get_or-set bytes (i / 8) (j / 8) v (omega arith)) (
          ground (
            arith,
            bit_of-with_bit b (i % 8) (j % 8) (get_or-IsByte bytes (i / 8) h) (omega arith)
                (omega arith),
          )),
    )

bit_of-zero : (k : ℕ) → bit_of 0 k ≡ 0
unfolding bit_of
bit_of-zero k = ground (arith, bit_and-bitwise 0 (2 ^ (7 - k)))

get_or-replicate : (n i : ℕ) → ◌≡◌ {A = ℕ} (get_or (replicate n 0) i 0) 0
get_or-replicate zero i = refl
get_or-replicate (suc n) zero = refl
get_or-replicate (suc n) (suc i) = get_or-replicate n i

-- No bit of a zeroed slice is set.
pub bit-replicate : (n i : ℕ) → bit (replicate n 0) i ≡ 0
unfolding bit
bit-replicate n i = rw get_or-replicate (bit_of-zero (i % 8))

pub bit-cons_head : (x : ℕ) (xs : Bytes) (k : ℕ) → k < 8 → bit (x ∷ xs) k ≡ bit_of x k
unfolding bit
bit-cons_head x xs k h =
    let low : k / 8 ≡ 0 = omega arith in let same : k % 8 ≡ k = omega arith in rw (low, same)

pub bit-cons_tail : (x : ℕ) (xs : Bytes) (i : ℕ) → bit (x ∷ xs) (i + 8) ≡ bit xs i
unfolding bit
bit-cons_tail x xs i =
    let next : (i + 8) / 8 ≡ suc (i / 8) = omega arith in
    let same : (i + 8) % 8 ≡ i % 8 = omega arith in rw (next, same)

-- Two slices of bytes of one length with the same bits are the same.
pub bits_determine :
    (xs ys : Bytes)
    → length xs ≡ length ys
    → All IsByte xs
    → All IsByte ys
    → ((i : ℕ) → i < length xs * 8 → bit xs i ≡ bit ys i)
    → xs ≡ ys
bits_determine [] [] n hx hy e = refl
bits_determine [] (y ∷ ys) n hx hy e = absurd (omega arith)
bits_determine (x ∷ xs) [] n hx hy e = absurd (omega arith)
bits_determine (x ∷ xs) (y ∷ ys) n hx hy e =
    ap₂ ◌∷◌
      (bits_determine_byte x y hx.0 hy.0
        (λ k hk. sym (bit-cons_head x xs k hk) ∙ e k (omega arith) ∙ bit-cons_head y ys k hk))
      (bits_determine xs ys (omega arith) hx.1 hy.1
        (λ i hi. sym (bit-cons_tail x xs i) ∙ e (i + 8) (omega arith) ∙ bit-cons_tail y ys i))
