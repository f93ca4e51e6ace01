-- ===== src/Bulk/Split.antt =====
-- sort.Search as bulk.go uses it: partitionByBit finds where the bits turn from 0 to 1.
use smt.Prelude.{
  ℕ, zero, suc, ◌+◌, ◌-◌, ◌*◌, ◌/◌, ◌≤◌, ◌<◌, ◌≡◌, refl, ap, ◌∙◌, Bool, true, false, Bool-cases,
  inl, inr, List, [], ◌∷◌, ◌++◌, length, ltb, ◌==◌, arith, All, length-append,
}
use smt.Res.{Res, ok, ◌>>=◌}
use smt.Bytes.{index}
use smt.Utils.{get_bit_at_from_msb}
use smt.Utils.Bits.{bit, get_bit_at_from_msb_lem}
use smt.Bulk.{BulkKv, search_loop, search, test_at, partition_by_bit}

-- A test that fails below `a` and passes from `a` on: the search ends at `a`.
search_loop-first :
    (fuel a n : ℕ) (test : ℕ → Res Bool) (i j : ℕ)
    → i ≤ a
    → a ≤ j
    → j ≤ n
    → j ≤ i + fuel
    → ((m : ℕ) → m < a → test m ≡ ok false)
    → ((m : ℕ) → a ≤ m → m < n → test m ≡ ok true)
    → search_loop fuel test i j ≡ ok a
unfolding search_loop
search_loop-first zero a n test i j lo hi top few no_lem yes_lem = ap ok (omega arith)
search_loop-first (suc fuel) a n test i j lo hi top few no_lem yes_lem =
    let m = (i + j) / 2 in
    elim (Bool-cases (ltb i j)) [
      | inr stop ↦ let e : i ≡ a = ground (arith, stop, lo, hi) in rw stop (ap ok e)
      | inl go ↦
          let lt : i < j = ground (arith, go) in
          elim (Bool-cases (ltb m a)) [
            | inl below ↦
                let before : m < a = ground (arith, below) in
                rw (go, no_lem m before)
                  (search_loop-first fuel a n test (m + 1) j (omega (arith, before)) hi top
                    (omega (arith, few, lt)) no_lem yes_lem)
            | inr above ↦
                let after : a ≤ m = ground (arith, above) in
                rw (go, yes_lem m after (omega (arith, lt, top)))
                  (search_loop-first fuel a n test i m lo after (omega (arith, lt, top))
                    (omega (arith, few, lt)) no_lem yes_lem)
          ]
    ]

-- The item's path has a bit `b` at position `i`.
abbrev pub BitIs : ℕ → ℕ → BulkKv → Type 0
BitIs i b kv = (i < length kv.path * 8) × (bit kv.path i ≡ b)

bit_test : ℕ → BulkKv → Res Bool
unfolding get_bit_at_from_msb
bit_test i kv = get_bit_at_from_msb kv.path i >>= λ b. ok (b == 1)

bit_test-BitIs : (i b : ℕ) (kv : BulkKv) → BitIs i b kv → bit_test i kv ≡ ok (b == 1)
unfolding bit_test
bit_test-BitIs i b kv (inside, e) = rw (get_bit_at_from_msb_lem kv.path i inside, e)

-- Items at a position of a list of which all pass a test.
index-All :
    {P : BulkKv → Type 0} (f : BulkKv → Res Bool) (r : Bool)
    → ((kv : BulkKv) → P kv → f kv ≡ ok r)
    → (kvs : List BulkKv) (m : ℕ) → All P kvs
    → m < length kvs
    → test_at kvs f m ≡ ok r
unfolding index
index-All f r lem [] m all lt = absurd (omega arith)
index-All f r lem (kv ∷ kvs) zero all lt = lem kv all.0
index-All f r lem (kv ∷ kvs) (suc m) all lt = index-All f r lem kvs m all.1 (omega arith)

test_at-append_left :
    (f : BulkKv → Res Bool) (xs ys : List BulkKv) (m : ℕ)
    → m < length xs
    → test_at (xs ++ ys) f m ≡ test_at xs f m
unfolding index
test_at-append_left f [] ys m lt = absurd (omega arith)
test_at-append_left f (x ∷ xs) ys zero lt = refl
test_at-append_left f (x ∷ xs) ys (suc m) lt = test_at-append_left f xs ys m (omega arith)

test_at-append_right :
    (f : BulkKv → Res Bool) (xs ys : List BulkKv) (m k : ℕ)
    → m ≡ length xs + k
    → test_at (xs ++ ys) f m ≡ test_at ys f k
unfolding index
test_at-append_right f [] ys m k e = let same : m ≡ k = omega arith in rw same
test_at-append_right f (x ∷ xs) ys zero k e = absurd (omega arith)
test_at-append_right f (x ∷ xs) ys (suc m) k e = test_at-append_right f xs ys m k (omega arith)

-- A test that the items of `lower` fail and those of `upper` pass: the search ends between them.
pub search-append :
    {P Q : BulkKv → Type 0} (f : BulkKv → Res Bool)
    → ((kv : BulkKv) → P kv → f kv ≡ ok false)
    → ((kv : BulkKv) → Q kv → f kv ≡ ok true)
    → (lower upper : List BulkKv) → All P lower
    → All Q upper
    → search (length (lower ++ upper)) (test_at (lower ++ upper) f) ≡ ok (length lower)
unfolding search
search-append f fails passes lower upper all_lower all_upper =
    let a = length lower in
    let n = length (lower ++ upper) in
    let size = length-append lower upper in
    search_loop-first n a n (test_at (lower ++ upper) f) 0 n (omega arith) (omega (arith, size))
      (omega arith) (omega arith)
      (λ m below.
        test_at-append_left f lower upper m below ∙ index-All f false fails lower m all_lower below)
      (λ m above inside.
        test_at-append_right f lower upper m (m - a) (omega (arith, above))
        ∙ index-All f true passes upper (m - a) all_upper (omega (arith, above, inside, size)))

-- Of items whose bits at a depth are 0 first and 1 from some item on, partitionByBit returns the number
-- of those with bit 0. The paths reach that depth.
pub partition_by_bit-length :
    (i : ℕ) (zeros ones : List BulkKv)
    → All (BitIs i 0) zeros
    → All (BitIs i 1) ones
    → partition_by_bit (zeros ++ ones) i ≡ ok (length zeros)
unfolding partition_by_bit bit_test
partition_by_bit-length i zeros ones all_zero all_one =
    elim (Bool-cases (length (zeros ++ ones) == 0)) [
      | inl e ↦
          let none_there : 0 ≡ length zeros = ground (arith, e, length-append zeros ones) in
          rw e (ap ok none_there)
      | inr e ↦ rw e (
          search-append (bit_test i) (bit_test-BitIs i 0) (bit_test-BitIs i 1) zeros ones all_zero
            all_one)
    ]
