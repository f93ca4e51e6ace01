-- ===== src/Utils.antt =====
-- utils.go: bits of a byte slice, counted from the most significant bit of its first byte.
pub mod Bits
pub mod Count
pub mod Reverse
use smt.Prelude.{
  ℕ, zero, suc, ◌+◌, ◌-◌, ◌*◌, ◌/◌, ◌%◌, ◌^◌, ◌<◌, ◌≡◌, refl, Bool, true, false, List, [], ◌∷◌,
  ◌++◌, length, set, replicate, ◌==◌, ltb, if◌then◌else◌, arith, get_or, bit_and, bit_or,
}
use smt.Res.{Res, ok, panic, ◌>>=◌}
use smt.Bytes.{Bytes, index}

-- The tested bit of one byte, `int(b)&(1<<(8-1-uint(k))) > 0`, for `k` below 8.
unfoldable pub bit_of : ℕ → ℕ → ℕ
bit_of b k = if ltb 0 (bit_and b (2 ^ (7 - k))) then 1 else 0

unfoldable pub get_bit_at_from_msb : Bytes → ℕ → Res ℕ
unfolding bit_of index
get_bit_at_from_msb bytes position = do b ← index bytes (position / 8); ok (bit_of b (position % 8))

-- `byte(n | 1<<(8-1-k))` of one byte
unfoldable pub with_bit : ℕ → ℕ → ℕ
with_bit b k = bit_or b (2 ^ (7 - k)) % 256

unfoldable pub set_bit_at_from_msb : Bytes → ℕ → Res Bytes
unfolding with_bit index
set_bit_at_from_msb bytes position = do
  b ← index bytes (position / 8)
  ok (set bytes (position / 8) (with_bit b (position % 8)))

-- The loop of `count_set_bits`, with `n` rounds left from position `i`.
unfoldable pub count_set_bits_loop : ℕ → Bytes → ℕ → ℕ → Res ℕ
unfolding get_bit_at_from_msb
count_set_bits_loop zero bytes i count = ok count
count_set_bits_loop (suc n) bytes i count = do
  b ← get_bit_at_from_msb bytes i
  count_set_bits_loop n bytes (i + 1) (if b == 1 then count + 1 else count)

unfoldable pub count_set_bits : Bytes → Res ℕ
unfolding count_set_bits_loop
count_set_bits bytes = count_set_bits_loop (length bytes * 8) bytes 0 0

-- The loop of `count_common_prefix`; it breaks at the first position where the bits differ.
unfoldable pub count_common_prefix_loop : ℕ → Bytes → Bytes → ℕ → ℕ → Res ℕ
unfolding get_bit_at_from_msb
count_common_prefix_loop zero data1 data2 i count = ok count
count_common_prefix_loop (suc n) data1 data2 i count = do
  a ← get_bit_at_from_msb data1 i
  b ← get_bit_at_from_msb data2 i
  let rest = count_common_prefix_loop n data1 data2 (i + 1) (count + 1)
  if a == b then rest else ok count

unfoldable pub count_common_prefix : Bytes → Bytes → Res ℕ
unfolding count_common_prefix_loop
count_common_prefix data1 data2 = count_common_prefix_loop (length data1 * 8) data1 data2 0 0

unfoldable pub empty_bytes : ℕ → Bytes
empty_bytes n = replicate n 0

-- One swap of `slices[left]` and `slices[right]`.
unfoldable pub swap_slices : List Bytes → ℕ → ℕ → Res (List Bytes)
unfolding index
swap_slices slices left right = do
  a ← index slices left
  b ← index slices right
  ok (set (set slices left b) right a)

-- The loop of `reverse_byte_slices_in_place` on fuel; each round shortens the span by two.
unfoldable pub reverse_loop : ℕ → List Bytes → ℕ → ℕ → Res (List Bytes)
unfolding swap_slices
reverse_loop zero slices left right = ok slices
reverse_loop (suc fuel) slices left right =
    let rest = swap_slices slices left right >>= λ s. reverse_loop fuel s (left + 1) (right - 1) in
    if ltb left right then rest else ok slices

-- As many rounds as there are slices are enough. On an empty slice the code's `right` is -1 and this
-- one's 0: the test fails on both.
unfoldable pub reverse_byte_slices_in_place : List Bytes → Res (List Bytes)
unfolding reverse_loop
reverse_byte_slices_in_place slices = reverse_loop (length slices) slices 0 (length slices - 1)
