-- ===== src/Utils/Reverse.antt =====
-- reverseByteSlicesInPlace of utils.go: the loop of swaps reverses.
use smt.Prelude.{
  ℕ, zero, suc, ◌+◌, ◌-◌, ◌≤◌, ◌≡◌, refl, sym, ap, ◌∙◌, true, false, List, [], ◌∷◌, ◌++◌, length,
  set, ltb, arith, length-append, reverse,
}
use mathlib.Core.List.{append_assoc, append-nil, reverse-cons, reverse-append}
use smt.Res.{ok}
use smt.Bytes.{Bytes, index, index-append}
use smt.Utils.{swap_slices, reverse_loop, reverse_byte_slices_in_place}

set-append : (xs ys : List Bytes) (x v : Bytes) → set (xs ++ x ∷ ys) (length xs) v ≡ xs ++ v ∷ ys
set-append [] ys x v = refl
set-append (z ∷ xs) ys x v = ap (◌∷◌ z) (set-append xs ys x v)

-- The two ends of a list of two or more.
record Ends (xs : List Bytes) : Type 0 where
  first : Bytes
  middle : List Bytes
  final : Bytes
  split : xs ≡ first ∷ (middle ++ final ∷ [])

ends : (x y : Bytes) (xs : List Bytes) → Ends (x ∷ y ∷ xs)
ends x y [] = record { first = x; middle = []; final = y; split = refl }
ends x y (z ∷ xs) =
    let e = ends y z xs in
    record { first = x; middle = e.first ∷ e.middle; final = e.final; split = ap (◌∷◌ x) e.split }

module _ (before after middle : List Bytes) (a b : Bytes) where
  regroup :
      (x y : Bytes) → before ++ x ∷ (middle ++ y ∷ after) ≡ (before ++ x ∷ middle) ++ y ∷ after
  regroup x y = sym (append_assoc before (x ∷ middle) (y ∷ after))

  length-front : (x : Bytes) → length (before ++ x ∷ middle) ≡ length before + length middle + 1
  length-front x = omega (arith, length-append before (x ∷ middle))

  index_right :
      (x y : Bytes)
      → index (before ++ x ∷ (middle ++ y ∷ after)) (length before + length middle + 1) ≡ ok y
  index_right x y = rw (regroup x y, ← length-front x) (index-append (before ++ x ∷ middle) after y)

  set_right :
      (x y v : Bytes)
      → set (before ++ x ∷ (middle ++ y ∷ after)) (length before + length middle + 1) v
        ≡ before ++ x ∷ (middle ++ v ∷ after)
  set_right x y v =
      rw (regroup x y, ← length-front x, set-append (before ++ x ∷ middle) after y v, regroup x v)

  -- One swap exchanges the two ends of the span.
  swap_slices_lem :
      swap_slices
        (before ++ a ∷ (middle ++ b ∷ after))
        (length before)
        (length before + length middle + 1)
      ≡ ok (before ++ b ∷ (middle ++ a ∷ after))
  unfolding swap_slices
  swap_slices_lem = rw (
    index-append before (middle ++ b ∷ after) a,
    index_right a b,
    set-append before (middle ++ b ∷ after) a b,
    set_right b b a,
  )

  -- One round of the loop, and what is left to show of it.
  outer_round :
      (fuel left right : ℕ) (span : List Bytes)
      → span ≡ a ∷ (middle ++ b ∷ [])
      → left ≡ length before
      → right ≡ length before + length middle + 1
      → reverse_loop fuel ((before ++ b ∷ []) ++ (middle ++ a ∷ after)) (left + 1) (right - 1)
        ≡ ok ((before ++ b ∷ []) ++ (reverse middle ++ a ∷ after))
      → reverse_loop (suc fuel) (before ++ (span ++ after)) left right
        ≡ ok (before ++ (reverse span ++ after))
  unfolding reverse_loop
  outer_round fuel left right span split l r inner =
      let go : ltb left right ≡ true = ground arith in
      let whole : span ++ after ≡ a ∷ (middle ++ b ∷ after) =
        ap (λ s. s ++ after) split ∙ ap (◌∷◌ a) (append_assoc middle (b ∷ []) after) in
      let turned : reverse span ++ after ≡ b ∷ (reverse middle ++ a ∷ after) =
        ap (λ s. reverse s ++ after) split
        ∙ ap (λ s. s ++ after) (reverse-cons a (middle ++ b ∷ []))
        ∙ ap (λ s. (s ++ a ∷ []) ++ after) (reverse-append middle (b ∷ []))
        ∙ ap (◌∷◌ b) (append_assoc (reverse middle) (a ∷ []) after) in
      rw (whole, turned, go, l, r, swap_slices_lem)
        (rw
          (
            append_assoc before (b ∷ []) (middle ++ a ∷ after),
            append_assoc before (b ∷ []) (reverse middle ++ a ∷ after),
            l,
            r,
          )
          at inner)

-- The span from `left` to `right` is reversed, and what stands around it is kept.
reverse_loop-reverse :
    (fuel : ℕ) (before span after : List Bytes) (left right : ℕ)
    → length span ≤ fuel
    → left ≡ length before
    → right ≡ length before + length span - 1
    → reverse_loop fuel (before ++ (span ++ after)) left right
      ≡ ok (before ++ (reverse span ++ after))
reverse_loop-reverse zero before [] after left right n l r = unfold reverse_loop in refl
reverse_loop-reverse zero before (x ∷ span) after left right n l r = absurd (omega arith)
reverse_loop-reverse (suc fuel) before [] after left right n l r =
    let stop : ltb left right ≡ false = ground arith in unfold reverse_loop in rw stop
reverse_loop-reverse (suc fuel) before (x ∷ []) after left right n l r =
    let stop : ltb left right ≡ false = ground arith in unfold reverse_loop in rw stop
reverse_loop-reverse (suc fuel) before (x ∷ y ∷ span) after left right n l r =
    let e = ends x y span in
    let len : length span ≡ length e.middle =
      omega (arith, ap length e.split, length-append e.middle (e.final ∷ [])) in
    outer_round before after e.middle e.first e.final fuel left right (x ∷ y ∷ span) e.split l
      (omega arith)
      (reverse_loop-reverse fuel (before ++ e.final ∷ []) e.middle (e.first ∷ after) (left + 1)
        (right - 1) (omega arith) (omega (arith, length-append before (e.final ∷ [])))
        (omega (arith, length-append before (e.final ∷ []))))

-- The loop of swaps returns the slices in reverse order, and never indexes out of range.
pub reverse_byte_slices_in_place-reverse :
    (slices : List Bytes) → reverse_byte_slices_in_place slices ≡ ok (reverse slices)
unfolding reverse_byte_slices_in_place
reverse_byte_slices_in_place-reverse slices =
    rw (append-nil, append-nil) at
      (reverse_loop-reverse (length slices) [] slices [] 0 (length slices - 1) (omega arith) refl
        (omega arith))
