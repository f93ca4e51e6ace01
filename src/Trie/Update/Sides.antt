-- ===== src/Trie/Update/Sides.antt =====
-- Which side node updateWithSideNodes of smt.go takes at each height.
use smt.Prelude.{
  length-reverse, ℕ, zero, suc, ◌+◌, ◌-◌, ◌≤◌, ◌<◌, ◌≡◌, refl, ap, ◌∙◌, true, false, not, ◌&&◌, inl,
  inr, none, some, Option-cases, List, [], ◌∷◌, ◌++◌, length, replicate, reverse, ltb, ◌==◌,
  if◌then◌else◌, arith,
}
use mathlib.Core.List.{reverse-cons}
use smt.Res.{ok}
use smt.Bytes.{Bytes, index, index-append}
use smt.TreeHasher.{Hasher, placeholder}
use smt.Tree.Walk.{depth}
use smt.Tree.Write.{side_at}
use smt.Trie.Update.Loop.{nth}

nth_lt : (xs : List Bytes) (n : ℕ) (x : Bytes) → nth xs n ≡ some x → n < length xs
nth_lt [] n x e = absurd cc
nth_lt (y ∷ xs) zero x e = omega arith
nth_lt (y ∷ xs) (suc n) x e = omega (arith, nth_lt xs n x e)

nth-none : (xs : List Bytes) (n : ℕ) → nth xs n ≡ none → length xs ≤ n
nth-none [] n e = omega arith
nth-none (y ∷ xs) zero e = absurd cc
nth-none (y ∷ xs) (suc n) e = omega (arith, nth-none xs n e)

nth-append_replicate :
    (xs : List Bytes) (k : ℕ) (x : Bytes) (n : ℕ)
    → nth (xs ++ replicate k x) n
      ≡ (if ltb n (length xs) then nth xs n else (if ltb n (length xs + k) then some x else none))
nth-append_replicate [] zero x n = ground arith
nth-append_replicate [] (suc k) x zero = ground arith
nth-append_replicate [] (suc k) x (suc n) = nth-append_replicate [] k x n ∙ ground arith
nth-append_replicate (y ∷ xs) k x zero = ground arith
nth-append_replicate (y ∷ xs) k x (suc n) = nth-append_replicate xs k x n ∙ ground arith

index-append_left : (xs ys : List Bytes) (i : ℕ) → i < length xs → index (xs ++ ys) i ≡ index xs i
unfolding index
index-append_left [] ys i lt = absurd (omega arith)
index-append_left (x ∷ xs) ys zero lt = refl
index-append_left (x ∷ xs) ys (suc i) lt = index-append_left xs ys i (omega arith)

-- The list from the bottom up is read from its end.
index-reverse :
    (xs : List Bytes) (n : ℕ) (x : Bytes)
    → nth xs n ≡ some x
    → (i : ℕ) → i + suc n ≡ length xs
    → index (reverse xs) i ≡ ok x
index-reverse [] n x e i at = absurd (omega arith)
index-reverse (y ∷ xs) zero x e i at =
    let same : y ≡ x = cc in
    let size : length (reverse xs) ≡ length xs = length-reverse xs in
    let place : length (reverse xs) ≡ i = omega (arith, size, at) in
    rw (reverse-cons, ← place, index-append (reverse xs) [] y) (ap ok same)
index-reverse (y ∷ xs) (suc n) x e i at = rw reverse-cons (
    index-append_left (reverse xs) (y ∷ []) i (omega (arith, length-reverse xs, nth_lt xs n x e))
    ∙ index-reverse xs n x e i (omega arith))

module _ ⦃h : Hasher⦄ where
  -- The side nodes of the walk, followed from the top by `k` placeholders.
  pub side_at-nth :
      (sides : List Bytes) (k common n : ℕ)
      → length sides ≤ depth
      → n < depth
      → (length sides ≤ n → (not (common == depth) && ltb n common) ≡ ltb n (length sides + k))
      → side_at (reverse sides) common (depth - suc n) n
        ≡ ok (nth (sides ++ replicate k placeholder) n)
  unfolding side_at
  side_at-nth sides k common n le lt pads =
      let size = length-reverse sides in
      elim (Option-cases (nth sides n)) [
        | inl e ↦
            let past = nth-none sides n e in
            let above : ltb (depth - suc n + length (reverse sides)) depth ≡ true =
              ground (arith, size, past, lt) in
            let over : ltb n (length sides) ≡ false = ground (arith, past) in
            rw (above, pads past, nth-append_replicate sides k placeholder n, over) (ground arith)
        | inr (x, e) ↦
            let inside = nth_lt sides n x e in
            let below : ltb (depth - suc n + length (reverse sides)) depth ≡ false =
              ground (arith, size, inside, lt) in
            let under : ltb n (length sides) ≡ true = ground (arith, inside) in
            rw (
              below,
              nth-append_replicate sides k placeholder n,
              under,
              e,
              index-reverse sides n x e (depth - suc n + length (reverse sides) - depth)
                  (omega (arith, size, inside, lt)),
            )
      ]
