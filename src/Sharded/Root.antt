-- ===== src/Sharded/Root.antt =====
-- computeRoot of sharded.go: the loop over the levels gives the root of the balanced tree.
use native.Mathlib.Numerals.{unary_clauses}
use smt.Prelude.{
  ℕ, zero, suc, ◌+◌, ◌^◌, ◌≤◌, ◌<◌, ◌≡◌, refl, sym, ap, ◌∙◌, true, List, [], ◌∷◌, length, map, take,
  drop, get_or, ltb, arith, length-take, length-drop,
}
use smt.Res.{ok}
use smt.Bytes.{Bytes, index}
use smt.TreeHasher.{Hasher}
use smt.Sharded.{merge_hash, next_level, fold_levels, combine, compute_root, ShardedSmt}
use smt.Tree.{SparseMerkleTree}

-- The number of leaves of a balanced tree.
abbrev pub width : ℕ → ℕ
width zero = 1
width (suc k) = width k + width k

width_pos : (k : ℕ) → 0 < width k
width_pos zero = omega arith
width_pos (suc k) = omega (arith, width_pos k)

width_above : (k : ℕ) → k < width k
width_above zero = omega arith
width_above (suc k) = omega (arith, width_above k)

take_none : (n : ℕ) → ◌≡◌ {A = List Bytes} (take n []) []
take_none zero = refl
take_none (suc n) = refl

drop_none : (n : ℕ) → ◌≡◌ {A = List Bytes} (drop n []) []
drop_none zero = refl
drop_none (suc n) = refl

length-map : {A B : Type 0} (f : A → B) (xs : List A) → length (map f xs) ≡ length xs
length-map f [] = refl
length-map f (x ∷ xs) = ap suc (length-map f xs)

width_lem : (k : ℕ) → width k ≡ 2 ^ k
width_lem zero = refl
width_lem (suc k) = simp unary_clauses (omega (arith, width_lem k))

module _ ⦃h : Hasher⦄ where
  -- The root of the balanced tree with the leaves given: each half has its own root.
  unfoldable pub balanced : ℕ → List Bytes → Bytes
  balanced zero roots = get_or roots 0 []
  balanced (suc k) roots =
      merge_hash (balanced k (take (width k) roots)) (balanced k (drop (width k) roots))

  next_level-take :
      (n : ℕ) (xs : List Bytes) → next_level (take (n + n) xs) ≡ take n (next_level xs)
  unfolding next_level
  next_level-take zero xs = refl
  next_level-take (suc n) [] = let two : suc n + suc n ≡ suc (suc (n + n)) = omega arith in rw two
  next_level-take (suc n) (a ∷ []) =
      let two : suc n + suc n ≡ suc (suc (n + n)) = omega arith in
      rw two (ap (◌∷◌ (merge_hash a a)) (sym (take_none n)))
  next_level-take (suc n) (a ∷ b ∷ xs) =
      let two : suc n + suc n ≡ suc (suc (n + n)) = omega arith in
      rw two (ap (◌∷◌ (merge_hash a b)) (next_level-take n xs))

  next_level-drop :
      (n : ℕ) (xs : List Bytes) → next_level (drop (n + n) xs) ≡ drop n (next_level xs)
  unfolding next_level
  next_level-drop zero xs = refl
  next_level-drop (suc n) [] = let two : suc n + suc n ≡ suc (suc (n + n)) = omega arith in rw two
  next_level-drop (suc n) (a ∷ []) =
      let two : suc n + suc n ≡ suc (suc (n + n)) = omega arith in rw two (sym (drop_none n))
  next_level-drop (suc n) (a ∷ b ∷ xs) =
      let two : suc n + suc n ≡ suc (suc (n + n)) = omega arith in rw two (next_level-drop n xs)

  length-next_level : (n : ℕ) (xs : List Bytes) → length xs ≡ n + n → length (next_level xs) ≡ n
  unfolding next_level
  length-next_level zero [] e = refl
  length-next_level (suc n) [] e = absurd (omega arith)
  length-next_level n (a ∷ []) e = absurd (omega arith)
  length-next_level zero (a ∷ b ∷ xs) e = absurd (omega arith)
  length-next_level (suc n) (a ∷ b ∷ xs) e = ap suc (length-next_level n xs (omega arith))

  balanced-next_level :
      (k : ℕ) (xs : List Bytes)
      → length xs ≡ width (suc k)
      → balanced (suc k) xs ≡ balanced k (next_level xs)
  unfolding balanced next_level
  balanced-next_level zero [] e = absurd (omega arith)
  balanced-next_level zero (a ∷ []) e = absurd (omega arith)
  balanced-next_level zero (a ∷ b ∷ []) e = refl
  balanced-next_level zero (a ∷ b ∷ c ∷ xs) e = absurd (omega arith)
  balanced-next_level (suc k) xs e =
      let w = width (suc k) in
      let left = length-take w xs (omega (arith, e)) in
      let right : length (drop w xs) ≡ w = omega (arith, e, length-drop w xs) in
      rw (
        balanced-next_level k (take w xs) left,
        balanced-next_level k (drop w xs) right,
        next_level-take (width k) xs,
        next_level-drop (width k) xs,
      )

  -- A round over more than one node.
  fold_levels-next_level :
      (fuel : ℕ) (xs : List Bytes)
      → 1 < length xs
      → fold_levels (suc fuel) xs ≡ fold_levels fuel (next_level xs)
  unfolding fold_levels
  fold_levels-next_level fuel xs h = let go : ltb 1 (length xs) ≡ true = ground arith in rw go

  fold_levels-balanced :
      (fuel k : ℕ) (xs : List Bytes)
      → length xs ≡ width k
      → k ≤ fuel
      → fold_levels fuel xs ≡ balanced k xs ∷ []
  fold_levels-balanced fuel zero [] e few = absurd (omega arith)
  fold_levels-balanced zero zero (a ∷ []) e few = unfold fold_levels balanced in refl
  fold_levels-balanced (suc fuel) zero (a ∷ []) e few = unfold fold_levels balanced in refl
  fold_levels-balanced fuel zero (a ∷ b ∷ xs) e few = absurd (omega arith)
  fold_levels-balanced zero (suc k) xs e few = absurd (omega arith)
  fold_levels-balanced (suc fuel) (suc k) xs e few =
      fold_levels-next_level fuel xs (omega (arith, e, width_pos k))
      ∙ fold_levels-balanced fuel k (next_level xs) (length-next_level (width k) xs e) (omega arith)
      ∙ ap (λ b. b ∷ []) (sym (balanced-next_level k xs e))

  -- With 2 ^ k shards, the combined root is the root of the balanced binary tree over the shards'
  -- roots, in which each half of the shards has a root of its own, and no shard is changed.
  pub compute_root-balanced :
      {N V : Type 0} (k : ℕ) (s : ShardedSmt N V)
      → length s.shards ≡ 2 ^ k
      → compute_root s ≡ (ok (balanced k (map (λ (t : SparseMerkleTree N V). t.root) s.shards)), s)
  unfolding compute_root combine index
  compute_root-balanced {N} {V} k s e =
      let roots = map (λ (t : SparseMerkleTree N V). t.root) s.shards in
      let size =
        length-map (λ (t : SparseMerkleTree N V). t.root) s.shards ∙ e ∙ sym (width_lem k) in
      rw (fold_levels-balanced (length roots) k roots size (omega (arith, size, width_above k)))
