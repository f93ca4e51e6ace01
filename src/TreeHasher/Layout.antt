-- ===== src/TreeHasher/Layout.antt =====
-- What parseLeaf, parseNode and isLeaf of treehasher.go read back from the data that digestLeaf and
-- digestNode build, and when that data determines its parts.
use smt.Prelude.{
  ℕ, suc, ◌+◌, ◌≤◌, ◌≡◌, ◌≢◌, refl, sym, ap, ◌∙◌, true, false, List, ◌∷◌, ◌++◌, length, take, drop,
  leb, arith, length-append, take-append, drop-append, length-replicate, length-take, length-drop,
}
use smt.Res.{ok}
use smt.Bytes.{Bytes}
use smt.TreeHasher.{
  Hasher, path_size, placeholder, leaf_value, node_value, parse_leaf, parse_node, is_leaf,
}

-- The two halves of a list that was joined, by the length of the first.
pub append_inj_left {ℓ} :
    {A : Type ℓ} (xs ys us vs : List A) → length xs ≡ length us → xs ++ ys ≡ us ++ vs → xs ≡ us
append_inj_left xs ys us vs e h =
    sym (take-append (length xs) xs ys refl)
    ∙ ap (take (length xs)) h
    ∙ take-append (length xs) us vs (sym e)

pub append_inj_right {ℓ} :
    {A : Type ℓ} (xs ys us vs : List A) → length xs ≡ length us → xs ++ ys ≡ us ++ vs → ys ≡ vs
append_inj_right xs ys us vs e h =
    sym (drop-append (length xs) xs ys refl)
    ∙ ap (drop (length xs)) h
    ∙ drop-append (length xs) us vs (sym e)

one-add : (n : ℕ) → 1 + n ≡ suc n
one-add n = omega arith

module _ ⦃h : Hasher⦄ where
  pub length-placeholder : length placeholder ≡ path_size
  unfolding placeholder
  length-placeholder = length-replicate path_size 0

  pub is_leaf-leaf_value : (p d : Bytes) → is_leaf (leaf_value p d) ≡ ok true
  unfolding is_leaf leaf_value
  is_leaf-leaf_value p d = ground arith

  pub is_leaf-node_value : (l r : Bytes) → is_leaf (node_value l r) ≡ ok false
  unfolding is_leaf node_value
  is_leaf-node_value l r = ground arith

  pub leaf_value-ne-node_value : (p d l r : Bytes) → leaf_value p d ≢ node_value l r
  unfolding leaf_value node_value
  leaf_value-ne-node_value p d l r e = ground arith

  split_after_prefix :
      (x : ℕ) (l r : Bytes)
      → length l ≡ path_size
      → (leb (path_size + 1) (length (x ∷ (l ++ r))) ≡ true)
        × (take path_size (l ++ r) ≡ l)
        × (drop (1 + path_size) (x ∷ (l ++ r)) ≡ r)
  split_after_prefix x l r e = (
    ground (arith, length-append l r),
    take-append path_size l r e,
    rw one-add (drop-append path_size l r e),
  )

  pub parse_leaf-leaf_value :
      (p d : Bytes) → length p ≡ path_size → parse_leaf (leaf_value p d) ≡ ok (p, d)
  unfolding parse_leaf leaf_value
  parse_leaf-leaf_value p d e =
      let (fits, first, second) = split_after_prefix 0 p d e in rw (fits, first, second)

  pub parse_node-node_value :
      (l r : Bytes) → length l ≡ path_size → parse_node (node_value l r) ≡ ok (l, r)
  unfolding parse_node node_value
  parse_node-node_value l r e =
      let (fits, first, second) = split_after_prefix 1 l r e in rw (fits, first, second)

  -- A leaf's data parses as soon as it is long enough, into a path of full length.
  pub parse_leaf-long :
      (d : Bytes)
      → path_size + 1 ≤ length d
      → (p : Bytes) × (v : Bytes) × (parse_leaf d ≡ ok (p, v)) × (length p ≡ path_size)
  unfolding parse_leaf
  parse_leaf-long d n = (
    take path_size (drop 1 d),
    drop (1 + path_size) d,
    ground arith,
    length-take path_size (drop 1 d) (omega (arith, length-drop 1 d)),
  )

  pub node_value-left :
      (l r u v : Bytes) → length l ≡ length u → node_value l r ≡ node_value u v → l ≡ u
  unfolding node_value
  node_value-left l r u v e q = append_inj_left l r u v e (ap (drop 1) q)

  pub node_value-right :
      (l r u v : Bytes) → length l ≡ length u → node_value l r ≡ node_value u v → r ≡ v
  unfolding node_value
  node_value-right l r u v e q = append_inj_right l r u v e (ap (drop 1) q)

  pub leaf_value-path :
      (p d q e : Bytes) → length p ≡ length q → leaf_value p d ≡ leaf_value q e → p ≡ q
  unfolding leaf_value
  leaf_value-path p d q e n x = append_inj_left p d q e n (ap (drop 1) x)

  pub leaf_value-data :
      (p d q e : Bytes) → length p ≡ length q → leaf_value p d ≡ leaf_value q e → d ≡ e
  unfolding leaf_value
  leaf_value-data p d q e n x = append_inj_right p d q e n (ap (drop 1) x)
