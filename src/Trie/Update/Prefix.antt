-- ===== src/Trie/Update/Prefix.antt =====
-- The bits that updateWithSideNodes of smt.go compares, at the end of a walk in a trie.
use smt.Prelude.{
  ℕ, ◌+◌, ◌-◌, ◌*◌, ◌≤◌, ◌<◌, ◌≡◌, ◌≢◌, refl, sym, ap, ◌∙◌, false, Bool-cases, inl, inr, none, some,
  length, ltb, leb, arith, All,
}
use mathlib.Core.Path.{subst}
use smt.Res.{ok}
use smt.Bytes.{Bytes, IsByte, bytes_equal, bytes_equal_iff, bytes_equal_refl}
use smt.Utils.{count_common_prefix}
use smt.Utils.Bits.{bit}
use smt.Utils.Count.{count_common_prefix-CommonPrefix, CommonPrefix-full}
use smt.TreeHasher.{Hasher, digest, path_size, placeholder}
use smt.TreeHasher.Layout.{parse_leaf-leaf_value}
use smt.Tree.Walk.{depth}
use smt.Tree.Write.{common_prefix}
use smt.Trie.{empty, leaf, root_hash, data_of}
use smt.Trie.Walk.{not_placeholder, root_hash-empty}
use smt.Trie.Descend.{Agrees}
use smt.Trie.Update.Path.{Part}

module _ ⦃h : Hasher⦄ where
  pub common_prefix-empty :
      (p : Bytes) → common_prefix p (root_hash empty) (data_of empty) ≡ ok (depth, none)
  unfolding common_prefix
  common_prefix-empty p = rw (root_hash-empty, bytes_equal_refl placeholder)

  module _ (p q w : Bytes) (len : length p ≡ path_size) (size : length q ≡ path_size)
      (nonzero : root_hash (leaf q w) ≢ placeholder) where
    prefix_of_leaf :
        (c : ℕ)
        → count_common_prefix p q ≡ ok c
        → common_prefix p (root_hash (leaf q w)) (data_of (leaf q w)) ≡ ok (c, some (digest w))
    unfolding common_prefix
    prefix_of_leaf c e = rw (not_placeholder _ nonzero, parse_leaf-leaf_value q (digest w) size, e)

    -- The leaf of the path itself shares the whole depth.
    pub common_prefix-same :
        p ≡ q
        → common_prefix p (root_hash (leaf q w)) (data_of (leaf q w)) ≡ ok (depth, some (digest w))
    common_prefix-same e =
        let (c, run, prefix) = count_common_prefix-CommonPrefix p q (len ∙ sym size) in
        let whole : c ≡ depth = elim (Bool-cases (leb (length p * 8) c)) [
          | inl full ↦ ground (arith, full, prefix.within, len)
          | inr less ↦ absurd (prefix.differ (ground (arith, less)) (rw e refl))
        ] in
        prefix_of_leaf c run ∙ ap (λ n. ok (n, some (digest w))) whole

    -- Another leaf that agrees on the first `j` bits shares `k` more.
    pub common_prefix-other :
        bytes_equal q p ≡ false
        → All IsByte p
        → All IsByte q
        → (j : ℕ) → Agrees p j (leaf q w)
        → j ≤ depth
        → (k : ℕ) × (j + k < depth)
          × Part k j p q
          × (common_prefix p (root_hash (leaf q w)) (data_of (leaf q w))
              ≡ ok (j + k, some (digest w)))
    common_prefix-other other bp bq j ag le =
        let (c, run, prefix) = count_common_prefix-CommonPrefix p q (len ∙ sym size) in
        let less : c < depth = elim (Bool-cases (ltb c (length p * 8))) [
          | inl a ↦ ground (arith, a, len)
          | inr b ↦
              let same =
                CommonPrefix-full (len ∙ sym size) bp bq prefix
                  (ground (arith, b, prefix.within)) in
              absurd (ground (arith, other, bytes_equal_iff q p, same))
        ] in
        let beyond : j ≤ c = elim (Bool-cases (leb j c)) [
          | inl a ↦ ground (arith, a)
          | inr b ↦
              absurd (prefix.differ (omega (arith, less, len)) (sym (ag c (ground (arith, b)))))
        ] in
        let at : c ≡ j + (c - j) = omega (arith, beyond) in
        let differ : bit p c ≢ bit q c = prefix.differ (omega (arith, less, len)) in
        (
          c - j,
          omega (arith, less, beyond),
          (λ i lo hi. prefix.agree i (omega (arith, at)), subst (λ n. bit p n ≢ bit q n) at differ),
          prefix_of_leaf c run ∙ ap (λ n. ok (n, some (digest w))) at,
        )
