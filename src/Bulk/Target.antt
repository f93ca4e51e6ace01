-- ===== src/Bulk/Target.antt =====
-- The trie that a batch in bulk.go leads to: the batch's values over those of the trie that was there.
use smt.Prelude.{
  ℕ, suc, ◌≡◌, ◌≢◌, refl, sym, ap, ◌∙◌, Bool-cases, inl, inr, Option, none, some, Option-cases,
  List, [], ◌∷◌, ◌++◌, length, ◌==◌, arith, All,
}
use smt.Bytes.{Bytes, bytes_equal, bytes_equal→eq, bytes_equal_refl}
use smt.Utils.Bits.{bit}
use smt.TreeHasher.{Hasher, path_size}
use smt.Bulk.{BulkKv, less, same, compare}
use smt.Bulk.Batch.{last_value, Increasing, compare_refl}
use smt.Bulk.Split.{BitIs}
use smt.Bulk.Paths.{Shares, Halves}
use smt.Trie.{Trie, empty, leaf, node, find, Side, WellFormed}
use smt.Trie.Insert.{Full}
use smt.Trie.Canonical.{find_other, find_left, find_right, find_leaf, find-none, two_values}

-- The batch's value, or the old one.
abbrev pub over : Option Bytes → Option Bytes → Option Bytes
over (some v) old = some v
over none old = old

pub over-none : (o : Option Bytes) → over o none ≡ o
over-none none = refl
over-none (some v) = refl

pub last_value-append :
    (xs ys : List BulkKv) (q : Bytes)
    → last_value (xs ++ ys) q ≡ over (last_value ys q) (last_value xs q)
unfolding last_value
last_value-append [] ys q = sym (over-none (last_value ys q))
last_value-append (x ∷ xs) ys q =
    let ih = last_value-append xs ys q in
    elim (Option-cases (last_value ys q)) [
      | inl e ↦ let rest = rw e at ih in rw (rest, e) refl
      | inr (v, e) ↦ let rest = rw e at ih in rw (rest, e) refl
    ]

-- Items with a bit have no value for a path with another bit there.
pub last_value-off :
    (kvs : List BulkKv) (q : Bytes) (i b : ℕ)
    → All (BitIs i b) kvs
    → bit q i ≢ b
    → last_value kvs q ≡ none
unfolding last_value
last_value-off [] q i b all off = refl
last_value-off (kv ∷ rest) q i b all off =
    let later = last_value-off rest q i b all.1 off in
    elim (Bool-cases (bytes_equal kv.path q)) [
      | inl e ↦ absurd (off (ap (λ x. bit x i) (sym (bytes_equal→eq kv.path q e)) ∙ all.0.1))
      | inr e ↦ rw (later, e) refl
    ]

-- Every item's path has a value.
pub last_value-head :
    (kv : BulkKv) (rest : List BulkKv) → (v : Bytes) × (last_value (kv ∷ rest) kv.path ≡ some v)
unfolding last_value
last_value-head kv rest = elim (Option-cases (last_value rest kv.path)) [
  | inl e ↦ (kv.value, rw (e, bytes_equal_refl kv.path) refl)
  | inr (v, e) ↦ (v, rw e refl)
]

pub last_value-later :
    (kv : BulkKv) (rest : List BulkKv) (q v : Bytes)
    → last_value rest q ≡ some v
    → last_value (kv ∷ rest) q ≡ some v
unfolding last_value
last_value-later kv rest q v e = rw e refl

module _ ⦃h : Hasher⦄ where
  -- The trie `u` has the batch's values over those of `t`.
  abbrev pub Target : List BulkKv → Trie → Trie → ℕ → Type 0
  Target kvs t u i =
      (q : Bytes) → length q ≡ path_size → find u q i ≡ over (last_value kvs q) (find t q i)

  -- The values of `t` are those of `l` and `r`, on their sides of the bit `i`.
  pub record Splits (t l r : Trie) (i : ℕ) : Type 0 where
    pub on_left : Side i 0 l
    pub on_right : Side i 1 r
    pub at_zero : (q : Bytes) → bit q i ≡ 0 → find t q i ≡ find l q (suc i)
    pub at_one : (q : Bytes) → bit q i ≡ 1 → find t q i ≡ find r q (suc i)

  pub node-Splits : (l r : Trie) (i : ℕ) → WellFormed i (node l r) → Splits (node l r) l r i
  node-Splits l r i wf = record {
    on_left = wf.1;
    on_right = wf.2;
    at_zero = λ q e. find_left l r q i e;
    at_one = λ q e. find_right l r q i e;
  }

  pub empty-Splits : (i : ℕ) → Splits empty empty empty i
  empty-Splits i = record {
    on_left = tt;
    on_right = tt;
    at_zero = λ q e. find-none q i ∙ sym (find-none q (suc i));
    at_one = λ q e. find-none q i ∙ sym (find-none q (suc i));
  }

  module _ (g : ℕ → ℕ) (i : ℕ) (kvs : List BulkKv) (x : Halves g i kvs) (t l r u l' r' : Trie)
      (old : Splits t l r i) (fresh : Splits u l' r' i) (target : Target kvs t u i) where
    value_at : (q : Bytes) → last_value kvs q ≡ over (last_value x.ones q) (last_value x.zeros q)
    value_at q = ap (λ xs. last_value xs q) x.both ∙ last_value-append x.zeros x.ones q

    -- The items with bit 0 lead from the left child to the new left child.
    pub Target-left : Target x.zeros l l' (suc i)
    Target-left q len = elim (Bool-cases (bit q i == 0)) [
      | inl e ↦
          let nil : bit q i ≡ 0 = ground (arith, e) in
          let off = last_value-off x.ones q i 1 x.all_one (λ one. ground (arith, nil, one)) in
          let here = value_at q ∙ ap (λ o. over o (last_value x.zeros q)) off in
          sym (fresh.at_zero q nil)
          ∙ target q len
          ∙ ap (λ o. over o (find t q i)) here
          ∙ ap (over (last_value x.zeros q)) (old.at_zero q nil)
      | inr e ↦
          let off : bit q i ≢ 0 = λ nil. ground (arith, e, nil) in
          find_other l' q (suc i) i 0 fresh.on_left off
          ∙ sym (
              ap (λ o. over o (find l q (suc i))) (last_value-off x.zeros q i 0 x.all_zero off)
              ∙ find_other l q (suc i) i 0 old.on_left off)
    ]

    pub Target-right : Target x.ones r r' (suc i)
    Target-right q len = elim (Bool-cases (bit q i == 1)) [
      | inl e ↦
          let one : bit q i ≡ 1 = ground (arith, e) in
          let off = last_value-off x.zeros q i 0 x.all_zero (λ nil. ground (arith, nil, one)) in
          let here =
            value_at q ∙ ap (over (last_value x.ones q)) off ∙ over-none (last_value x.ones q) in
          sym (fresh.at_one q one)
          ∙ target q len
          ∙ ap (λ o. over o (find t q i)) here
          ∙ ap (over (last_value x.ones q)) (old.at_one q one)
      | inr e ↦
          let off : bit q i ≢ 1 = λ one. ground (arith, e, one) in
          find_other r' q (suc i) i 1 fresh.on_right off
          ∙ sym (
              ap (λ o. over o (find r q (suc i))) (last_value-off x.ones q i 1 x.all_one off)
              ∙ find_other r q (suc i) i 1 old.on_right off)
    ]

  -- A trie with values at two paths is a node.
  pub two_paths-node :
      (u : Trie) (i : ℕ) (q q' v v' : Bytes)
      → find u q i ≡ some v
      → find u q' i ≡ some v'
      → q ≢ q'
      → (l : Trie) × (r : Trie) × (u ≡ node l r)
  two_paths-node empty i q q' v v' e e' apart =
      absurd (let f : ◌≡◌ {A = Option Bytes} none (some v) = sym (find-none q i) ∙ e in cc)
  two_paths-node (leaf p w) i q q' v v' e e' apart =
      absurd (apart (sym (find_leaf p w q v i e).0 ∙ (find_leaf p w q' v' i e').0))
  two_paths-node (node l r) i q q' v v' e e' apart = (l, r, refl)

  less_apart : (x y : Bytes) → compare x y ≡ less → x ≢ y
  less_apart x y e q = absurd (let f : same ≡ less = sym (compare_refl y) ∙ (rw q at e) in cc)

  -- Two items lead to a node.
  pub batch-node :
      (g : ℕ → ℕ) (a b : BulkKv) (rest : List BulkKv) (t u : Trie) (i : ℕ)
      → All (Shares g i) (a ∷ b ∷ rest)
      → Increasing (a ∷ b ∷ rest)
      → Target (a ∷ b ∷ rest) t u i
      → (l : Trie) × (r : Trie) × (u ≡ node l r)
  batch-node g a b rest t u i ss up target =
      let (v, e) = last_value-head a (b ∷ rest) in
      let (w, f) = last_value-head b rest in
      two_paths-node u i a.path b.path v w
        (target a.path ss.0.0 ∙ ap (λ o. over o (find t a.path i)) e)
        (target b.path ss.1.0.0
          ∙ ap (λ o. over o (find t b.path i)) (last_value-later a (b ∷ rest) b.path w f))
        (less_apart a.path b.path up.0)

  over-some : (o : Option Bytes) (v : Bytes) → (w : Bytes) × (over o (some v) ≡ some w)
  over-some none v = (v, refl)
  over-some (some w) v = (w, refl)

  -- What was a node stays one.
  pub node-node :
      (kvs : List BulkKv) (l r u : Trie) (i : ℕ)
      → WellFormed i (node l r)
      → Full (node l r)
      → Target kvs (node l r) u i
      → (l' : Trie) × (r' : Trie) × (u ≡ node l' r')
  node-node kvs l r u i wf full target =
      let (x, y, apart) = two_values (node l r) i full.0 wf in
      let (v, e) = over-some (last_value kvs x.path) x.value in
      let (w, f) = over-some (last_value kvs y.path) y.value in
      two_paths-node u i x.path y.path v w
        (target x.path x.size ∙ ap (over (last_value kvs x.path)) x.found ∙ e)
        (target y.path y.size ∙ ap (over (last_value kvs y.path)) y.found ∙ f) apart
