-- ===== src/Trie/Canonical.antt =====
-- A trie with at least two leaves below each node is fixed by its values, so the root of smt.go's tree
-- does not tell in which order the values were written.
use smt.Prelude.{
  [], ℕ, suc, ◌≤◌, ◌≡◌, ◌≢◌, refl, sym, ap, ◌∙◌, true, false, Bool-cases, inl, inr, Option, none,
  some, Option-cases, length, leb, ◌==◌, arith,
}
use mathlib.Core.Path.{ap₂}
use smt.Bytes.{Bytes, bytes_equal, bytes_equal_iff, bytes_equal_refl}
use smt.Utils.Bits.{bit}
use smt.TreeHasher.{Hasher, path_size}
use smt.MapStore.{MapStore}
use smt.Tree.{SparseMerkleTree}
use smt.Trie.{Trie, empty, leaf, node, root_hash, find, Side, WellFormed}
use smt.Trie.Walk.{HashKeyed}
use smt.Trie.Represents.{Represents}
use smt.Trie.Insert.{leaves, Full}

module _ ⦃h : Hasher⦄ where
  -- The tries have the same values from depth `i` on.
  abbrev pub SameValues : ℕ → Trie → Trie → Type 0
  SameValues i t u = (q : Bytes) → length q ≡ path_size → find t q i ≡ find u q i

  -- What is found stands on its leaf's side.
  pub find-Side :
      (t : Trie) (q v : Bytes) (i j b : ℕ) → Side j b t → find t q i ≡ some v → bit q j ≡ b
  unfolding find
  find-Side empty q v i j b side e = absurd cc
  find-Side (leaf p w) q v i j b side e =
      let same : p ≡ q = ground (arith, bytes_equal_iff p q, e) in
      ap (λ x. bit x j) (sym same) ∙ side
  find-Side (node l r) q v i j b side e = elim (Bool-cases (bit q i == 1)) [
    | inl o ↦ find-Side r q v (suc i) j b side.1 (rw o at e)
    | inr o ↦ find-Side l q v (suc i) j b side.0 (rw o at e)
  ]

  -- On the other side nothing is found.
  pub find_other : (t : Trie) (q : Bytes) (i j b : ℕ) → Side j b t → bit q j ≢ b → find t q i ≡ none
  find_other t q i j b side off = elim (Option-cases (find t q i)) [
    | inl e ↦ e
    | inr (v, e) ↦ absurd (off (find-Side t q v i j b side e))
  ]

  pub find_left :
      (l r : Trie) (q : Bytes) (i : ℕ) → bit q i ≡ 0 → find (node l r) q i ≡ find l q (suc i)
  unfolding find
  find_left l r q i e = let left : (bit q i == 1) ≡ false = ground (arith, e) in rw left refl

  pub find_right :
      (l r : Trie) (q : Bytes) (i : ℕ) → bit q i ≡ 1 → find (node l r) q i ≡ find r q (suc i)
  unfolding find
  find_right l r q i e = let right : (bit q i == 1) ≡ true = ground (arith, e) in rw right refl

  pub find_own : (p v : Bytes) (i : ℕ) → find (leaf p v) p i ≡ some v
  unfolding find
  find_own p v i = rw (bytes_equal_refl p) refl

  pub find_leaf : (p v q w : Bytes) (i : ℕ) → find (leaf p v) q i ≡ some w → (p ≡ q) × (v ≡ w)
  unfolding find
  find_leaf p v q w i e = (
    ground (arith, bytes_equal_iff p q, e),
    elim (Bool-cases (bytes_equal p q)) [
      | inl o ↦ some-inj (rw o at e)
      | inr o ↦ absurd (let f : ◌≡◌ {A = Option Bytes} none (some w) = rw o at e in cc)
    ],
  )
    where
      some-inj : {a b : Bytes} → ◌≡◌ {A = Option Bytes} (some a) (some b) → a ≡ b
      some-inj e = cc

  pub find-none : (q : Bytes) (i : ℕ) → find empty q i ≡ none
  unfolding find
  find-none q i = refl

  -- A value of a well formed trie is not the default value.
  pub find_nonempty :
      (t : Trie) (q v : Bytes) (i : ℕ) → WellFormed i t → find t q i ≡ some v → v ≢ []
  unfolding find
  find_nonempty empty q v i wf e = absurd cc
  find_nonempty (leaf p w) q v i wf e = elim (Bool-cases (bytes_equal p q)) [
    | inl at ↦
        let same : ◌≡◌ {A = Option Bytes} (some w) (some v) = rw at at e in
        λ nil. wf.2 (let eq : w ≡ v = cc in eq ∙ nil)
    | inr off ↦ absurd (let f : ◌≡◌ {A = Option Bytes} none (some v) = rw off at e in cc)
  ]
  find_nonempty (node l r) q v i wf e = elim (Bool-cases (bit q i == 1)) [
    | inl o ↦ find_nonempty r q v (suc i) wf.4 (rw o at e)
    | inr o ↦ find_nonempty l q v (suc i) wf.3 (rw o at e)
  ]

  -- A value of a trie and its path.
  pub record Value (i : ℕ) (t : Trie) : Type 0 where
    pub path : Bytes
    pub value : Bytes
    pub size : length path ≡ path_size
    pub found : find t path i ≡ some value

  module _ (l r : Trie) (i : ℕ) (wf : WellFormed i (node l r)) where
    from_left : Value (suc i) l → Value i (node l r)
    from_left x = record {
      path = x.path;
      value = x.value;
      size = x.size;
      found =
          find_left l r x.path i (find-Side l x.path x.value (suc i) i 0 wf.1 x.found) ∙ x.found;
    }

    from_right : Value (suc i) r → Value i (node l r)
    from_right x = record {
      path = x.path;
      value = x.value;
      size = x.size;
      found =
          find_right l r x.path i (find-Side r x.path x.value (suc i) i 1 wf.2 x.found) ∙ x.found;
    }

  first_value : (t : Trie) (i : ℕ) → 1 ≤ leaves t → WellFormed i t → Value i t
  first_value empty i n wf = absurd (omega arith)
  first_value (leaf p v) i n wf = record {
    path = p;
    value = v;
    size = wf.0;
    found = find_own p v i;
  }
  first_value (node l r) i n wf = elim (Bool-cases (leb 1 (leaves l))) [
    | inl o ↦ from_left l r i wf (first_value l (suc i) (ground (arith, o)) wf.3)
    | inr o ↦ from_right l r i wf (first_value r (suc i) (ground (arith, o, n)) wf.4)
  ]

  zero_one : ◌≡◌ {A = ℕ} 0 1 → ⊥
  zero_one e = absurd (omega (arith, e))

  -- Two leaves have two paths.
  pub two_values :
      (t : Trie) (i : ℕ)
      → 2 ≤ leaves t
      → WellFormed i t
      → (x : Value i t) × (y : Value i t) × (x.path ≢ y.path)
  unfolding from_left from_right
  two_values empty i n wf = absurd (omega arith)
  two_values (leaf p v) i n wf = absurd (omega arith)
  two_values (node l r) i n wf = elim (Bool-cases (leb 1 (leaves l))) [
    | inr none_left ↦
        let (x, y, apart) = two_values r (suc i) (ground (arith, none_left, n)) wf.4 in
        (from_right l r i wf x, from_right l r i wf y, apart)
    | inl left ↦ elim (Bool-cases (leb 1 (leaves r))) [
      | inr none_right ↦
          let (x, y, apart) = two_values l (suc i) (ground (arith, none_right, n)) wf.3 in
          (from_left l r i wf x, from_left l r i wf y, apart)
      | inl right ↦
          let x = first_value l (suc i) (ground (arith, left)) wf.3 in
          let y = first_value r (suc i) (ground (arith, right)) wf.4 in
          let zero_bit = find-Side l x.path x.value (suc i) i 0 wf.1 x.found in
          let one_bit = find-Side r y.path y.value (suc i) i 1 wf.2 y.found in
          (
            from_left l r i wf x,
            from_right l r i wf y,
            λ e. zero_one (sym zero_bit ∙ ap (λ q. bit q i) e ∙ one_bit),
          )
    ]
  ]

  no_value : (t : Trie) (i : ℕ) → SameValues i empty t → 1 ≤ leaves t → WellFormed i t → ⊥
  no_value t i same n wf =
      let x = first_value t i n wf in
      let found : ◌≡◌ {A = Option Bytes} none (some x.value) =
        sym (find-none x.path i) ∙ same x.path x.size ∙ x.found in
      absurd cc

  one_value :
      (p v : Bytes) (t : Trie) (i : ℕ)
      → SameValues i (leaf p v) t
      → 2 ≤ leaves t
      → WellFormed i t
      → ⊥
  one_value p v t i same n wf =
      let (x, y, apart) = two_values t i n wf in
      let at =
        λ (z : Value i t). (find_leaf p v z.path z.value i (same z.path z.size ∙ z.found)).0 in
      apart (sym (at x) ∙ at y)

  module _ (l r l' r' : Trie) (i : ℕ) (wf : WellFormed i (node l r))
      (wf' : WellFormed i (node l' r')) (same : SameValues i (node l r) (node l' r')) where
    same_left : SameValues (suc i) l l'
    same_left q e = elim (Bool-cases (bit q i == 0)) [
      | inl o ↦
          let nil : bit q i ≡ 0 = ground (arith, o) in
          sym (find_left l r q i nil) ∙ same q e ∙ find_left l' r' q i nil
      | inr o ↦
          let off : bit q i ≢ 0 = λ x. ground (arith, o, x) in
          find_other l q (suc i) i 0 wf.1 off ∙ sym (find_other l' q (suc i) i 0 wf'.1 off)
    ]

    same_right : SameValues (suc i) r r'
    same_right q e = elim (Bool-cases (bit q i == 1)) [
      | inl o ↦
          let one : bit q i ≡ 1 = ground (arith, o) in
          sym (find_right l r q i one) ∙ same q e ∙ find_right l' r' q i one
      | inr o ↦
          let off : bit q i ≢ 1 = λ x. ground (arith, o, x) in
          find_other r q (suc i) i 1 wf.2 off ∙ sym (find_other r' q (suc i) i 1 wf'.2 off)
    ]

  SameValues-sym : (i : ℕ) (t u : Trie) → SameValues i t u → SameValues i u t
  SameValues-sym i t u same q e = sym (same q e)

  -- Well formed tries with two leaves below each node are equal if they have the same values.
  pub find_determines :
      (t u : Trie) (i : ℕ)
      → WellFormed i t
      → WellFormed i u
      → Full t
      → Full u
      → SameValues i t u
      → t ≡ u
  find_determines empty empty i wt wu ft fu same = refl
  find_determines empty (leaf q w) i wt wu ft fu same =
      absurd (no_value (leaf q w) i same (omega arith) wu)
  find_determines empty (node l r) i wt wu ft fu same =
      absurd (no_value (node l r) i same (omega (arith, fu.0)) wu)
  find_determines (leaf p v) empty i wt wu ft fu same =
      absurd (no_value (leaf p v) i (SameValues-sym i (leaf p v) empty same) (omega arith) wt)
  find_determines (leaf p v) (leaf q w) i wt wu ft fu same =
      let (e, x) = find_leaf p v q w i (same q wu.0 ∙ find_own q w i) in ap₂ leaf e x
  find_determines (leaf p v) (node l r) i wt wu ft fu same =
      absurd (one_value p v (node l r) i same fu.0 wu)
  find_determines (node l r) empty i wt wu ft fu same =
      absurd
        (no_value (node l r) i (SameValues-sym i (node l r) empty same) (omega (arith, ft.0)) wt)
  find_determines (node l r) (leaf q w) i wt wu ft fu same =
      absurd (one_value q w (node l r) i (SameValues-sym i (node l r) (leaf q w) same) ft.0 wt)
  find_determines (node l r) (node l' r') i wt wu ft fu same =
      ap₂ node (find_determines l l' (suc i) wt.3 wu.3 ft.1 fu.1 (same_left l r l' r' i wt wu same))
        (find_determines r r' (suc i) wt.4 wu.4 ft.2 fu.2 (same_right l r l' r' i wt wu same))

  module _ {N V : Type 0} ⦃ns : MapStore N⦄ ⦃vs : MapStore V⦄ (nodes : HashKeyed ns)
      (values : HashKeyed vs) where
    -- Two states that stand for tries with two leaves below each node have the same root if their value
    -- stores have the same values, whatever the order in which these were written.
    pub values-root :
        (s s' : SparseMerkleTree N V) (t u : Trie)
        → Represents nodes values s t
        → Represents nodes values s' u
        → Full t
        → Full u
        → ((q : Bytes)
            → length q ≡ path_size
            → values.lookup s.values q ≡ values.lookup s'.values q)
        → s.root ≡ s'.root
    values-root s s' t u a b ft fu same =
        a.top
        ∙ ap root_hash (
            find_determines t u 0 a.well_formed b.well_formed ft fu
              (λ q e. sym (a.exact q e) ∙ same q e ∙ b.exact q e))
        ∙ sym b.top
