-- ===== src/DeepSubTree/Branch.antt =====
-- AddBranch of deepsubtree.go and then GetDescend of the key: the branch is found.
use smt.Prelude.{
  ℕ, zero, suc, ◌+◌, ◌≤◌, ◌<◌, ◌≡◌, ◌≢◌, refl, sym, ap, ◌∙◌, true, false, Bool, Bool-cases, inl,
  inr, ◌⊎◌, Option, none, some, List, [], ◌∷◌, length, ◌==◌, if◌then◌else◌, arith, All,
}
use mathlib.Core.Path.{subst}
use native.Mathlib.Numerals.{add-one}
use smt.Res.{Res, ok}
use smt.Bytes.{Bytes, bytes_equal, bytes_equal→eq, bytes_equal_iff, bytes_equal_refl}
use smt.Utils.Bits.{bit, get_bit_at_from_msb_lem}
use smt.TreeHasher.{Hasher, digest, path_size, placeholder, leaf_value, node_value}
use smt.TreeHasher.Layout.{
  is_leaf-leaf_value, is_leaf-node_value, parse_leaf-leaf_value, parse_node-node_value,
  length-placeholder,
}
use smt.TreeHasher.Collisions.{CollisionFree}
use smt.MapStore.{MapStore, found}
use smt.Proofs.{Update, SparseMerkleProof, sanity_check, sibling_fits, join}
use smt.Proofs.Climb.{IsHash, fold_down, SeenDown}
use smt.Proofs.Soundness.{Begins}
use smt.Proofs.Starts.{Start, absent, other, present, join-digest, fold_down-IsHash}
use smt.Proofs.Digests.{IsUpdate}
use smt.Tree.{SparseMerkleTree}
use smt.Tree.Run.{return}
use smt.Tree.Walk.{depth}
use smt.Tree.Api.{default_value}
use smt.DeepSubTree.{set_nodes, set_sibling, descend_loop}
use smt.Trie.Walk.{HashKeyed, not_placeholder}
use smt.Trie.Effects.{Held, Keeps, Keeps-refl, Keeps-trans, nodes_set_lem}

-- Whether a proof is a non-membership proof that shows another key's leaf.
abbrev pub shows_other : Bytes → Option Bytes → Bool
shows_other [] none = false
shows_other [] (some leaf_data) = true
shows_other (b ∷ bs) leaf_data = false

module _ ⦃h : Hasher⦄ where
  -- What the code makes of the node over a side node and a hash: it goes on at that hash.
  next_at :
      (b : ℕ) (side below : Bytes)
      → (l : Bytes) × (r : Bytes) × ((join b side below).1 ≡ node_value l r)
        × (IsHash side → IsHash below → IsHash l)
        × ((if b == 1 then r else l) ≡ below)
  unfolding join
  next_at b side below = elim (Bool-cases (b == 1)) [
    | inl e ↦ (side, below, rw e refl, λ x y. x, rw e refl)
    | inr e ↦ (below, side, rw e refl, λ x y. y, rw e refl)
  ]

  Start-cases :
      (S : Bytes → Type 0) (p value leaf : Bytes)
      → Start S p value leaf
      → ((value ≡ []) × (leaf ≡ placeholder))
        ⊎ ((q : Bytes) × (v : Bytes) × S (leaf_value q v)
            × (leaf ≡ digest (leaf_value q v))
            × (((value ≡ []) × (q ≢ p) × IsHash q) ⊎ ((value ≢ []) × (q ≡ p))))
  Start-cases S p value leaf (absent e) = inl (refl, e)
  Start-cases S p value leaf (other q v off size seen e) =
      inr (q, v, seen, e, inl (refl, off, size))
  Start-cases S p value leaf (present b bs seen e) =
      inr (p, digest (b ∷ bs), seen, e, inr (λ nil. absurd cc, refl))

  -- The sibling's data hashes to the first side node.
  pub sanity_check-sibling :
      (proof : SparseMerkleProof) (d v : Bytes) (rest : List Bytes)
      → sanity_check proof ≡ true
      → proof.sibling_data ≡ some d
      → proof.side_nodes ≡ v ∷ rest
      → v ≡ digest d
  unfolding sanity_check
  sanity_check-sibling proof d v rest e at nodes =
      let fits : sibling_fits proof.sibling_data proof.side_nodes ≡ true = ground arith in
      let here : bytes_equal v (digest d) ≡ true = rw (at, nodes) at fits in
      bytes_equal→eq v (digest d) here

module _ ⦃h : Hasher⦄ {N V : Type 0} ⦃ns : MapStore N⦄ ⦃vs : MapStore V⦄ (nodes : HashKeyed ns)
    (values : HashKeyed vs) (Seen : Bytes → Type 0) (free : CollisionFree Seen) (p value : Bytes)
    (len : length p ≡ path_size) where
  -- Data that is seen and held.
  abbrev pub There : SparseMerkleTree N V → Bytes → Type 0
  There s d = Seen d × Held nodes s.nodes d

  -- With `n` rounds left at depth `i` the descent from a hash answers with `out`.
  abbrev pub Reads : SparseMerkleTree N V → Res Bytes → ℕ → ℕ → Bytes → Type 0
  Reads s out n i b =
      (if bytes_equal b placeholder then return default_value else descend_loop n p i b) s
      ≡ (out, s)

  module _ (s : SparseMerkleTree N V)
      (stored : value ≢ [] → values.lookup s.values p ≡ some value) where
    get_data : (d : Bytes) → Held nodes s.nodes d → ns.get s.nodes (digest d) ≡ ok d
    get_data d e =
        nodes.is_map.get_lem s.nodes (digest d) (nodes.fits (digest d) (h.length-digest d))
        ∙ ap (found (digest d)) e

    pub get_value : value ≢ [] → vs.get s.values p ≡ ok value
    get_value ne = values.is_map.get_lem s.values p (values.fits p len) ∙ ap (found p) (stored ne)

    off_placeholder : (d : Bytes) → Seen d → bytes_equal (digest d) placeholder ≡ false
    off_placeholder d seen = not_placeholder (digest d) (free.nonzero d seen)

    descend_leaf :
        (n i : ℕ) (q v : Bytes)
        → 1 ≤ n
        → IsHash q
        → There s (leaf_value q v)
        → (bytes_equal p q ≡ true → value ≢ [])
        → (bytes_equal p q ≡ false → value ≡ [])
        → Reads s (ok value) n i (digest (leaf_value q v))
    unfolding descend_loop
    descend_leaf zero i q v some_round hq there member absent_lem = absurd (omega arith)
    descend_leaf (suc n) i q v some_round hq there member absent_lem =
        elim (Bool-cases (bytes_equal p q)) [
          | inl same ↦
              rw
                (
                  off_placeholder _ there.0,
                  get_data _ there.1,
                  is_leaf-leaf_value,
                  parse_leaf-leaf_value q v hq,
                  same,
                  get_value (member same),
                )
                refl
          | inr differs ↦
              rw
                (
                  off_placeholder _ there.0,
                  get_data _ there.1,
                  is_leaf-leaf_value,
                  parse_leaf-leaf_value q v hq,
                  differs,
                  absent_lem differs,
                )
                refl
        ]

    descend_node :
        (out : Res Bytes) (n i : ℕ) (side below : Bytes)
        → i < depth
        → IsHash side
        → IsHash below
        → There s (join (bit p i) side below).1
        → Reads s out n (suc i) below
        → Reads s out (suc n) i (join (bit p i) side below).0
    unfolding descend_loop
    descend_node out n i side below lt hs hb there reads =
        let (l, r, shape, size, next) = next_at (bit p i) side below in
        rw
          (
            join-digest (bit p i) side below,
            off_placeholder _ there.0,
            get_data _ there.1,
            shape,
            is_leaf-node_value,
            parse_node-node_value l r (size hs hb),
            get_bit_at_from_msb_lem p i (omega (arith, lt, len)),
            next,
            add-one i,
          )
          reads

    Reads-start :
        (n i : ℕ) (leaf : Bytes)
        → 1 ≤ n
        → Start (There s) p value leaf
        → IsHash leaf × Reads s (ok value) n i leaf
    Reads-start n i leaf some_round start = elim (Start-cases (There s) p value leaf start) [
      | inl (nil, e) ↦
          (ap length e ∙ length-placeholder, rw (e, bytes_equal_refl placeholder, nil) refl)
      | inr (q, v, there, e, inl (nil, off, size)) ↦ (
        ap length e ∙ h.length-digest _,
        subst (Reads s (ok value) n i) (sym e) (
            descend_leaf n i q v some_round size there
              (λ same. absurd (off (sym (bytes_equal→eq p q same)))) (λ differs. nil)),
      )
      | inr (q, v, there, e, inr (ne, own)) ↦ (
        ap length e ∙ h.length-digest _,
        subst (Reads s (ok value) n i) (sym e) (
            descend_leaf n i q v some_round (ap length own ∙ len) there (λ same. ne)
              (λ differs. absurd (ground (arith, differs, bytes_equal_iff p q, own)))),
      )
    ]

    -- Where no round is left, the value store answers at a leaf's hash.
    pub Reads-end :
        (before : Res Bytes) (val : Bytes) (leaf_data : Option Bytes) (i : ℕ) (leaf : Bytes)
        → (val ≡ [] → vs.get s.values p ≡ before)
        → (val ≢ [] → vs.get s.values p ≡ ok val)
        → Begins (There s) val leaf_data leaf
        → Reads s (if shows_other val leaf_data then before else ok val) 0 i leaf
    unfolding descend_loop
    Reads-end before [] none i leaf absent_lem member e = rw (e, bytes_equal_refl placeholder) refl
    Reads-end before [] (some leaf_data) i leaf absent_lem member (d, there, e) =
        rw (e, off_placeholder d there.0, absent_lem refl) refl
    Reads-end before (b ∷ bs) leaf_data i leaf absent_lem member (d, there, e) =
        rw (e, off_placeholder d there.0, member (λ nil. absurd cc)) refl

    pub Reads-down :
        (out : Res Bytes) (ss : List Bytes) (leaf : Bytes) (i n : ℕ)
        → i + n ≡ depth
        → length ss ≤ n
        → (length ss < n → out ≡ ok value)
        → (length ss ≡ n → (j : ℕ) → Reads s out 0 j leaf)
        → All IsHash ss
        → Start (There s) p value leaf
        → SeenDown (There s) p i ss leaf
        → Reads s out n i (fold_down p i ss leaf)
    unfolding fold_down SeenDown
    Reads-down out [] leaf i zero e le within at_end sizes start seen = at_end refl i
    Reads-down out [] leaf i (suc n) e le within at_end sizes start seen =
        rw (within (omega arith)) (Reads-start (suc n) i leaf (omega arith) start).1
    Reads-down out (side ∷ ss) leaf i zero e le within at_end sizes start seen =
        absurd (omega (arith, le))
    Reads-down out (side ∷ ss) leaf i (suc n) e le within at_end sizes start seen =
        descend_node out n i side (fold_down p (suc i) ss leaf) (omega (arith, e)) sizes.0
          (fold_down-IsHash p (suc i) ss leaf (Reads-start 1 0 leaf (omega arith) start).0) seen.0
          (Reads-down out ss leaf (suc i) n (omega (arith, e)) (omega (arith, le))
            (λ lt. within (omega (arith, lt))) (λ same. at_end (ap suc same)) sizes.1 start seen.1)

  -- The updates of the branch are stored, and nothing is lost.
  pub set_nodes_lem :
      (updates : List Update) (s : SparseMerkleTree N V)
      → All IsUpdate updates
      → All (λ u. Seen u.1) updates
      → (s' : SparseMerkleTree N V) × (set_nodes updates s ≡ (ok tt, s'))
        × All (λ u. There s' u.1) updates
        × Keeps nodes Seen s s'
  unfolding set_nodes
  set_nodes_lem [] s are seen = (s, refl, tt, Keeps-refl nodes Seen s)
  set_nodes_lem (u ∷ rest) s are seen =
      let (s1, run, own, k) = nodes_set_lem nodes Seen free s u.1 seen.0 in
      let (s2, runs, all, ks) = set_nodes_lem rest s1 are.1 seen.1 in
      (
        s2,
        rw (are.0, run) runs,
        ((seen.0, ks.held u.1 seen.0 own), all),
        Keeps-trans nodes Seen s s1 s2 k ks,
      )

  pub set_sibling_lem :
      (sibling : Option Bytes) (sides : List Bytes) (s : SparseMerkleTree N V)
      → ((d v : Bytes) (rest : List Bytes)
          → sibling ≡ some d
          → sides ≡ v ∷ rest
          → (v ≡ digest d) × Seen d)
      → (s' : SparseMerkleTree N V) × (set_sibling sibling sides s ≡ (ok tt, s'))
        × Keeps nodes Seen s s'
  unfolding set_sibling
  set_sibling_lem none sides s fits = (s, refl, Keeps-refl nodes Seen s)
  set_sibling_lem (some d) [] s fits = (s, refl, Keeps-refl nodes Seen s)
  set_sibling_lem (some d) (v ∷ rest) s fits =
      let (e, seen) = fits d v rest refl refl in
      let (s1, run, own, k) = nodes_set_lem nodes Seen free s d seen in (s1, rw (e, run) refl, k)

  pub All-Keeps :
      (updates : List Update) (s s' : SparseMerkleTree N V)
      → Keeps nodes Seen s s'
      → All (λ u. There s u.1) updates
      → All (λ u. There s' u.1) updates
  All-Keeps [] s s' k all = tt
  All-Keeps (u ∷ rest) s s' k all =
      ((all.0.0, k.held u.1 all.0.0 all.0.1), All-Keeps rest s s' k all.1)
