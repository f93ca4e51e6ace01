-- ===== src/Proofs/Starts.antt =====
-- The hash that the verifier of proofs.go starts from, and what the hashes above it determine of it.
use smt.Prelude.{
  ℕ, suc, ◌≡◌, ◌≢◌, refl, sym, ◌∙◌, List, [], ◌∷◌, ◌==◌, arith, All, reverse, Bool-cases, inl, inr,
  All-append,
}
use mathlib.Core.List.{reverse-cons}
use smt.Res.{Res, ok, err, panic, ◌>>=◌}
use smt.Bytes.{Bytes}
use smt.Utils.Bits.{bit}
use smt.TreeHasher.{Hasher, digest, placeholder, leaf_value, node_value}
use smt.TreeHasher.Layout.{
  length-placeholder, leaf_value-ne-node_value, node_value-left, node_value-right, leaf_value-path,
  leaf_value-data,
}
use smt.TreeHasher.Collisions.{CollisionFree}
use smt.Proofs.{join}
use smt.Proofs.Climb.{IsHash, fold_down, SeenDown}

-- The start of a run that was accepted.
pub started_of :
    {S R : Type 0} (start : Res S) (finish : S → Res R) {out : R}
    → (start >>= finish) ≡ ok out
    → (s : S) × (finish s ≡ ok out) × (start ≡ ok s)
started_of (ok s) finish run = (s, run, refl)
started_of (err e) finish run = absurd (ground arith)
started_of panic finish run = absurd (ground arith)

module _ ⦃h : Hasher⦄ where
  pub All-reverse : (nodes : List Bytes) → All IsHash nodes → All IsHash (reverse nodes)
  All-reverse [] w = tt
  All-reverse (s ∷ rest) w =
      rw reverse-cons (All-append IsHash (reverse rest) (s ∷ []) (All-reverse rest w.1) (w.0, tt))

  join-IsHash : (b : ℕ) (s c : Bytes) → IsHash (join b s c).0
  unfolding join
  join-IsHash b s c =
      ground (arith, h.length-digest (node_value s c), h.length-digest (node_value c s))

  pub join-digest : (b : ℕ) (s c : Bytes) → (join b s c).0 ≡ digest (join b s c).1
  unfolding join
  join-digest b s c = ground arith

  pub join-node :
      (b : ℕ) (s c : Bytes) → (l : Bytes) × (r : Bytes) × ((join b s c).1 ≡ node_value l r)
  unfolding join
  join-node b s c = elim (Bool-cases (b == 1)) [ inl e ↦ (s, c, rw e) | inr e ↦ (c, s, rw e) ]

  join-injective :
      (b : ℕ) (s c t d : Bytes)
      → IsHash s
      → IsHash c
      → IsHash t
      → IsHash d
      → (join b s c).1 ≡ (join b t d).1
      → (s ≡ t) × (c ≡ d)
  unfolding join
  join-injective b s c t d hs hc ht hd = elim (Bool-cases (b == 1)) [
    | inl e ↦
        rw e
          λ q. (node_value-left s c t d (hs ∙ sym ht) q, node_value-right s c t d (hs ∙ sym ht) q)
    | inr e ↦
        rw e
          λ q. (node_value-right c s d t (hc ∙ sym hd) q, node_value-left c s d t (hc ∙ sym hd) q)
  ]

  pub fold_down-IsHash :
      (p : Bytes) (d : ℕ) (ss : List Bytes) (leaf : Bytes)
      → IsHash leaf
      → IsHash (fold_down p d ss leaf)
  unfolding fold_down
  fold_down-IsHash p d [] leaf w = w
  fold_down-IsHash p d (s ∷ ss) leaf w = join-IsHash (bit p d) s (fold_down p (suc d) ss leaf)

  -- What the hash below the side nodes can be: an empty place, the leaf of another path, or the
  -- leaf of the key with its value.
  pub data Start (Seen : Bytes → Type 0) (p : Bytes) : Bytes → Bytes → Type 0 where
    absent : {leaf : Bytes} → leaf ≡ placeholder → Start Seen p [] leaf
    other :
        {leaf : Bytes} (q v : Bytes)
        → q ≢ p
        → IsHash q
        → Seen (leaf_value q v)
        → leaf ≡ digest (leaf_value q v)
        → Start Seen p [] leaf
    present :
        {leaf : Bytes} (b : ℕ) (bs : Bytes)
        → Seen (leaf_value p (digest (b ∷ bs)))
        → leaf ≡ digest (leaf_value p (digest (b ∷ bs)))
        → Start Seen p (b ∷ bs) leaf

  module _ {Seen : Bytes → Type 0} (free : CollisionFree Seen) where
    Start-IsHash : {p value leaf : Bytes} → Start Seen p value leaf → IsHash leaf
    Start-IsHash (absent e) = rw e length-placeholder
    Start-IsHash (other q v n w seen e) = rw e (h.length-digest _)
    Start-IsHash (present b bs seen e) = rw e (h.length-digest _)

    -- No leaf hash is a node hash.
    Start-ne-join :
        {p value leaf : Bytes} (b : ℕ) (s c : Bytes)
        → Start Seen p value leaf
        → Seen (join b s c).1
        → leaf ≢ (join b s c).0
    Start-ne-join b s c (absent e) seen q =
        free.nonzero (join b s c).1 seen (sym (join-digest b s c) ∙ sym q ∙ e)
    Start-ne-join b s c (other p' v n w seen' e) seen q =
        let (l, r, node) = join-node b s c in
        leaf_value-ne-node_value p' v l r
          (free.injective _ _ seen' seen (sym e ∙ q ∙ join-digest b s c) ∙ node)
    Start-ne-join {p} b s c (present x xs seen' e) seen q =
        let (l, r, node) = join-node b s c in
        leaf_value-ne-node_value p (digest (x ∷ xs)) l r
          (free.injective _ _ seen' seen (sym e ∙ q ∙ join-digest b s c) ∙ node)

    -- Two descents along one path with one hash on top end at one leaf hash.
    pub fold_down-injective :
        (p : Bytes) (d : ℕ) (ss tt' : List Bytes) {v w a b : Bytes}
        → Start Seen p v a
        → Start Seen p w b
        → All IsHash ss
        → All IsHash tt'
        → SeenDown Seen p d ss a
        → SeenDown Seen p d tt' b
        → fold_down p d ss a ≡ fold_down p d tt' b
        → a ≡ b
    unfolding fold_down SeenDown
    fold_down-injective p d [] [] va wb hs ht sa sb e = e
    fold_down-injective p d [] (t ∷ tt') va wb hs ht sa sb e =
        absurd (Start-ne-join _ _ _ va sb.0 e)
    fold_down-injective p d (s ∷ ss) [] va wb hs ht sa sb e =
        absurd (Start-ne-join _ _ _ wb sa.0 (sym e))
    fold_down-injective p d (s ∷ ss) (t ∷ tt') {a} {b} va wb hs ht sa sb e =
        let below =
          join-injective (bit p d) s (fold_down p (suc d) ss a) t (fold_down p (suc d) tt' b) hs.0
            (fold_down-IsHash p (suc d) ss a (Start-IsHash va)) ht.0
            (fold_down-IsHash p (suc d) tt' b (Start-IsHash wb))
            (free.injective _ _ sa.0 sb.0 (sym (join-digest _ _ _) ∙ e ∙ join-digest _ _ _)) in
        fold_down-injective p (suc d) ss tt' va wb hs.1 ht.1 sa.1 sb.1 below.1

    -- One leaf hash stands for one value at the path.
    pub Start-injective :
        {p v w a : Bytes} → IsHash p → Seen v → Seen w → Start Seen p v a → Start Seen p w a → v ≡ w
    Start-injective hp sv sw (absent e) (absent f) = refl
    Start-injective hp sv sw (absent e) (other q y n u s f) = refl
    Start-injective hp sv sw (other q y n u s f) (absent e) = refl
    Start-injective hp sv sw (other q y n u s f) (other q' y' n' u' s' f') = refl
    Start-injective hp sv sw (absent e) (present b bs s f) = absurd (free.nonzero _ s (sym f ∙ e))
    Start-injective hp sv sw (present b bs s f) (absent e) = absurd (free.nonzero _ s (sym f ∙ e))
    Start-injective {p} hp sv sw (other q y n u s f) (present b bs s' f') = absurd (
        n (
          leaf_value-path q y p (digest (b ∷ bs)) (u ∙ sym hp)
            (free.injective _ _ s s' (sym f ∙ f'))))
    Start-injective {p} hp sv sw (present b bs s' f') (other q y n u s f) = absurd (
        n (
          leaf_value-path q y p (digest (b ∷ bs)) (u ∙ sym hp)
            (free.injective _ _ s s' (sym f ∙ f'))))
    Start-injective {p} hp sv sw (present b bs s f) (present c cs s' f') =
        free.injective _ _ sv sw (
          leaf_value-data p (digest (b ∷ bs)) p (digest (c ∷ cs)) refl
            (free.injective _ _ s s' (sym f ∙ f')))
