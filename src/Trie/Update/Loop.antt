-- ===== src/Trie/Update/Loop.antt =====
-- The climb of updateWithSideNodes in smt.go: from the new leaf to the root, setting a node at each
-- height that has a side node.
use smt.Prelude.{
  ℕ, zero, suc, ◌-◌, ◌≤◌, ◌<◌, ◌≡◌, refl, ap, inl, inr, Option, none, some, Option-cases, List, [],
  ◌∷◌, ◌++◌, length, take, arith,
}
use smt.Res.{ok}
use smt.Bytes.{Bytes}
use smt.Utils.Bits.{bit, get_bit_at_from_msb_lem}
use smt.TreeHasher.{Hasher, path_size}
use smt.TreeHasher.Collisions.{CollisionFree}
use smt.MapStore.{MapStore}
use smt.Proofs.{join}
use smt.Proofs.Climb.{fold_down, SeenDown, fold_down_last, SeenDown_last, SeenDown_unlast}
use smt.Proofs.Starts.{join-digest}
use smt.Tree.{SparseMerkleTree}
use smt.Tree.Run.{◌>>=◌}
use smt.Tree.Walk.{depth}
use smt.Tree.Write.{side_at, join_and_set, update_loop}
use smt.Trie.Walk.{HashKeyed}
use smt.Trie.Effects.{Held, Keeps, Keeps-refl, Keeps-trans, nodes_set_lem}

-- The item at a position.
abbrev pub nth : List Bytes → ℕ → Option Bytes
nth [] n = none
nth (x ∷ xs) zero = some x
nth (x ∷ xs) (suc n) = nth xs n

take-nth-none : (xs : List Bytes) (n : ℕ) → nth xs n ≡ none → take (suc n) xs ≡ take n xs
take-nth-none [] zero e = refl
take-nth-none [] (suc n) e = refl
take-nth-none (x ∷ xs) zero e = cc
take-nth-none (x ∷ xs) (suc n) e = ap (◌∷◌ x) (take-nth-none xs n e)

take-nth-some :
    (xs : List Bytes) (n : ℕ) (x : Bytes)
    → nth xs n ≡ some x
    → (take (suc n) xs ≡ take n xs ++ x ∷ []) × (length (take n xs) ≡ n)
take-nth-some [] n x e = absurd cc
take-nth-some (y ∷ xs) zero x e = (let q : y ≡ x = cc in ap (λ (z : Bytes). z ∷ []) q, refl)
take-nth-some (y ∷ xs) (suc n) x e = let r = take-nth-some xs n x e in (ap (◌∷◌ y) r.0, ap suc r.1)

module _ ⦃h : Hasher⦄ {N V : Type 0} ⦃ns : MapStore N⦄ ⦃vs : MapStore V⦄ (nodes : HashKeyed ns)
    (Seen : Bytes → Type 0) (free : CollisionFree Seen) (p : Bytes)
    (len : length p ≡ path_size) where
  pub join_and_set_lem :
      (s : SparseMerkleTree N V) (n : ℕ) (side current : Bytes)
      → n < depth
      → Seen (join (bit p n) side current).1
      → (s' : SparseMerkleTree N V) × (join_and_set p n side current s
          ≡ (ok (join (bit p n) side current).0, s'))
        × Held nodes s'.nodes (join (bit p n) side current).1
        × Keeps nodes Seen s s'
  unfolding join_and_set
  join_and_set_lem s n side current lt seen =
      let d = (join (bit p n) side current).1 in
      let (s', run, held, keeps) = nodes_set_lem nodes Seen free s d seen in
      (
        s',
        rw (
          get_bit_at_from_msb_lem p n (omega (arith, len, lt)),
          join-digest (bit p n) side current,
          run,
        ),
        held,
        keeps,
      )

  run_step :
      (s s1 s2 : SparseMerkleTree N V) (n : ℕ) (sides : List Bytes) (common : ℕ)
      → (side current next top : Bytes) → join_and_set p n side current s ≡ (ok next, s1)
      → update_loop n p sides common next s1 ≡ (ok top, s2)
      → {top' : Bytes} → top' ≡ top
      → (join_and_set p n side current >>= update_loop n p sides common) s ≡ (ok top', s2)
  run_step s s1 s2 n sides common side current next top a b e = rw (a, e) b

  -- With the side nodes `full` from the top, the loop folds those above its height.
  pub update_loop-fold_down :
      (s : SparseMerkleTree N V) (n : ℕ) (sides full : List Bytes) (common : ℕ) (current : Bytes)
      → ((m : ℕ) → m < depth → side_at sides common (depth - suc m) m ≡ ok (nth full m))
      → n ≤ depth
      → SeenDown Seen p 0 (take n full) current
      → (s' : SparseMerkleTree N V) × (update_loop n p sides common current s
          ≡ (ok (fold_down p 0 (take n full) current), s'))
        × SeenDown (Held nodes s'.nodes) p 0 (take n full) current
        × Keeps nodes Seen s s'
  unfolding update_loop
  update_loop-fold_down s zero sides full common current at le seen =
      (s, unfold fold_down in refl, unfold SeenDown in tt, Keeps-refl nodes Seen s)
  update_loop-fold_down s (suc n) sides full common current at le seen =
      elim (Option-cases (nth full n)) [
        | inl e ↦
            let same = take-nth-none full n e in
            let (s', run, held, keeps) =
              update_loop-fold_down s n sides full common current at (omega arith)
                (rw same at seen) in
            (s', rw (at n (omega arith), e, same) run, rw same held, keeps)
        | inr (side, e) ↦
            let (same, size) = take-nth-some full n side e in
            let front = take n full in
            let (own, rest) = SeenDown_unlast p front side current n size Seen (rw same at seen) in
            let (s1, run, held, keeps) = join_and_set_lem s n side current le own in
            let next = (join (bit p n) side current).0 in
            let (s2, runs, helds, keepss) =
              update_loop-fold_down s1 n sides full common next at (omega arith) rest in
            (
              s2,
              rw (at n le, e, same)
                  (run_step s s1 s2 n sides common side current _ _ run runs
                    (fold_down_last p front side current n size)),
              rw same (
                  SeenDown_last p front side current n size (Held nodes s2.nodes)
                    (keepss.held _ own held) helds),
              Keeps-trans nodes Seen s s1 s2 keeps keepss,
            )
      ]
