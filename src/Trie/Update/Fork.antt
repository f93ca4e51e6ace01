-- ===== src/Trie/Update/Fork.antt =====
-- The end of an update of smt.go where the walk ended at the leaf of another path: the two leaves are
-- joined, and the node over them is folded up through placeholders and the side nodes of the walk.
use smt.Prelude.{
  ℕ, ◌+◌, ◌-◌, ◌<◌, ◌≡◌, ◌≢◌, refl, sym, ap, ◌∙◌, false, [], ◌∷◌, ◌++◌, length, length-append,
  replicate, length-replicate, reverse, map, arith, All,
}
use mathlib.Core.List.{append_assoc}
use mathlib.Core.Path.{subst}
use native.Mathlib.Nat.{zero-add}
use smt.Res.{Res, ok}
use smt.Bytes.{Bytes, IsByte, bytes_equal}
use smt.Utils.Bits.{bit}
use smt.TreeHasher.{Hasher, digest, path_size, placeholder}
use smt.TreeHasher.Collisions.{CollisionFree}
use smt.MapStore.{MapStore}
use smt.Proofs.{join}
use smt.Proofs.Climb.{fold_down, SeenDown, fold_down_last, SeenDown_last, SeenDown_unlast}
use smt.Tree.{SparseMerkleTree}
use smt.Tree.Run.{Run, ◌>>=◌, and_then}
use smt.Tree.Walk.{depth}
use smt.Tree.Write.{join_and_set, update_rest}
use smt.Trie.{Trie, leaf, root_hash, spine, bottom}
use smt.Trie.Walk.{HashKeyed}
use smt.Trie.Insert.{insert, split}
use smt.Trie.Distinct.{Within, IsSound}
use smt.Trie.Distinct.Along.{node_data}
use smt.Trie.Effects.{Held}
use smt.Trie.Update.Loop.{join_and_set_lem}
use smt.Trie.Update.Path.{Part, spine-insert, spine-split}
use smt.Trie.Update.Ready.{Ready, Ready-Keeps, Ready-Represents}
use smt.Trie.Update.Tail.{Inserts, new_path, rest_run, new_node}

and_then_run :
    {S : Type 0} {r : Res Bytes × S} {s1 s2 : S} {next top top' : Bytes}
    (rest : Bytes → Run S Bytes)
    → r ≡ (ok next, s1)
    → rest next s1 ≡ (ok top, s2)
    → top ≡ top'
    → and_then rest r ≡ (ok top', s2)
and_then_run {S} {r} {s1} {s2} rest a b e = rw a (b ∙ ap (λ x. (ok x, s2)) e)

module _ ⦃h : Hasher⦄ where
  insert_other :
      (q w p v : Bytes) (i : ℕ)
      → bytes_equal q p ≡ false
      → insert (leaf q w) p v i ≡ split (depth - i) i p v q w
  unfolding insert
  insert_other q w p v i e = rw e

  -- The side nodes of the new trie: those of the walk, placeholders, and the other leaf.
  forked_spine :
      (t : Trie) (p v q w : Bytes) (k : ℕ)
      → bottom t p 0 ≡ leaf q w
      → bytes_equal q p ≡ false
      → length (spine t p 0) + k < depth
      → Part k (length (spine t p 0)) p q
      → spine (insert t p v 0) p 0
        ≡ (spine t p 0 ++ replicate k placeholder) ++ root_hash (leaf q w) ∷ []
  forked_spine t p v q w k at other lt part =
      let j = length (spine t p 0) in
      spine-insert t p v 0
      ∙ rw
          (
            at,
            zero-add j,
            insert_other q w p v j other,
            spine-split (depth - j) k j p v q w (omega (arith, lt)) part,
          )
          (sym (append_assoc (spine t p 0) (replicate k placeholder) (root_hash (leaf q w) ∷ [])))

module _ ⦃h : Hasher⦄ {N V : Type 0} ⦃ns : MapStore N⦄ ⦃vs : MapStore V⦄ (nodes : HashKeyed ns)
    (values : HashKeyed vs) (Seen : Bytes → Type 0) (free : CollisionFree Seen) (t : Trie)
    (p v : Bytes) (len : length p ≡ path_size) (bytes : All IsByte p) (ne : v ≢ [])
    (sound : IsSound Seen 0 t) (within : Within Seen (insert t p v 0))
    (own_seen : Within Seen (leaf p v)) where
  -- The leaf in the way and the new one are joined at the first bit in which their paths differ.
  pub join-update_rest-Inserts :
      (s : SparseMerkleTree N V) (q w : Bytes) (k : ℕ)
      → bottom t p 0 ≡ leaf q w
      → bytes_equal q p ≡ false
      → length (spine t p 0) + k < depth
      → Part k (length (spine t p 0)) p q
      → Ready nodes values Seen free t p v s
      → Inserts nodes values Seen free t p v len bytes ne sound within own_seen (
          (join_and_set p (length (spine t p 0) + k) (root_hash (leaf q w)) (root_hash (leaf p v))
              >>= update_rest p v
                  (reverse (spine t p 0))
                  (map digest (node_data t p 0))
                  (length (spine t p 0) + k))
            s)
  join-update_rest-Inserts s q w k at other lt part ready =
      let j = length (spine t p 0) in
      let n = j + k in
      let front = spine t p 0 ++ replicate k placeholder in
      let side = root_hash (leaf q w) in
      let current = root_hash (leaf p v) in
      let new = join (bit p n) side current in
      let e = forked_spine t p v q w k at other lt part in
      let size : length front ≡ n =
        length-append (spine t p 0) (replicate k placeholder)
        ∙ ap (λ m. j + m) (length-replicate k placeholder) in
      let (path, whole) =
        new_path nodes values Seen free t p v len bytes ne sound within own_seen in
      let (own, above) =
        SeenDown_unlast p front side current n size Seen
          (subst (λ l. SeenDown Seen p 0 l current) e path) in
      let (s2, run2, there, keeps) =
        join_and_set_lem nodes Seen free p len s n side current lt own in
      let ready2 =
        Ready-Keeps nodes values Seen free t p v s s2 sound.within own_seen.0 keeps ready in
      let (s3, run3, done) =
        rest_run nodes values Seen free t p v len bytes ne sound within own_seen s2 k n new.0
          (λ m less past. ground (arith, lt)) front refl (omega (arith, size, lt)) ready2 above in
      let still =
        done.kept new.1 own
          (new_node nodes values Seen free t p v len bytes ne sound within own_seen q w (bit p n) at
            other)
          there in
      (
        s3,
        and_then_run _ run2 run3 (
            sym (fold_down_last p front side current n size)
            ∙ ap (λ l. fold_down p 0 l current) (sym e)
            ∙ whole),
        Ready-Represents nodes values Seen free t p v len bytes ne sound within s2 s3 front new.0
            ready2 done own_seen.0
            (subst (λ l. SeenDown (Held nodes s3.nodes) p 0 l current) (sym e)
              (SeenDown_last p front side current n size (Held nodes s3.nodes) still done.path)),
      )
