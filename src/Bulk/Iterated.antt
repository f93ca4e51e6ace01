-- ===== src/Bulk/Iterated.antt =====
-- BulkUpdate of bulk.go against Update of smt.go, called for each item of the batch, the deletes first.
use smt.Prelude.{
  ◌≤◌, ◌≡◌, refl, sym, ap, ◌∙◌, true, false, Bool-cases, inl, inr, List, [], ◌∷◌, ◌++◌, length,
  ◌==◌, arith, All,
}
use mathlib.Core.Path.{subst}
use smt.Res.{Res, ok, err, panic}
use smt.Bytes.{Bytes, bytes_equal}
use smt.TreeHasher.{Hasher}
use smt.TreeHasher.Collisions.{CollisionFree}
use smt.MapStore.{MapStore}
use smt.Tree.{SparseMerkleTree}
use smt.Tree.Run.{Run, and_then}
use smt.Tree.Walk.{depth}
use smt.Tree.Api.{default_value, delete, get, set_root, update}
use smt.Bulk.{BulkKv, sort_stable, dedup, zip, non_deletes}
use smt.Bulk.Walk.{delete_all, apply_batch, bulk_apply_at_root, bulk_update}
use smt.Bulk.Batch.{last_value, dedup-sort_stable}
use smt.Bulk.Paths.{Shares}
use smt.Bulk.Target.{over, Target}
use smt.Bulk.Apply.{unchanged_Target, bulk_apply_at_root-Makes}
use smt.Trie.{Trie, root_hash, find}
use smt.Trie.Walk.{HashKeyed}
use smt.Trie.Represents.{get-get_descend}
use smt.Trie.Distinct.{IsSound}
use smt.Trie.Update.Stores.{Stored-Holds, Holds-Stored}
use smt.Trie.History.{
  put, put_all, WithinAll, WithinAll-Within, update_all, Stands, update_all-Stands, WellFormed-put,
}
use smt.Trie.History
use smt.Bulk.Items.{
  deletes, sets, All-sort_stable, All-dedup, non_deletes-Shares, sets-Target, put_all-append,
  WithinAll-front,
}

after_first :
    {S : Type 0} (m : Res Bytes × S) (f g : Run S (Unit {0}))
    → ((s : S) → f s ≡ g s)
    → and_then (λ (root : Bytes). f) m ≡ and_then (λ (root : Bytes). g) m
after_first (ok r, s) f g e = e s
after_first (err x, s) f g e = refl
after_first (panic, s) f g e = refl

module _ ⦃h : Hasher⦄ {N V : Type 0} ⦃ns : MapStore N⦄ ⦃vs : MapStore V⦄ where
  -- The deletes of a batch are updates with the default value.
  delete_all-update_all :
      (ws : History.Writes) (s : SparseMerkleTree N V)
      → ◌≡◌ {A = Res (Unit {0}) × SparseMerkleTree N V}
          (delete_all ws s)
          (update_all (deletes ws) s)
  unfolding delete_all update_all deletes delete
  delete_all-update_all [] s = refl
  delete_all-update_all ((key, v) ∷ rest) s = elim (Bool-cases (bytes_equal v default_value)) [
    | inl e ↦ rw e (after_first (update key default_value s) _ _ (delete_all-update_all rest))
    | inr e ↦ rw e (delete_all-update_all rest s)
  ]

  batch_applied :
      (kv : BulkKv) (rest : List BulkKv) (s s' : SparseMerkleTree N V) (top : Bytes)
      → bulk_apply_at_root depth 0 s.root (dedup (sort_stable (kv ∷ rest))) s ≡ (ok top, s')
      → apply_batch (kv ∷ rest) s ≡ (ok top, record s' { root = top })
  unfolding apply_batch set_root
  batch_applied kv rest s s' top run = rw run refl

  no_batch :
      (s : SparseMerkleTree N V) (top : Bytes)
      → s.root ≡ top
      → apply_batch [] s ≡ (ok top, record s { root = top })
  unfolding apply_batch
  no_batch s top e =
      ap
        (λ (r : Bytes).
          let x : Res Bytes × SparseMerkleTree N V = (ok r, record s { root = r }) in x)
        e

  -- A batch of one item or more: the deletes first, then the sorted rest.
  batch_run :
      (keys new_values : List Bytes) (s s1 s2 : SparseMerkleTree N V) (top : Bytes)
      → length keys ≡ length new_values
      → 1 ≤ length keys
      → delete_all (zip keys new_values) s ≡ (ok tt, s1)
      → apply_batch (non_deletes (zip keys new_values)) s1 ≡ (ok top, s2)
      → bulk_update keys new_values s ≡ (ok top, s2)
  unfolding bulk_update
  batch_run keys new_values s s1 s2 top same some_item deletes applied =
      let equal : (length keys == length new_values) ≡ true = ground (arith, same) in
      let full : (length keys == 0) ≡ false = ground (arith, some_item) in
      rw (equal, full, deletes) applied

module _ ⦃h : Hasher⦄ {N V : Type 0} ⦃ns : MapStore N⦄ ⦃vs : MapStore V⦄ (nodes : HashKeyed ns)
    (values : HashKeyed vs) (Seen : Bytes → Type 0) (free : CollisionFree Seen) where
  -- The sorted batch at the root of a trie that the state stands for.
  apply_batch-Stands :
      (kvs : List BulkKv) (s : SparseMerkleTree N V) (t u : Trie)
      → Stands nodes values Seen free s t
      → IsSound Seen 0 u
      → All (Shares (λ j. 0) 0) kvs
      → Target kvs t u 0
      → (s' : SparseMerkleTree N V) × (apply_batch kvs s ≡ (ok (root_hash u), s'))
        × Stands nodes values Seen free s' u
  apply_batch-Stands [] s t u x sound share target =
      let before : IsSound Seen 0 t = record {
        within = x.within;
        well_formed = x.represents.well_formed;
        full = x.full;
      } in
      let same = unchanged_Target nodes values Seen free t u 0 before sound target in
      let top = x.represents.top ∙ ap root_hash (sym same) in
      (
        record s { root = root_hash u },
        no_batch s (root_hash u) top,
        subst (λ y. Stands nodes values Seen free (record s { root = root_hash y }) y) (sym same)
            (record {
              represents = record {
                top = refl;
                held = x.represents.held;
                well_formed = x.represents.well_formed;
                exact = x.represents.exact;
              };
              full = x.full;
              within = x.within;
            }),
      )
  apply_batch-Stands (kv ∷ rest) s t u x sound share target =
      let batch = dedup (sort_stable (kv ∷ rest)) in
      let (up, same) = dedup-sort_stable (kv ∷ rest) in
      let aim : Target batch t u 0 =
        λ q len. target q len ∙ ap (λ o. over o (find t q 0)) (sym (same q)) in
      let (s', run, w) =
        bulk_apply_at_root-Makes nodes values Seen free depth 0 (λ j. 0) batch t u s (omega arith)
          (record {
            share =
                All-dedup (Shares (λ j. 0) 0) _
                  (All-sort_stable (Shares (λ j. 0) 0) (kv ∷ rest) share);
            up = up;
            before = record {
              within = x.within;
              well_formed = x.represents.well_formed;
              full = x.full;
            };
            after = sound;
            target = aim;
            sides = λ j lt. absurd (omega (arith, lt));
            held = λ d m. Stored-Holds (nodes.lookup s.nodes) t d x.represents.held m;
            value = λ q v len e. x.represents.exact q len ∙ e;
          }) in
      (
        record s' { root = root_hash u },
        batch_applied kv rest s s' (root_hash u) (
            subst (λ r. bulk_apply_at_root depth 0 r batch s ≡ (ok (root_hash u), s'))
              (sym x.represents.top) run),
        record {
          represents = record {
            top = refl;
            held = Holds-Stored (nodes.lookup s'.nodes) Seen free u sound.within w.held;
            well_formed = sound.well_formed;
            exact = λ q len.
                w.value q len
                ∙ ap (over (last_value batch q)) (x.represents.exact q len)
                ∙ sym (aim q len);
          };
          full = sound.full;
          within = sound.within;
        },
      )

  -- On a state that stands for a trie, where what the tries of the calls hash is among data without
  -- collisions, `bulk_update` of as many values as keys, at least one, succeeds. It returns the root
  -- that `update` calls of its items lead to, the deletes before the others, and leaves a state in
  -- which `get` reads for every key what it reads after those calls.
  pub bulk_update-update_all :
      (keys new_values : List Bytes) (s : SparseMerkleTree N V) (t : Trie)
      → length keys ≡ length new_values
      → 1 ≤ length keys
      → Stands nodes values Seen free s t
      → WithinAll Seen t (deletes (zip keys new_values) ++ sets (zip keys new_values))
      → (s' : SparseMerkleTree N V) × (s2 : SparseMerkleTree N V) × (bulk_update keys new_values s
          ≡ (ok s2.root, s'))
        × (update_all (deletes (zip keys new_values) ++ sets (zip keys new_values)) s ≡ (ok tt, s2))
        × (s'.root ≡ s2.root)
        × ((key : Bytes) → get key s' ≡ ((get key s2).0, s'))
  bulk_update-update_all keys new_values s t same some_item x within =
      let ws = zip keys new_values in
      let front = WithinAll-front Seen t (deletes ws) (sets ws) within in
      let (s1, run1, x1) = update_all-Stands nodes values Seen free (deletes ws) s t x front in
      let (s2, run2, x2) =
        update_all-Stands nodes values Seen free (deletes ws ++ sets ws) s t x within in
      let u = put_all t (deletes ws ++ sets ws) in
      let both = put_all-append t (deletes ws) (sets ws) in
      let sound : IsSound Seen 0 u = record {
        within = x2.within;
        well_formed = x2.represents.well_formed;
        full = x2.full;
      } in
      let (s', run, y) =
        apply_batch-Stands (non_deletes ws) s1 (put_all t (deletes ws)) u x1 sound
          (non_deletes-Shares (λ j. 0) ws)
          (λ q len.
            ap (λ z. find z q 0) both
            ∙ sets-Target ws (put_all t (deletes ws)) x1.represents.well_formed q) in
      let top = sym x2.represents.top in
      (
        s',
        s2,
        batch_run keys new_values s s1 s' s2.root same some_item (delete_all-update_all ws s ∙ run1)
            (run
              ∙ ap (λ (r : Bytes). let z : Res Bytes × SparseMerkleTree N V = (ok r, s') in z) top),
        run2,
        y.represents.top ∙ top,
        λ key.
            (get-get_descend nodes values s' u y.represents key).0
            ∙ ap
                (λ (r : Res Bytes × SparseMerkleTree N V).
                  let z : Res Bytes × SparseMerkleTree N V = (r.0, s') in z)
                (sym (get-get_descend nodes values s2 u x2.represents key).0),
      )
