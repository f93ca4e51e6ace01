-- ===== src/Tree/Buffers.antt =====
-- The pooled hash buffers of updateWithSideNodes in smt.go: the climb writes its hashes to two buffers by
-- turns, and reads each hash from the buffer that it was written to.
use smt.Prelude.{
  ℕ, zero, suc, ◌-◌, ◌≡◌, refl, sym, ap, ◌∙◌, Bool, true, false, not, Bool-cases, inl, inr, Option,
  none, some, List, ◌++◌, length, take, drop, take-append, leb, if◌then◌else◌,
}
use smt.Res.{Res, ok, err, panic}
use smt.Bytes.{Bytes}
use smt.Utils.{get_bit_at_from_msb}
use smt.TreeHasher.{Hasher, digest, path_size}
use smt.MapStore.{MapStore}
use smt.Proofs.{join}
use smt.Proofs.Starts.{join-digest}
use smt.Tree.{SparseMerkleTree}
use smt.Tree.Run.{Run, ◌>>=◌, ◌>>◌, return, lift, nodes_set, and_then}
use smt.Tree.Walk.{depth}
use smt.Tree.Write.{side_at, join_and_set, update_loop}

-- `hashBufA` and `hashBufB`
pub record HashBufs : Type 0 where
  pub a : Bytes
  pub b : Bytes

-- The buffer of a turn.
unfoldable pub hash_buf : Bool → HashBufs → Bytes
hash_buf turn bufs = if turn then bufs.b else bufs.a

unfoldable pub write_buf : Bool → Bytes → HashBufs → HashBufs
write_buf turn d bufs = if turn then record bufs { b = d } else record bufs { a = d }

-- A hash: the beginning of a buffer, or a slice of its own.
pub data Hash : Type 0 where
  in_buf : Bool → Hash
  own : Bytes → Hash

module _ ⦃h : Hasher⦄ where
  unfoldable pub read : Hash → HashBufs → Bytes
  unfolding hash_buf
  read (in_buf turn) bufs = take path_size (hash_buf turn bufs)
  read (own d) bufs = d

  -- `Sum(hashDst[:0])`: into the buffer, or into a new slice where the buffer is too small.
  unfoldable pub sum_into : Bool → Bytes → HashBufs → Hash × HashBufs
  unfolding hash_buf write_buf
  sum_into turn d bufs =
      let old = hash_buf turn bufs in
      if leb path_size (length old)
      then (in_buf turn, write_buf turn (digest d ++ drop path_size old) bufs)
      else (own (digest d), bufs)

  hash_buf-write_buf :
      (turn : Bool) (d : Bytes) (bufs : HashBufs) → hash_buf turn (write_buf turn d bufs) ≡ d
  unfolding hash_buf write_buf
  hash_buf-write_buf true d bufs = refl
  hash_buf-write_buf false d bufs = refl

  read-sum_into :
      (turn : Bool) (d : Bytes) (bufs : HashBufs)
      → read (sum_into turn d bufs).0 (sum_into turn d bufs).1 ≡ digest d
  unfolding read sum_into
  read-sum_into turn d bufs = elim (Bool-cases (leb path_size (length (hash_buf turn bufs)))) [
    | inl e ↦
        rw (e, hash_buf-write_buf turn (digest d ++ drop path_size (hash_buf turn bufs)) bufs)
          (take-append path_size (digest d) (drop path_size (hash_buf turn bufs))
            (h.length-digest d))
    | inr e ↦ rw e refl
  ]

  module _ {N V : Type 0} ⦃ns : MapStore N⦄ where
    -- A round of the climb: the node's data is a new slice, its hash goes to the buffer of the turn.
    unfoldable pub join_and_set_into :
        Bytes → ℕ → Bytes → Hash → Bool → HashBufs → Run (SparseMerkleTree N V) (Hash × HashBufs)
    unfolding join get_bit_at_from_msb sum_into read
    join_and_set_into p position side current turn bufs = do
      bit ← lift (get_bit_at_from_msb p position)
      let value = (join bit side (read current bufs)).1
      let sum = sum_into turn value bufs
      nodes_set (read sum.0 sum.1) value
      return sum

    unfoldable pub update_loop_into :
        ℕ → Bytes → List Bytes → ℕ → Hash → Bool → HashBufs → Run (SparseMerkleTree N V) Bytes
    unfolding side_at join_and_set_into read
    update_loop_into zero p side_nodes common current turn bufs = return (read current bufs)
    update_loop_into (suc n) p side_nodes common current turn bufs = do
      side ← lift (side_at side_nodes common (depth - suc n) n)
      elim side [
        | none ↦ update_loop_into n p side_nodes common current turn bufs
        | some node ↦ join_and_set_into p n node current turn bufs >>= λ next.
            update_loop_into n p side_nodes common next.0 (not turn) next.1
      ]

    -- After a call of the store, the one goes on with the hash, the other with where it stands.
    store_step :
        (r : Res (Unit {0}) × SparseMerkleTree N V) (c : Hash × HashBufs) (x : Bytes)
        → (k : Hash × HashBufs → Run (SparseMerkleTree N V) Bytes)
        → (k' : Bytes → Run (SparseMerkleTree N V) Bytes)
        → ((s : SparseMerkleTree N V) → k c s ≡ k' x s)
        → and_then k (and_then (λ u. return c) r) ≡ and_then k' (and_then (λ u. return x) r)
    store_step (ok tt, s) c x k k' same = same s
    store_step (err e, s) c x k k' same = refl
    store_step (panic, s) c x k k' same = refl

    bit_step :
        (r : Res ℕ) (s : SparseMerkleTree N V)
        → (f : ℕ → Run (SparseMerkleTree N V) (Hash × HashBufs))
        → (g : ℕ → Run (SparseMerkleTree N V) Bytes)
        → (k : Hash × HashBufs → Run (SparseMerkleTree N V) Bytes)
        → (k' : Bytes → Run (SparseMerkleTree N V) Bytes)
        → ((b : ℕ) → and_then k (f b s) ≡ and_then k' (g b s))
        → and_then k (and_then f (r, s)) ≡ and_then k' (and_then g (r, s))
    bit_step (ok b) s f g k k' same = same b
    bit_step (err e) s f g k k' same = refl
    bit_step panic s f g k k' same = refl

    module _ ⦃vs : MapStore V⦄ where
      join_step :
          (p : Bytes) (position : ℕ) (side : Bytes) (current : Hash) (turn : Bool) (bufs : HashBufs)
          → (s : SparseMerkleTree N V) → (k : Hash × HashBufs → Run (SparseMerkleTree N V) Bytes)
          → (k' : Bytes → Run (SparseMerkleTree N V) Bytes)
          → ((c : Hash × HashBufs) (s : SparseMerkleTree N V) → k c s ≡ k' (read c.0 c.1) s)
          → (join_and_set_into p position side current turn bufs >>= k) s
            ≡ (join_and_set p position side (read current bufs) >>= k') s
      unfolding join_and_set_into join_and_set
      join_step p position side current turn bufs s k k' same =
          bit_step (get_bit_at_from_msb p position) s _ _ k k' λ bit.
            let node = join bit side (read current bufs) in
            let sum = sum_into turn node.1 bufs in
            let e : read sum.0 sum.1 ≡ node.0 =
              read-sum_into turn node.1 bufs ∙ sym (join-digest bit side (read current bufs)) in
            ap (λ x. and_then k (and_then (λ u. return sum) (nodes_set x node.1 s))) e
            ∙ store_step (nodes_set node.0 node.1 s) sum node.0 k k'
                (λ s. same sum s ∙ ap (λ x. k' x s) e)

      side_step :
          (r : Res (Option Bytes)) (s : SparseMerkleTree N V)
          → (f g : Option Bytes → Run (SparseMerkleTree N V) Bytes) → f none s ≡ g none s
          → ((node : Bytes) → f (some node) s ≡ g (some node) s)
          → and_then f (r, s) ≡ and_then g (r, s)
      side_step (ok none) s f g nil node = nil
      side_step (ok (some x)) s f g nil node = node x
      side_step (err e) s f g nil node = refl
      side_step panic s f g nil node = refl

      -- The climb over buffers that are written by turns and hold anything before, whatever their sizes,
      -- returns the same result and leaves the same stores as the climb over values of the hashes.
      pub update_loop_into-update_loop :
          (n : ℕ) (p : Bytes) (side_nodes : List Bytes) (common : ℕ) (current : Hash) (turn : Bool)
          → (bufs : HashBufs) (s : SparseMerkleTree N V)
          → update_loop_into n p side_nodes common current turn bufs s
            ≡ update_loop n p side_nodes common (read current bufs) s
      unfolding update_loop_into update_loop
      update_loop_into-update_loop zero p side_nodes common current turn bufs s = refl
      update_loop_into-update_loop (suc n) p side_nodes common current turn bufs s =
          side_step (side_at side_nodes common (depth - suc n) n) s _ _
            (update_loop_into-update_loop n p side_nodes common current turn bufs s)
            (λ node.
              join_step p n node current turn bufs s _ _
                (λ c t. update_loop_into-update_loop n p side_nodes common c.0 (not turn) c.1 t))
