-- ===== src/Sharded/Parallel.antt =====
-- parallelComputeShardIdxs of sharded.go: the shard index of every key, computed by several goroutines
-- that write to parts of one buffer. A goroutine is the list of the positions that it writes, in order;
-- a schedule takes the next position of any of them.
use smt.Prelude.{
  ℕ, zero, suc, ◌+◌, ◌-◌, ◌*◌, ◌/◌, ◌^◌, ◌≤◌, ◌<◌, List, [], ◌∷◌, length, set, get_or, ltb, leb,
  if◌then◌else◌,
}
use smt.Bytes.{Bytes}

-- `count` positions from `start` on.
unfoldable pub positions : ℕ → ℕ → List ℕ
positions start zero = []
positions start (suc count) = start ∷ positions (suc start) count

-- The number of goroutines for `n` keys on `procs` processors.
unfoldable pub chunk_count : ℕ → ℕ → ℕ
chunk_count procs n =
    let capped = if ltb 16 procs then 16 else procs in if ltb n capped then n else capped

unfoldable pub chunk_size : ℕ → ℕ → ℕ
chunk_size n chunks = (n + chunks - 1) / chunks

-- The end of the chunk that begins at `start`.
unfoldable pub chunk_end : ℕ → ℕ → ℕ → ℕ
chunk_end n size start = if ltb n (start + size) then n else start + size

-- The loop over the chunks from number `c`, with `left` to go; an empty chunk has no goroutine.
unfoldable pub chunks_from : ℕ → ℕ → ℕ → ℕ → List (List ℕ)
unfolding chunk_end positions
chunks_from n size zero c = []
chunks_from n size (suc left) c =
    let rest = chunks_from n size left (suc c) in
    let start = c * size in
    let end = chunk_end n size start in
    if leb end start then rest else positions start (end - start) ∷ rest

unfoldable pub goroutines : ℕ → ℕ → List (List ℕ)
unfolding chunk_count chunk_size chunks_from
goroutines procs n =
    let chunks = chunk_count procs n in chunks_from n (chunk_size n chunks) chunks 0

module _ (sum256 : Bytes → Bytes) where
  -- `h[0] >> (8 - shardBits)`; a sum has 32 bytes, and so a first one.
  unfoldable pub shard_idx : ℕ → Bytes → ℕ
  shard_idx shard_bits key = get_or (sum256 key) 0 0 / 2 ^ (8 - shard_bits)

  -- The body of the loops: the index of key `i` is written.
  unfoldable pub write_idx : ℕ → List Bytes → ℕ → List ℕ → List ℕ
  unfolding shard_idx
  write_idx shard_bits keys i idxs = set idxs i (shard_idx shard_bits (get_or keys i []))

  unfoldable pub write_idxs : ℕ → List Bytes → List ℕ → List ℕ → List ℕ
  unfolding write_idx
  write_idxs shard_bits keys [] idxs = idxs
  write_idxs shard_bits keys (i ∷ rest) idxs =
      write_idxs shard_bits keys rest (write_idx shard_bits keys i idxs)

  -- One of the goroutines takes its next position.
  pub data Next : List (List ℕ) → ℕ → List (List ℕ) → Type 0 where
    here : {i : ℕ} {is : List ℕ} {rest : List (List ℕ)} → Next ((i ∷ is) ∷ rest) i (is ∷ rest)
    there :
        {i : ℕ} {is : List ℕ} {rest rest' : List (List ℕ)}
        → Next rest i rest'
        → Next (is ∷ rest) i (is ∷ rest')

  -- All goroutines are done.
  abbrev pub Done : List (List ℕ) → Type 0
  Done [] = Unit {0}
  Done ([] ∷ rest) = Done rest
  Done ((i ∷ is) ∷ rest) = ⊥

  -- The buffers that a schedule of the goroutines can leave, up to `wg.Wait()`.
  pub data Runs (shard_bits : ℕ) (keys : List Bytes)
      : List (List ℕ) → List ℕ → List ℕ → Type 0 where
    waited : {gs : List (List ℕ)} {idxs : List ℕ} → Done gs → Runs shard_bits keys gs idxs idxs
    wrote :
        {gs gs' : List (List ℕ)} {i : ℕ} {idxs out : List ℕ}
        → Next gs i gs'
        → Runs shard_bits keys gs' (write_idx shard_bits keys i idxs) out
        → Runs shard_bits keys gs idxs out

  -- Below 1024 keys the indices are computed in line.
  pub data Computes (shard_bits procs : ℕ) (keys : List Bytes) : List ℕ → List ℕ → Type 0 where
    in_line :
        {idxs : List ℕ}
        → length idxs < 1024
        → Computes shard_bits procs keys idxs
            (write_idxs shard_bits keys (positions 0 (length keys)) idxs)
    in_parallel :
        {idxs out : List ℕ}
        → 1024 ≤ length idxs
        → Runs shard_bits keys (goroutines procs (length idxs)) idxs out
        → Computes shard_bits procs keys idxs out
