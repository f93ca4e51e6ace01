-- ===== src/Sharded/Chunks.antt =====
-- The chunks of parallelComputeShardIdxs in sharded.go, one after another, are the positions of the
-- whole buffer.
use smt.Prelude.{
  ℕ, zero, suc, ◌+◌, ◌-◌, ◌*◌, ◌/◌, ◌≤◌, ◌<◌, ◌≡◌, refl, sym, ap, ◌∙◌, false, Bool-cases, inl, inr,
  List, [], ◌∷◌, ◌++◌, ltb, leb, arith,
}
use mathlib.Core.List.{append-nil}
use native.Mathlib.Nat.{
  add-zero, zero-add, suc-mul, zero-mul, mul_comm, one-mul, sub-zero, le-div_iff_mul-le,
  lt-div-mul-add,
}
use smt.Sharded.Parallel.{positions, chunk_count, chunk_size, chunk_end, chunks_from, goroutines}

-- The goroutines' positions, one goroutine after another.
abbrev pub joined : List (List ℕ) → List ℕ
joined [] = []
joined (is ∷ rest) = is ++ joined rest

positions-append :
    (start m k : ℕ) → positions start m ++ positions (start + m) k ≡ positions start (m + k)
unfolding positions
positions-append start zero k = rw (add-zero start, zero-add k) refl
positions-append start (suc m) k =
    let shift : start + suc m ≡ suc start + m = omega arith in
    let count : suc m + k ≡ suc (m + k) = omega arith in
    rw (shift, count) (ap (◌∷◌ start) (positions-append (suc start) m k))

-- The chunks from number `c` on are the positions from its start on.
chunks_from-positions :
    (n size left c : ℕ)
    → 0 < size
    → n ≤ (c + left) * size
    → joined (chunks_from n size left c) ≡ positions (c * size) (n - c * size)
unfolding chunks_from chunk_end
chunks_from-positions n size zero c pos enough =
    let full : n - c * size ≡ 0 = omega (arith, enough, ap (λ x. x * size) (add-zero c)) in
    unfold positions in rw full refl
chunks_from-positions n size (suc left) c pos enough =
    let start = c * size in
    let after : suc c * size ≡ start + size = suc-mul c size in
    let split : c + suc left ≡ suc c + left = omega arith in
    let ih = chunks_from-positions n size left (suc c) pos (rw split at enough) in
    elim (Bool-cases (ltb n (start + size))) [
      | inl short ↦
          let none_left : n - suc c * size ≡ 0 = ground (arith, short, after) in
          elim (Bool-cases (leb n start)) [
            | inl past ↦
                rw (short, past)
                  (ih ∙ rw none_left (sym (whole start (n - start) (ground (arith, past)))))
            | inr inside ↦
                rw (short, inside)
                  (ap (λ l. positions start (n - start) ++ l)
                      (ih ∙ rw none_left (empty_at (suc c * size)))
                    ∙ append-nil (positions start (n - start)))
          ]
      | inr long ↦
          let more : leb (start + size) start ≡ false = ground (arith, pos) in
          let own : start + size - start ≡ size = omega arith in
          let rest : n - suc c * size ≡ n - (start + size) = ap (λ x. n - x) after in
          let all : size + (n - (start + size)) ≡ n - start = ground (arith, long) in
          rw (long, more, own)
            (ap (λ l. positions start size ++ l) (ih ∙ ap (λ x. positions x (n - x)) after)
              ∙ positions-append start size (n - (start + size))
              ∙ ap (positions start) all)
    ]
  where
    empty_at : (x : ℕ) → positions x 0 ≡ []
    empty_at x = unfold positions in refl

    whole : (x m : ℕ) → m ≡ 0 → positions x m ≡ positions (suc c * size) 0
    whole x m e = unfold positions in rw e refl

chunk_count-bounds : (procs n : ℕ) → 0 < procs → 0 < n → 0 < chunk_count procs n
unfolding chunk_count
chunk_count-bounds procs n some_procs some_keys = ground arith

-- The sizes of the chunks suffice.
chunk_size-enough :
    (n chunks : ℕ)
    → 0 < chunks
    → 0 < n
    → (n ≤ chunks * chunk_size n chunks) × (0 < chunk_size n chunks)
unfolding chunk_size
chunk_size-enough n chunks pos some_keys =
    let size = (n + chunks - 1) / chunks in
    let below : n + chunks - 1 < size * chunks + chunks = lt-div-mul-add pos in
    let enough : n ≤ chunks * size = omega (arith, below, mul_comm chunks size) in
    (enough, (le-div_iff_mul-le pos).1 (omega (arith, one-mul chunks)))

-- With at least one key and one processor, the goroutines of parallelComputeShardIdxs have, one
-- after another, every position of the buffer once and in order: no two write to one position,
-- each is written, and none is out of range.
pub goroutines-positions :
    (procs n : ℕ) → 0 < procs → 0 < n → joined (goroutines procs n) ≡ positions 0 n
unfolding goroutines
goroutines-positions procs n some_procs some_keys =
    let chunks = chunk_count procs n in
    let (enough, pos) =
      chunk_size-enough n chunks (chunk_count-bounds procs n some_procs some_keys) some_keys in
    let top : 0 + chunks ≡ chunks = zero-add chunks in
    let first : 0 * chunk_size n chunks ≡ 0 = zero-mul (chunk_size n chunks) in
    chunks_from-positions n (chunk_size n chunks) chunks 0 pos (rw top enough)
    ∙ rw (first, sub-zero n) refl
