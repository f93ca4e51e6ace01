-- ===== src/Sharded/Schedules.antt =====
-- parallelComputeShardIdxs of sharded.go computes each key's shard, whatever the schedule.
use smt.Prelude.{
  ℕ, zero, suc, ◌+◌, ◌≤◌, ◌<◌, ◌≡◌, refl, sym, ap, ◌∙◌, false, Bool-cases, inl, inr, ◌⊎◌, List, [],
  ◌∷◌, ◌++◌, length, length-set, set, get_or, map, ◌==◌, ltb, arith,
}
use mathlib.Core.Path.{ap₂}
use mathlib.Core.List.{append-nil}
use smt.Bytes.{Bytes}
use smt.Sharded.Parallel.{
  positions, goroutines, shard_idx, write_idx, write_idxs, Next, here, there, Done, Runs, waited,
  wrote, Computes, in_line, in_parallel,
}
use smt.Sharded.Chunks.{joined, goroutines-positions}

abbrev In : ℕ → List ℕ → Type 0
In i [] = ⊥
In i (x ∷ xs) = (i ≡ x) ⊎ In i xs

In-append : (i : ℕ) (xs ys : List ℕ) → In i (xs ++ ys) → In i xs ⊎ In i ys
In-append i [] ys m = inr m
In-append i (x ∷ xs) ys (inl e) = inl (inl e)
In-append i (x ∷ xs) ys (inr m) = elim (In-append i xs ys m) [ inl a ↦ inl (inr a) | inr b ↦ inr b ]

append-In_left : (i : ℕ) (xs ys : List ℕ) → In i xs → In i (xs ++ ys)
append-In_left i [] ys m = absurd m
append-In_left i (x ∷ xs) ys (inl e) = inl e
append-In_left i (x ∷ xs) ys (inr m) = inr (append-In_left i xs ys m)

append-In_right : (i : ℕ) (xs ys : List ℕ) → In i ys → In i (xs ++ ys)
append-In_right i [] ys m = m
append-In_right i (x ∷ xs) ys m = inr (append-In_right i xs ys m)

positions-In : (i start m : ℕ) → start ≤ i → i < start + m → In i (positions start m)
unfolding positions
positions-In i start zero lo hi = absurd (omega arith)
positions-In i start (suc m) lo hi = elim (Bool-cases (i == start)) [
  | inl e ↦ inl (ground arith)
  | inr e ↦ inr (positions-In i (suc start) m (ground arith) (omega arith))
]

-- A list is known by its length and what stands in it.
same_list :
    (xs ys : List ℕ)
    → length xs ≡ length ys
    → ((i : ℕ) → i < length xs → get_or xs i 0 ≡ get_or ys i 0)
    → xs ≡ ys
same_list [] [] e all = refl
same_list [] (y ∷ ys) e all = absurd (omega (arith, e))
same_list (x ∷ xs) [] e all = absurd (omega (arith, e))
same_list (x ∷ xs) (y ∷ ys) e all =
    ap₂ ◌∷◌ (all 0 (omega arith))
      (same_list xs ys (omega arith) (λ i lt. all (suc i) (omega arith)))

get_or-set_own : (xs : List ℕ) (i v : ℕ) → i < length xs → get_or (set xs i v) i 0 ≡ v
get_or-set_own [] i v lt = absurd (omega arith)
get_or-set_own (x ∷ xs) zero v lt = refl
get_or-set_own (x ∷ xs) (suc i) v lt = get_or-set_own xs i v (omega arith)

get_or-set_other :
    (xs : List ℕ) (i j v : ℕ) → (i == j) ≡ false → get_or (set xs j v) i 0 ≡ get_or xs i 0
get_or-set_other [] i j v ne = refl
get_or-set_other (x ∷ xs) zero zero v ne = absurd (ground (arith, ne))
get_or-set_other (x ∷ xs) zero (suc j) v ne = refl
get_or-set_other (x ∷ xs) (suc i) zero v ne = refl
get_or-set_other (x ∷ xs) (suc i) (suc j) v ne = get_or-set_other xs i j v (ground (arith, ne))

module _ (sum256 : Bytes → Bytes) where
  -- A position that is still to be written stays so unless it is taken.
  Next-In :
      {gs gs' : List (List ℕ)} {x : ℕ} (i : ℕ)
      → Next sum256 gs x gs'
      → In i (joined gs)
      → (i ≡ x) ⊎ In i (joined gs')
  Next-In i here m = m
  Next-In i (there {is = is} next) m = elim (In-append i is _ m) [
    | inl a ↦ inr (append-In_left i is _ a)
    | inr b ↦ elim (Next-In i next b) [ inl e ↦ inl e | inr c ↦ inr (append-In_right i is _ c) ]
  ]

  Done-joined : (gs : List (List ℕ)) → Done sum256 gs → joined gs ≡ []
  Done-joined [] d = refl
  Done-joined ([] ∷ rest) d = Done-joined rest d
  Done-joined ((i ∷ is) ∷ rest) d = absurd d

  module _ (shard_bits : ℕ) (keys : List Bytes) where
    -- Position `i` holds its key's shard.
    abbrev Right : List ℕ → ℕ → Type 0
    Right idxs i = get_or idxs i 0 ≡ shard_idx sum256 shard_bits (get_or keys i [])

    write_idx-Right :
        (idxs : List ℕ) (x i : ℕ)
        → i < length idxs
        → (i ≡ x) ⊎ Right idxs i
        → Right (write_idx sum256 shard_bits keys x idxs) i
    unfolding write_idx
    write_idx-Right idxs x i lt right = elim (Bool-cases (i == x)) [
      | inl e ↦
          let at : i ≡ x = ground arith in
          let inside : x < length idxs = omega (arith, at, lt) in
          rw at (get_or-set_own idxs x _ inside)
      | inr e ↦ elim right [
        | inl at ↦ absurd (ground (arith, e, at))
        | inr was ↦ get_or-set_other idxs i x _ e ∙ was
      ]
    ]

    length-write_idx :
        (idxs : List ℕ) (x : ℕ) → length (write_idx sum256 shard_bits keys x idxs) ≡ length idxs
    unfolding write_idx
    length-write_idx idxs x = length-set idxs x _

    -- A schedule that writes all that is not yet right makes all right.
    Runs-Right :
        {gs : List (List ℕ)} {idxs out : List ℕ}
        → Runs sum256 shard_bits keys gs idxs out
        → ((i : ℕ) → i < length idxs → In i (joined gs) ⊎ Right idxs i)
        → (length out ≡ length idxs) × ((i : ℕ) → i < length idxs → Right out i)
    Runs-Right (waited {gs} {idxs} done) all = (
      refl,
      λ i lt. elim (all i lt) [
        | inl m ↦ absurd (let none_left : In i [] = rw (Done-joined gs done) at m in none_left)
        | inr right ↦ right
      ],
    )
    Runs-Right (wrote {gs = gs} {gs' = gs'} {i = x} {idxs = idxs} {out = out} next rest) all =
        let same = length-write_idx idxs x in
        let (size, right) = Runs-Right rest (λ i lt.
          let lt' : i < length idxs = omega (arith, lt, same) in
          elim (all i lt') [
            | inl m ↦ elim (Next-In i next m) [
              | inl e ↦ inr (write_idx-Right idxs x i lt' (inl e))
              | inr later ↦ inl later
            ]
            | inr was ↦ inr (write_idx-Right idxs x i lt' (inr was))
          ]) in
        (size ∙ same, λ i lt. right i (omega (arith, lt, same)))

    -- One goroutine in line.
    write_idxs-Runs :
        (is idxs : List ℕ)
        → Runs sum256 shard_bits keys (is ∷ []) idxs (write_idxs sum256 shard_bits keys is idxs)
    unfolding write_idxs
    write_idxs-Runs [] idxs = waited tt
    write_idxs-Runs (i ∷ is) idxs = wrote here (write_idxs-Runs is _)

    Runs-there :
        {gs : List (List ℕ)} {idxs out : List ℕ}
        → Runs sum256 shard_bits keys gs idxs out
        → Runs sum256 shard_bits keys ([] ∷ gs) idxs out
    Runs-there (waited done) = waited done
    Runs-there (wrote next rest) = wrote (there next) (Runs-there rest)

    first_Runs :
        (is : List ℕ) (gs : List (List ℕ))
        → ((idxs : List ℕ) → (out : List ℕ) × Runs sum256 shard_bits keys gs idxs out)
        → (idxs : List ℕ) → (out : List ℕ) × Runs sum256 shard_bits keys (is ∷ gs) idxs out
    first_Runs [] gs on idxs = let (out, runs) = on idxs in (out, Runs-there runs)
    first_Runs (i ∷ is) gs on idxs =
        let (out, runs) = first_Runs is gs on (write_idx sum256 shard_bits keys i idxs) in
        (out, wrote here runs)

    some_Runs :
        (gs : List (List ℕ)) (idxs : List ℕ)
        → (out : List ℕ) × Runs sum256 shard_bits keys gs idxs out
    some_Runs [] idxs = (idxs, waited tt)
    some_Runs (is ∷ gs) idxs = first_Runs is gs (some_Runs gs) idxs

    get_or-map :
        (ks : List Bytes) (i : ℕ)
        → i < length ks
        → get_or (map (shard_idx sum256 shard_bits) ks) i 0
          ≡ shard_idx sum256 shard_bits (get_or ks i [])
    get_or-map [] i lt = absurd (omega arith)
    get_or-map (k ∷ ks) zero lt = refl
    get_or-map (k ∷ ks) (suc i) lt = get_or-map ks i (omega arith)

    length-map : (ks : List Bytes) → length (map (shard_idx sum256 shard_bits) ks) ≡ length ks
    length-map [] = refl
    length-map (k ∷ ks) = ap suc (length-map ks)

    Runs-map :
        {gs : List (List ℕ)} {idxs out : List ℕ}
        → length idxs ≡ length keys
        → joined gs ≡ positions 0 (length keys)
        → Runs sum256 shard_bits keys gs idxs out
        → out ≡ map (shard_idx sum256 shard_bits) keys
    Runs-map {gs} {idxs} {out} size whole runs =
        let (kept, right) = Runs-Right runs (λ i lt.
          inl
            (rw whole (positions-In i 0 (length keys) (omega arith) (omega (arith, lt, size))))) in
        same_list out _ (kept ∙ size ∙ sym (length-map keys)) (λ i lt.
          right i (omega (arith, lt, kept))
          ∙ sym (get_or-map keys i (omega (arith, lt, kept, size))))

    Computes-out :
        (procs : ℕ) {idxs out : List ℕ}
        → 0 < procs
        → length idxs ≡ length keys
        → Computes sum256 shard_bits procs keys idxs out
        → out ≡ map (shard_idx sum256 shard_bits) keys
    Computes-out procs {idxs} some_procs size (in_line small) =
        Runs-map size (append-nil (positions 0 (length keys)))
          (write_idxs-Runs (positions 0 (length keys)) idxs)
    Computes-out procs {idxs} some_procs size (in_parallel large runs) =
        Runs-map size
          (goroutines-positions procs (length idxs) some_procs (omega (arith, large))
            ∙ ap (positions 0) size)
          runs

    -- With a buffer of as many entries as there are keys and at least one processor, the computation
    -- ends, and however its goroutines are scheduled it leaves the shard index of every key.
    pub Computes-map :
        (procs : ℕ) (idxs : List ℕ)
        → 0 < procs
        → length idxs ≡ length keys
        → ((out : List ℕ) × Computes sum256 shard_bits procs keys idxs out)
          × ((out : List ℕ)
              → Computes sum256 shard_bits procs keys idxs out
              → out ≡ map (shard_idx sum256 shard_bits) keys)
    Computes-map procs idxs some_procs size = (
      elim (Bool-cases (ltb (length idxs) 1024)) [
        | inl e ↦ (_, in_line (ground (arith, e)))
        | inr e ↦
            let (out, runs) = some_Runs (goroutines procs (length idxs)) idxs in
            (out, in_parallel (ground (arith, e)) runs)
      ],
      λ out computed. Computes-out procs some_procs size computed,
    )
