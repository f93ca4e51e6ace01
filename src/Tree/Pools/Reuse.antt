-- ===== src/Tree/Pools/Reuse.antt =====
-- The path slices that the pool of pool.go hands out: nothing of an earlier call is left in them.
use smt.Prelude.{
  ℕ, zero, suc, ◌<◌, ◌≡◌, refl, sym, ap, ◌∙◌, Bool-cases, inl, inr, Option, none, some, List, [],
  ◌∷◌, ◌++◌, length, take, drop, replicate, set, ltb, ◌≤◌, length-set, arith, All,
}
use mathlib.Core.List.{append_assoc, append-nil}
use smt.Bytes.{Bytes}
use smt.Tree.Pools.{
  Slice, PathSlices, Array, new_path_slices, append, clear_entries, emptied, put_path_slices, Gets,
  Pooled, Nil, Tidy, Blank, shown, append_all, entries, made, reused, at_first, taken,
  side_node_added, path_node_added, returned,
}

replicate-Nil : (n : ℕ) → All Nil (replicate n none)
replicate-Nil zero = tt
replicate-Nil (suc n) = (refl, replicate-Nil n)

clear_entries-Nil :
    (n : ℕ) (array : Array) → All Nil (drop n array) → All Nil (clear_entries n array)
unfolding clear_entries
clear_entries-Nil zero array rest = rest
clear_entries-Nil (suc n) [] rest = tt
clear_entries-Nil (suc n) (x ∷ array) rest = (refl, clear_entries-Nil n array rest)

drop-set :
    (array : Array) (n : ℕ) (x : Option Bytes)
    → All Nil (drop n array)
    → All Nil (drop (suc n) (set array n x))
drop-set [] n x rest = tt
drop-set (y ∷ array) zero x rest = rest.1
drop-set (y ∷ array) (suc n) x rest = drop-set array n x rest

All-drop : (n : ℕ) (array : Array) → All Nil array → All Nil (drop n array)
All-drop zero array all = all
All-drop (suc n) [] all = tt
All-drop (suc n) (x ∷ array) all = All-drop n array all.1

drop-grown :
    (array : Array) (n : ℕ) (x : Option Bytes) (rest : Array)
    → All Nil rest
    → All Nil (drop (suc n) (take n array ++ x ∷ rest))
drop-grown array zero x rest all = all
drop-grown [] (suc n) x rest all = All-drop (suc n) rest all
drop-grown (y ∷ array) (suc n) x rest all = drop-grown array n x rest all

Nil-append :
    (room : ℕ) (s : Slice) (a : Bytes)
    → All Nil (drop s.size s.array)
    → let r = append room s a in All Nil (drop r.size r.array)
unfolding append
Nil-append room s a rest = elim (Bool-cases (ltb s.size (length s.array))) [
  | inl e ↦ rw e (drop-set s.array s.size (some a) rest)
  | inr e ↦ rw e (drop-grown s.array s.size (some a) (replicate room none) (replicate-Nil room))
]

-- A property of every entry is one of the entry in the middle and of the others.
All-middle :
    (Keeps : PathSlices → Type 0) (front back : List PathSlices) (p : PathSlices)
    → All Keeps (front ++ p ∷ back)
    → Keeps p × All Keeps (front ++ back)
All-middle Keeps [] back p all = all
All-middle Keeps (x ∷ front) back p (own, all) =
    let (here, rest) = All-middle Keeps front back p all in (here, (own, rest))

All-put_back :
    (Keeps : PathSlices → Type 0) (front back : List PathSlices) (p : PathSlices)
    → Keeps p
    → All Keeps (front ++ back)
    → All Keeps (front ++ p ∷ back)
All-put_back Keeps [] back p here rest = (here, rest)
All-put_back Keeps (x ∷ front) back p here (own, rest) =
    (own, All-put_back Keeps front back p here rest)

new_path_slices-Blank : Blank new_path_slices
unfolding new_path_slices
new_path_slices-Blank = (refl, replicate-Nil 256, refl, replicate-Nil 257)

got-Blank :
    {pool pool' : List PathSlices} {p : PathSlices}
    → Gets pool p pool'
    → All Blank pool
    → Blank p × All Blank pool'
got-Blank made all = (new_path_slices-Blank, all)
got-Blank (reused front back {p = p}) all = All-middle Blank front back p all

Blank-Tidy : (p : PathSlices) → Blank p → Tidy p
Blank-Tidy p (es, side, ep, path) = (
  All-drop p.side_nodes.size p.side_nodes.array side,
  All-drop p.path_nodes.size p.path_nodes.array path,
)

put_path_slices-Blank :
    (p : PathSlices) (pool : List PathSlices)
    → Tidy p
    → All Blank pool
    → All Blank (put_path_slices p pool)
unfolding put_path_slices emptied
put_path_slices-Blank p pool (side, path) all = (
  (
    refl,
    clear_entries-Nil p.side_nodes.size p.side_nodes.array side,
    refl,
    clear_entries-Nil p.path_nodes.size p.path_nodes.array path,
  ),
  all,
)

Pooled-All : {pool held : List PathSlices} → Pooled pool held → All Blank pool × All Tidy held
Pooled-All at_first = (tt, tt)
Pooled-All (taken {p = p} before gets) =
    let (blank, tidy) = Pooled-All before in
    let (own, rest) = got-Blank gets blank in (rest, (Blank-Tidy p own, tidy))
Pooled-All (side_node_added front back p room a before) =
    let (blank, tidy) = Pooled-All before in
    let ((side, path), rest) = All-middle Tidy front back p tidy in
    (blank, All-put_back Tidy front back _ (Nil-append room p.side_nodes a side, path) rest)
Pooled-All (path_node_added front back p room a before) =
    let (blank, tidy) = Pooled-All before in
    let ((side, path), rest) = All-middle Tidy front back p tidy in
    (blank, All-put_back Tidy front back _ (side, Nil-append room p.path_nodes a path) rest)
Pooled-All (returned front back p before) =
    let (blank, tidy) = Pooled-All before in
    let ((side, path), rest) = All-middle Tidy front back p tidy in
    (put_path_slices-Blank p _ (side, path) blank, rest)

take-set_end :
    (array : Array) (n : ℕ) (x : Option Bytes)
    → n < length array
    → take (suc n) (set array n x) ≡ take n array ++ x ∷ []
take-set_end [] n x lt = absurd (omega (arith, lt))
take-set_end (y ∷ array) zero x lt = refl
take-set_end (y ∷ array) (suc n) x lt = ap (◌∷◌ y) (take-set_end array n x (omega (arith, lt)))

take-grown :
    (array : Array) (n : ℕ) (x : Option Bytes) (rest : Array)
    → n ≤ length array
    → take (suc n) (take n array ++ x ∷ rest) ≡ take n array ++ x ∷ []
take-grown array zero x rest le = refl
take-grown [] (suc n) x rest le = absurd (omega (arith, le))
take-grown (y ∷ array) (suc n) x rest le =
    ap (◌∷◌ y) (take-grown array n x rest (omega (arith, le)))

length-grown :
    (array : Array) (n : ℕ) (x : Option Bytes) (rest : Array)
    → n ≤ length array
    → suc n ≤ length (take n array ++ x ∷ rest)
length-grown array zero x rest le = omega arith
length-grown [] (suc n) x rest le = absurd (omega (arith, le))
length-grown (y ∷ array) (suc n) x rest le =
    let shorter = length-grown array n x rest (omega (arith, le)) in omega (arith, shorter)

append-shown :
    (room : ℕ) (s : Slice) (a : Bytes)
    → s.size ≤ length s.array
    → let r = append room s a in (shown r ≡ shown s ++ some a ∷ []) × (r.size ≤ length r.array)
unfolding append
append-shown room s a le = elim (Bool-cases (ltb s.size (length s.array))) [
  | inl e ↦
      let lt : s.size < length s.array = ground (arith, e) in
      rw e (
        take-set_end s.array s.size (some a) lt,
        omega (arith, lt, length-set s.array s.size (some a)),
      )
  | inr e ↦ rw e (
    take-grown s.array s.size (some a) (replicate room none) le,
    length-grown s.array s.size (some a) (replicate room none) le,
  )
]

append_all-shown :
    (appended : List (ℕ × Bytes)) (s : Slice)
    → s.size ≤ length s.array
    → shown (append_all appended s) ≡ shown s ++ entries appended
unfolding append_all
append_all-shown [] s le = sym (append-nil (shown s))
append_all-shown ((room, a) ∷ rest) s le =
    let (now, fits) = append-shown room s a le in
    append_all-shown rest (append room s a) fits
    ∙ ap (λ x. x ++ entries rest) now
    ∙ append_assoc (shown s) (some a ∷ []) (entries rest)

-- A slice of no entries shows what is appended to it.
append_all-entries :
    (appended : List (ℕ × Bytes)) (s : Slice)
    → s.size ≡ 0
    → shown (append_all appended s) ≡ entries appended
append_all-entries appended s e = append_all-shown appended s (omega (arith, e)) ∙ rw e refl

-- In every state of the pool, whatever the callers appended to the slices that they hold and in
-- whatever order they took and returned them, getPathSlices returns two empty slices whose arrays
-- keep no entry of an earlier call; and what is then appended to one is all that it shows.
pub Pooled-Blank :
    (pool held : List PathSlices)
    → Pooled pool held
    → (p : PathSlices) (pool' : List PathSlices) → Gets pool p pool'
    → Blank p
      × ((appended : List (ℕ × Bytes))
          → (shown (append_all appended p.side_nodes) ≡ entries appended)
            × (shown (append_all appended p.path_nodes) ≡ entries appended))
Pooled-Blank pool held state p pool' gets =
    let blank = (got-Blank gets (Pooled-All state).0).0 in
    let (side, keeps, path, keeps_path) = blank in
    (
      blank,
      λ appended. (
        append_all-entries appended p.side_nodes side,
        append_all-entries appended p.path_nodes path,
      ),
    )
