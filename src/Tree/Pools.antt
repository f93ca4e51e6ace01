-- ===== src/Tree/Pools.antt =====
-- The pool of pool.go that Update and Prove take their path slices from: slices over arrays that keep
-- what was written to them, and callers that append to them while they hold them.
pub mod Reuse
use smt.Prelude.{
  ℕ, zero, suc, ◌+◌, ◌<◌, ◌≡◌, refl, sym, ap, ◌∙◌, Bool-cases, inl, inr, Option, none, some, List,
  [], ◌∷◌, ◌++◌, length, take, drop, replicate, set, ltb, map, ◌≤◌, length-set, if◌then◌else◌,
  arith, All,
}
use mathlib.Core.List.{append_assoc, append-nil}
use smt.Bytes.{Bytes}

-- A slice of slices: an array, whose entries may be nil, and how much of it the slice shows.
pub record Slice : Type 0 where
  pub array : List (Option Bytes)
  pub size : ℕ

pub record PathSlices : Type 0 where
  pub side_nodes : Slice
  pub path_nodes : Slice

abbrev pub Array : Type 0
Array = List (Option Bytes)

-- `New` of the pool.
unfoldable pub new_path_slices : PathSlices
new_path_slices = record {
  side_nodes = record { array = replicate 256 none; size = 0 };
  path_nodes = record { array = replicate 257 none; size = 0 };
}

-- `append`: into the array while there is room, or into a new one with some room left.
unfoldable pub append : ℕ → Slice → Bytes → Slice
append room s a =
    if ltb s.size (length s.array)
    then record { array = set s.array s.size (some a); size = suc s.size }
    else record { array = take s.size s.array ++ some a ∷ replicate room none; size = suc s.size }

-- The loop that writes nil to the entries of a slice.
unfoldable pub clear_entries : ℕ → List (Option Bytes) → List (Option Bytes)
clear_entries zero array = array
clear_entries (suc n) [] = []
clear_entries (suc n) (x ∷ array) = none ∷ clear_entries n array

-- What putPathSlices makes of the slices before it puts them back.
unfoldable pub emptied : PathSlices → PathSlices
unfolding clear_entries
emptied p = record {
  side_nodes = record { array = clear_entries p.side_nodes.size p.side_nodes.array; size = 0 };
  path_nodes = record { array = clear_entries p.path_nodes.size p.path_nodes.array; size = 0 };
}

unfoldable pub put_path_slices : PathSlices → List PathSlices → List PathSlices
unfolding emptied
put_path_slices p pool = emptied p ∷ pool

-- What getPathSlices may return, with the pool after it.
pub data Gets : List PathSlices → PathSlices → List PathSlices → Type 0 where
  made : {pool : List PathSlices} → Gets pool new_path_slices pool
  reused :
      (front back : List PathSlices) {p : PathSlices} → Gets (front ++ p ∷ back) p (front ++ back)

-- The states of the pool with the slices that callers hold.
pub data Pooled : List PathSlices → List PathSlices → Type 0 where
  at_first : Pooled [] []
  taken :
      {pool pool' held : List PathSlices} {p : PathSlices}
      → Pooled pool held
      → Gets pool p pool'
      → Pooled pool' (p ∷ held)
  side_node_added :
      {pool : List PathSlices} (front back : List PathSlices) (p : PathSlices) (room : ℕ)
      (a : Bytes)
      → Pooled pool (front ++ p ∷ back)
      → Pooled pool (front ++ record p { side_nodes = append room p.side_nodes a } ∷ back)
  path_node_added :
      {pool : List PathSlices} (front back : List PathSlices) (p : PathSlices) (room : ℕ)
      (a : Bytes)
      → Pooled pool (front ++ p ∷ back)
      → Pooled pool (front ++ record p { path_nodes = append room p.path_nodes a } ∷ back)
  returned :
      {pool : List PathSlices} (front back : List PathSlices) (p : PathSlices)
      → Pooled pool (front ++ p ∷ back)
      → Pooled (put_path_slices p pool) (front ++ back)

abbrev pub Nil : Option Bytes → Type 0
Nil x = x ≡ none

-- No entry is left past the slice's end.
abbrev pub Tidy : PathSlices → Type 0
Tidy p =
    All Nil (drop p.side_nodes.size p.side_nodes.array)
    × All Nil (drop p.path_nodes.size p.path_nodes.array)

-- An empty slice over an array of nil entries.
abbrev pub Blank : PathSlices → Type 0
Blank p =
    (p.side_nodes.size ≡ 0)
    × All Nil p.side_nodes.array
    × (p.path_nodes.size ≡ 0)
    × All Nil p.path_nodes.array

-- The entries that a slice shows.
abbrev pub shown : Slice → List (Option Bytes)
shown s = take s.size s.array

-- One `append` after the other, each with the room of a new array.
unfoldable pub append_all : List (ℕ × Bytes) → Slice → Slice
unfolding append
append_all [] s = s
append_all ((room, a) ∷ rest) s = append_all rest (append room s a)

abbrev pub entries : List (ℕ × Bytes) → List (Option Bytes)
entries = map (λ (x : ℕ × Bytes). some x.1)
