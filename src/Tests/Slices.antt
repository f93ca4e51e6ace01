-- ===== src/Tests/Slices.antt =====
-- The theorem on the pool of path slices, after a call that appended a side node.
use smt.Prelude.{ℕ, ◌≡◌, List, [], ◌∷◌}
use smt.Bytes.{Bytes}
use smt.Tree.Pools.{
  PathSlices, new_path_slices, append, emptied, put_path_slices, Pooled, at_first, taken, made,
  reused, side_node_added, returned, Blank, shown, append_all, entries,
}
use smt.Tree.Pools.Reuse.{Pooled-Blank}

abbrev used : PathSlices
used = record new_path_slices { side_nodes = append 0 new_path_slices.side_nodes (7 ∷ []) }

state : Pooled (put_path_slices used []) []
state = returned [] [] used (side_node_added [] [] new_path_slices 0 (7 ∷ []) (taken at_first made))

Pooled-Blank_example :
    Blank (emptied used)
    × ((appended : List (ℕ × Bytes))
        → (shown (append_all appended (emptied used).side_nodes) ≡ entries appended)
          × (shown (append_all appended (emptied used).path_nodes) ≡ entries appended))
unfolding put_path_slices
Pooled-Blank_example =
    Pooled-Blank (put_path_slices used []) [] state (emptied used) [] (reused [] [])
