-- ===== src/Tree/Walk.antt =====
-- fillSideNodes of smt.go: the walk from a root towards the leaf of a path.
use smt.Prelude.{
  ℕ, zero, suc, ◌+◌, ◌*◌, Bool, Option, none, some, List, [], ◌∷◌, ◌++◌, ◌==◌, if◌then◌else◌,
}
use smt.Bytes.{Bytes, bytes_equal}
use smt.Utils.{get_bit_at_from_msb, reverse_byte_slices_in_place}
use smt.TreeHasher.{Hasher, path_size, placeholder, parse_node, is_leaf}
use smt.MapStore.{MapStore}
use smt.Tree.{SparseMerkleTree}
use smt.Tree.Run.{Run, ◌>>=◌, return, lift, nodes_get}

-- `pathSlices` with what the walk returns beside it; nil leaf or sibling data is `none`.
pub record SideNodes : Type 0 where
  pub side_nodes : List Bytes
  pub path_nodes : List Bytes
  pub leaf_data : Option Bytes
  pub sibling_data : Option Bytes

-- The walk that ends at the root itself.
abbrev pub root_only : Bytes → Option Bytes → SideNodes
root_only root d = record {
  side_nodes = [];
  path_nodes = root ∷ [];
  leaf_data = d;
  sibling_data = none;
}

-- Where the loop stopped: the slices as they were appended, the last side node and the data read.
pub record Walked : Type 0 where
  pub sides : List Bytes
  pub nodes : List Bytes
  pub last : Bytes
  pub current : Option Bytes

module _ ⦃h : Hasher⦄ where
  abbrev pub depth : ℕ
  depth = path_size * 8

  -- The side node and the next node of an inner node, by the path's bit.
  unfoldable pub choose : ℕ → Bytes × Bytes → Bytes × Bytes
  choose bit children = if bit == 1 then (children.0, children.1) else (children.1, children.0)

  module _ {N V : Type 0} ⦃ns : MapStore N⦄ where
    -- The end of a round: at a placeholder and at a leaf the loop stops, at an inner node with the data
    -- `below` it goes on by `on below`.
    unfoldable pub walk_child :
        (Bytes → Run (SparseMerkleTree N V) Walked)
        → Bytes
        → List Bytes
        → List Bytes
        → Bytes
        → Run (SparseMerkleTree N V) Walked
    walk_child on node sides nodes side =
        let stop = λ (d : Option Bytes).
          let w : Walked = record { sides = sides; nodes = nodes; last = side; current = d } in w in
        if bytes_equal node placeholder then return (stop none) else do
          below ← nodes_get node
          leaf ← lift (is_leaf below)
          if leaf then return (stop (some below)) else on below

    -- The loop, with `n` rounds left at position `i`, at an inner node with the data `current`.
    unfoldable pub walk_loop :
        ℕ → Bytes → ℕ → Bytes → List Bytes → List Bytes → Bytes → Run (SparseMerkleTree N V) Walked
    walk_loop zero p i current sides nodes last =
        return (record { sides = sides; nodes = nodes; last = last; current = some current })
    walk_loop (suc n) p i current sides nodes last = do
      children ← lift (parse_node current)
      bit ← lift (get_bit_at_from_msb p i)
      let (side, node) = choose bit children
      let sides' = sides ++ side ∷ []
      let nodes' = nodes ++ node ∷ []
      walk_child (λ below. walk_loop n p (i + 1) below sides' nodes' side) node sides' nodes' side

    -- What follows the loop.
    unfoldable pub finish_walk : Bool → Walked → Run (SparseMerkleTree N V) SideNodes
    finish_walk get_sibling_data w = do
      sibling_data ←
          if get_sibling_data then (nodes_get w.last >>= λ d. return (some d)) else return none
      side_nodes ← lift (reverse_byte_slices_in_place w.sides)
      path_nodes ← lift (reverse_byte_slices_in_place w.nodes)
      return (record {
        side_nodes = side_nodes;
        path_nodes = path_nodes;
        leaf_data = w.current;
        sibling_data = sibling_data;
      })

    unfoldable pub fill_side_nodes : Bytes → Bytes → Bool → Run (SparseMerkleTree N V) SideNodes
    fill_side_nodes p root get_sibling_data =
        if bytes_equal root placeholder then return (root_only root none) else do
          current ← nodes_get root
          leaf ← lift (is_leaf current)
          if leaf
              then return (root_only root (some current))
              else (walk_loop depth p 0 current [] (root ∷ []) [] >>= finish_walk get_sibling_data)
