-- ===== src/Trie.antt =====
-- The binary trie that a sparse Merkle tree of smt.go stands for: what its nodes hash to, which key
-- stands where, and how a node store holds it.
pub mod Child
pub mod Walk
pub mod Spine
pub mod Prove
pub mod Descend
pub mod Represents
pub mod Insert
pub mod Remove
pub mod Distinct
pub mod Effects
pub mod Update
pub mod Canonical
pub mod History
use smt.Prelude.{
  All, ℕ, zero, suc, ◌+◌, ◌<◌, ◌≡◌, ◌≢◌, Bool, Option, none, some, List, [], ◌∷◌, length, ◌==◌,
  if◌then◌else◌,
}
use smt.Bytes.{IsByte, Bytes, bytes_equal}
use smt.Utils.Bits.{bit}
use smt.TreeHasher.{Hasher, digest, path_size, placeholder, leaf_value, node_value}
use smt.Tree.Walk.{depth}

-- A leaf carries the path of its key and its value.
pub data Trie : Type 0 where
  empty : Trie
  leaf : Bytes → Bytes → Trie
  node : Trie → Trie → Trie

module _ ⦃h : Hasher⦄ where
  unfoldable pub root_hash : Trie → Bytes
  root_hash empty = placeholder
  root_hash (leaf p v) = digest (leaf_value p (digest v))
  root_hash (node l r) = digest (node_value (root_hash l) (root_hash r))

  -- The value at a path, from depth `i` on.
  unfoldable pub find : Trie → Bytes → ℕ → Option Bytes
  find empty p i = none
  find (leaf q v) p i = if bytes_equal q p then some v else none
  find (node l r) p i = if bit p i == 1 then find r p (suc i) else find l p (suc i)

  -- Every leaf below stands on the side `b` at depth `i`.
  abbrev pub Side : ℕ → ℕ → Trie → Type 0
  Side i b empty = Unit {0}
  Side i b (leaf p v) = bit p i ≡ b
  Side i b (node l r) = Side i b l × Side i b r

  -- Leaves have paths of full length and values, stand on their sides, and no inner node is below the
  -- last bit of a path.
  abbrev pub WellFormed : ℕ → Trie → Type 0
  WellFormed i empty = Unit {0}
  WellFormed i (leaf p v) = (length p ≡ path_size) × All IsByte p × (v ≢ [])
  WellFormed i (node l r) =
      (i < depth) × Side i 0 l × Side i 1 r × WellFormed (suc i) l × WellFormed (suc i) r

  -- A node store holds the data of every leaf and node under its hash, which is no placeholder.
  abbrev pub Stored : (Bytes → Option Bytes) → Trie → Type 0
  Stored held empty = Unit {0}
  Stored held (leaf p v) =
      (held (root_hash (leaf p v)) ≡ some (leaf_value p (digest v)))
      × (root_hash (leaf p v) ≢ placeholder)
  Stored held (node l r) =
      (held (root_hash (node l r)) ≡ some (node_value (root_hash l) (root_hash r)))
      × (root_hash (node l r) ≢ placeholder)
      × Stored held l
      × Stored held r

  -- What the walk along a path meets: the side nodes' hashes from the top, the hashes on the path below
  -- the top, the last side node, and the trie at the end.
  unfoldable pub spine : Trie → Bytes → ℕ → List Bytes
  spine (node l r) p i =
      if bit p i == 1 then root_hash l ∷ spine r p (suc i) else root_hash r ∷ spine l p (suc i)
  spine t p i = []

  unfoldable pub hashes : Trie → Bytes → ℕ → List Bytes
  hashes (node l r) p i =
      if bit p i == 1 then root_hash r ∷ hashes r p (suc i) else root_hash l ∷ hashes l p (suc i)
  hashes t p i = []

  unfoldable pub last_side : Trie → Bytes → ℕ → Bytes → Bytes
  last_side (node l r) p i last =
      if bit p i == 1
      then last_side r p (suc i) (root_hash l)
      else last_side l p (suc i) (root_hash r)
  last_side t p i last = last

  unfoldable pub bottom : Trie → Bytes → ℕ → Trie
  bottom (node l r) p i = if bit p i == 1 then bottom r p (suc i) else bottom l p (suc i)
  bottom t p i = t

  abbrev pub data_of : Trie → Option Bytes
  data_of empty = none
  data_of (leaf p v) = some (leaf_value p (digest v))
  data_of (node l r) = some (node_value (root_hash l) (root_hash r))
