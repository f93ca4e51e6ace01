-- ===== src/TreeHasher.antt =====
-- treehasher.go. The `hash.Hash` that a caller supplies is a parameter: a size, and the digest that
-- `Write`, `Sum` and `Reset` compute together on a hasher that nothing was written to.
pub mod Layout
pub mod Collisions
use smt.Prelude.{
  ℕ, ◌+◌, ◌*◌, ◌≡◌, Bool, List, [], ◌∷◌, ◌++◌, length, take, drop, replicate, leb, if◌then◌else◌,
  All,
}
use smt.Res.{Res, ok, panic, ◌>>=◌}
use smt.Bytes.{Bytes, IsByte, bytes_equal}

-- `Sum` returns `Size` bytes.
pub record Hasher : Type 0 where
  pub size : ℕ
  pub digest : Bytes → Bytes
  pub length-digest : (d : Bytes) → length (digest d) ≡ size
  pub digest-IsByte : (d : Bytes) → All IsByte (digest d)

abbrev pub leaf_prefix : Bytes
leaf_prefix = 0 ∷ []

abbrev pub node_prefix : Bytes
node_prefix = 1 ∷ []

module _ ⦃h : Hasher⦄ where
  -- `digest` and `digestInto`; the latter differs in the buffer that it writes to.
  abbrev pub digest : Bytes → Bytes
  digest d = h.digest d

  -- `path` and `pathInto`
  abbrev pub path : Bytes → Bytes
  path key = digest key

  abbrev pub path_size : ℕ
  path_size = h.size

  unfoldable pub placeholder : Bytes
  placeholder = replicate path_size 0

  -- What a leaf hash is the digest of.
  unfoldable pub leaf_value : Bytes → Bytes → Bytes
  leaf_value p leaf_data = leaf_prefix ++ (p ++ leaf_data)

  -- `digestLeaf` and `digestLeafInto`: the hash, and the data to store under it.
  unfoldable pub digest_leaf : Bytes → Bytes → Bytes × Bytes
  unfolding leaf_value
  digest_leaf p leaf_data = let value = leaf_value p leaf_data in (digest value, value)

  -- A slice expression past the end of the data panics.
  unfoldable pub parse_leaf : Bytes → Res (Bytes × Bytes)
  parse_leaf bytes =
      if leb (path_size + 1) (length bytes)
      then ok (take path_size (drop 1 bytes), drop (1 + path_size) bytes)
      else panic

  unfoldable pub is_leaf : Bytes → Res Bool
  unfolding bytes_equal
  is_leaf bytes =
      if leb 1 (length bytes) then ok (bytes_equal (take 1 bytes) leaf_prefix) else panic

  -- What a node hash is the digest of.
  unfoldable pub node_value : Bytes → Bytes → Bytes
  node_value left_data right_data = node_prefix ++ (left_data ++ right_data)

  -- `digestNode` and `digestNodeInto`
  unfoldable pub digest_node : Bytes → Bytes → Bytes × Bytes
  unfolding node_value
  digest_node left_data right_data =
      let value = node_value left_data right_data in (digest value, value)

  unfoldable pub parse_node : Bytes → Res (Bytes × Bytes)
  parse_node bytes =
      if leb (path_size + 1) (length bytes)
      then ok (take path_size (drop 1 bytes), drop (1 + path_size) bytes)
      else panic
