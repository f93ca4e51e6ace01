-- ===== src/Tree.antt =====
-- smt.go: the sparse Merkle tree over two stores.
pub mod Pools
pub mod Run
pub mod Walk
pub mod Write
pub mod Api
pub mod Buffers
use smt.Bytes.{Bytes}

-- `nodes` holds the data of leaves and nodes under their hashes, `values` each value under its path.
pub record SparseMerkleTree (N V : Type 0) : Type 0 where
  pub nodes : N
  pub values : V
  pub root : Bytes
