-- ===== src/Trie/Update.antt =====
-- Update of smt.go on a state that stands for a trie.
pub mod Loop
pub mod Path
pub mod Rest
pub mod Sides
pub mod Stores
pub mod Nodes
pub mod Prefix
pub mod Ready
pub mod Tail
pub mod Fork
pub mod Apply
pub mod Steps
pub mod Cases
pub mod Represents
pub mod Reached
