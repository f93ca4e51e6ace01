-- ===== src/Lib.antt =====
-- A model of the Go package smt: a sparse Merkle tree for a key-value map, the proofs that it gives for
-- single keys, their compact form, and subtrees filled from proofs.
--
-- Parts and files (Go files at the repository's root):
--   Prelude, Res, Bytes: shared names; the ways in which a Go call ends (a value, an error, a panic);
--     byte slices as lists of numbers.
--   Utils (utils.go): bits of a byte slice (getBitAtFromMSB, setBitAtFromMSB, countSetBits,
--     countCommonPrefix) and reverseByteSlicesInPlace.
--   TreeHasher (treehasher.go): what leaves and nodes are the digest of, and their parsing. The
--     caller's hash.Hash is the record Hasher, a parameter: a size and a digest function, of which only
--     the size of a digest and the range of its bytes are assumed. Where a theorem needs that data do
--     not collide, it says so of the data in question, by TreeHasher.Collisions.CollisionFree.
--   MapStore (mapstore.go): the interface as a record of operations, MapStore, with its contract,
--     IsMap; MapStore.Simple is SimpleMap and MapStore.Fixed is FixedSizeMap (mapstore_fixed.go).
--     MapStore.Arena is ArenaFixedSizeMap (mapstore_arena.go): slabs with a capacity, and entries that
--     say where a value stands; MapStore.Arena.Slabs is about growing slabs, MapStore.Arena.Invariant
--     about what the methods keep (IsArena), MapStore.Arena.Refines about Set, Get and Delete.
--   Proofs (proofs.go): SparseMerkleProof, SparseCompactMerkleProof, VerifyProof, CompactProof,
--     DecompactProof, VerifyCompactProof. Proofs.Climb and Proofs.Starts are about the verifier's climb
--     and the hash it starts from, Proofs.Supplied about the side nodes that DecompactProof takes.
--   Tree (smt.go): the state SparseMerkleTree (two stores and a root); Tree.Run, methods that return the
--     state with their result, also on errors; Tree.Walk is fillSideNodes, Tree.Write is
--     updateWithSideNodes and deleteWithSideNodes, Tree.Api the exported methods. Tree.Buffers is
--     the climb of updateWithSideNodes on its two hash buffers. Tree.Pools (pool.go) is the pool of path
--     slices, which callers append to and give back.
--   DeepSubTree (deepsubtree.go): AddBranch, GetDescend, HasDescend. DeepSubTree.Branch is about the
--     descent along a stored branch and what the steps of AddBranch store, DeepSubTree.Added about
--     AddBranch and GetDescend after it; Proofs.Digests says what the verifier's updates are.
--   Bulk (bulk.go): the batch of BulkUpdate (sorted, the last of equal paths kept), sort.Search; Bulk.Walk
--     is the recursive walk and BulkUpdate itself, Bulk.Batch is about the batch, Bulk.Split about
--     partitionByBit and Bulk.Paths about the bits of sorted paths. Bulk.Target says which trie a batch
--     leads to; Bulk.Build makes it from nothing (buildSubtree), Around and Merge from a leaf
--     (mergeLeafWithKVs), Join from a node, and Apply from any trie (bulkApplyAtRoot). Bulk.Items and
--     Bulk.Iterated compare BulkUpdate with Update calls.
--   Sharded (sharded.go): ShardedSMT with its constructor, routing, Update, Get and computeRoot; its
--     routing hash is a parameter. Sharded.Root is about computeRoot, Sharded.Routing about the
--     constructor and shardOf. Sharded.Parallel is parallelComputeShardIdxs, its goroutines as a relation
--     on buffers that takes one write of any goroutine at a time; Sharded.Chunks is about the chunks,
--     Sharded.Schedules about the schedules. Sharded.Bulk is BulkUpdate, where a shard's goroutine is
--     one step and the schedule, an order of the goroutines that were started, is an argument; Sharded.Buckets is about the buckets, Sharded.Steps
--     and Sharded.Order about the order of the steps. Sharded.Pools is the pools that BulkUpdate
--     takes its buckets and its buffer of indices from. Sharded.Updates is about Update and Get on shards
--     that stand for tries, Sharded.History about sequences of updates on a new sharded tree.
--   Trie: the binary trie that a tree stands for, with the hash of its root (`root_hash`), the value at
--     a path (`find`) and the predicates that it is well formed and stored. Trie.Walk and Trie.Spine
--     read fillSideNodes on it, Trie.Prove the proofs of smt.go, Trie.Descend GetDescend, and
--     Trie.Represents says when a state of SparseMerkleTree stands for a trie. The node store enters
--     these as a MapStore with its contract (HashKeyed).
--     Trie.Insert puts a leaf into a trie; Trie.Distinct is about the data that a trie hashes,
--     Trie.Effects about what the calls of the node store leave of it. Trie.Update reads Update of
--     smt.go on a trie: Nodes, Prefix and Sides its walk's results, Steps its branches, Loop, Rest, Tail
--     and Fork the climb, Path and Stores the new trie's path, Ready, Apply and Cases the state, and
--     Represents all of it; Trie.Update.Reached is about the states that updates and deletions reach,
--     and Trie.Canonical about tries with the same values. Trie.Remove takes a leaf out of a trie and
--     reads Delete on it: Step is a round of deleteWithSideNodes' climb, Climb the whole climb, Deletes
--     and Represents the state. Trie.History is about sequences of Update calls on a new tree, Map about
--     the map that they write, Undo about a deletion after an update.
--   Tests: runs of the model on a one-byte hash, and the theorems at concrete inputs.
--
-- How parts meet: the tree reaches its stores through MapStore alone, hashes through TreeHasher, and
-- hands proofs to Proofs; a subtree is a tree that verifies a proof before it stores the proof's nodes.
--
-- Conventions: a nil slice is `none` where the code tells it from an empty one. An int that the
-- code keeps at 0 or more is a natural number; NumSideNodes of a compact proof, which its sender sets, is
-- an integer (Int). A slice expression past a slice's length panics (the
-- code's data have no spare capacity there; slabs of the arena carry their capacity). Bounded loops
-- recur on the rounds that are left, `depth` of them for a walk or a climb. A call of a store that
-- fails leaves the store as it was.
--
-- Not modelled: the pool of update scratches of pool.go, and buffer arguments of the `...Into` functions other than
-- the hash buffers of an update's climb, which change where a digest is written and not its value;
-- a hash.Hash that was written to before it is handed in; store calls of different shards that
-- interleave (shards share no store); the fuzz drivers under fuzz/ and the tests.
pub mod Prelude
pub mod Int
pub mod Res
pub mod Bytes
pub mod Utils
pub mod TreeHasher
pub mod MapStore
pub mod Tree
pub mod DeepSubTree
pub mod Bulk
pub mod Sharded
pub mod Trie
pub mod Proofs
mod Tests
