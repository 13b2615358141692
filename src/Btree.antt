-- ===== src/Btree.antt =====
-- lsengine/internal/jsondb/btree.go: the in-memory B-tree index.
pub mod Sort
pub mod Keys
pub mod Nodes
pub mod Index
pub mod Order
pub mod Leaf
pub mod Insert
pub mod Runs
mod Tests
