-- ===== src/Jsondb.antt =====
-- lsengine/internal/jsondb/engine.go and shard.go: the sharded document store.
pub mod Backend
pub mod Engine
pub mod Change
pub mod Insertion
pub mod Page
pub mod Shown
pub mod Pages
pub mod Bulk
pub mod Numbers
pub mod Written
pub mod Batches
mod Fuel
mod Tests
