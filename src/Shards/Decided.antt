-- ===== src/Shards/Decided.antt =====
-- internal/shards/decided.go: the decided set of a shard.
pub mod Defs
pub mod Table
pub mod Insert
pub mod Bury
pub mod Live
pub mod Rehash
pub mod Compact
pub mod Refine
pub mod Runs
