-- ===== src/Shards/Pending.antt =====
-- internal/shards/worker.go: the flush work that a shard has parked, and its FIFO.
pub mod Defs
pub mod Queue
pub mod Drain
pub mod Compact
pub mod Served
pub mod Deadlines
pub mod Handoff
