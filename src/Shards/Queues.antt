-- ===== src/Shards/Queues.antt =====
-- internal/shards/shards.go and worker.go: senders, the two queues of each shard, its worker, and Shutdown.
pub mod Defs
pub mod Steps
pub mod Lanes
pub mod Invariant
pub mod Moves
pub mod Safety
pub mod Drain
