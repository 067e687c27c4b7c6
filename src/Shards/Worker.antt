-- ===== src/Shards/Worker.antt =====
-- internal/shards/worker.go: what a worker does with an event and on a tick.
pub mod Defs
pub mod Tick
pub mod Sound
pub mod Floor
pub mod Once
pub mod OverBuffer
pub mod Taken
pub mod Ticked
