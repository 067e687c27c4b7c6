-- ===== src/Buffer/Store.antt =====
-- internal/buffer/buffer.go: the buffer's segments and its index.
pub mod Defs
pub mod Ascending
pub mod Expiry
pub mod Rolls
pub mod Kept
pub mod Stored
pub mod Collect
pub mod Visits
pub mod Open
pub mod Replay
pub mod Recovered
pub mod Reopened
pub mod Gens
pub mod Opened
pub mod Crash
