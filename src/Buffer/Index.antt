-- ===== src/Buffer/Index.antt =====
-- internal/buffer/index.go: the trace index of the buffer.
pub mod Defs
pub mod Reclaim
pub mod Links
pub mod Invariant
pub mod Alloc
pub mod Linked
pub mod Append
pub mod Rehash
pub mod Put
pub mod Sweep
pub mod Swept
pub mod Copy
pub mod Packed
pub mod Compact
pub mod Sweeps
pub mod Runs
