-- ===== src/Probing.antt =====
-- internal/shards/decided.go and internal/buffer/index.go: linear probing in an open-addressing table.
pub mod Masks
pub mod Search
pub mod Table
pub mod Writes
pub mod Sizes
