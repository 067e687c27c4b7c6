-- ===== src/Fragmenter/Batch.antt =====
-- internal/fragmenter/fragmenter.go: the grouping of a batch by trace.
pub mod Defs
pub mod Chains
pub mod Groups
pub mod Grouped
pub mod NewGroup
pub mod Steps
pub mod Picked
pub mod Fragments
