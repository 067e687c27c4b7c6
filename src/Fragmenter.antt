-- ===== src/Fragmenter.antt =====
-- internal/fragmenter: the OTLP encoder and the grouping of a batch by trace.
pub mod Proto
pub mod Value
pub mod Span
pub mod Group
pub mod Runs
pub mod Sizes
pub mod Varint
pub mod Batch
