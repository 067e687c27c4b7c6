-- ===== src/Fragmenter/Sizes.antt =====
-- internal/fragmenter: what the size functions announce is what the put functions write.
pub mod Scalars
pub mod Attrs
pub mod Spans
pub mod Groups
