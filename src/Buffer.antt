-- ===== src/Buffer.antt =====
-- internal/buffer: the disk-segment span buffer.
pub mod Record
pub mod Segment
pub mod Index
pub mod Store
