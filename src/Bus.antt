-- ===== src/Bus.antt =====
-- internal/bus.
pub mod Wire
