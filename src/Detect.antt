-- ===== src/Detect.antt =====
-- internal/detect: the keep-detection chain.
pub mod Millis
pub mod Chain
pub mod Policies
pub mod Counters
pub mod Order
pub mod Build
pub mod Compiles
