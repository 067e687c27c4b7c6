-- ===== src/Settings.antt =====
-- config.go.
pub mod Validate
pub mod Usable
