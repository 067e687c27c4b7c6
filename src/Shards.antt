-- ===== src/Shards.antt =====
-- internal/shards: the workers, what they have decided and what they still owe.
pub mod Assoc
pub mod Route
pub mod Decided
pub mod Pending
pub mod Queues
pub mod Worker
pub mod Options
pub mod Reports
