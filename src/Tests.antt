-- ===== src/Tests.antt =====
-- Concrete runs of the theorems.
mod BufferRuns
mod FragmenterRuns
mod BatchRuns
mod DetectRuns
mod ShardsRuns
mod WorkerRuns
mod QueueRuns
mod DecidedRuns
mod SettingsRuns
mod IndexRuns
mod StoreRuns
mod RecoveryRuns
