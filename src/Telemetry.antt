-- ===== src/Telemetry.antt =====
-- src/telemetry: what the scheduler thread measures.
pub mod Histogram
pub mod SeqLock
pub mod Running
pub mod RunStats
