-- ===== src/Examples.antt =====
-- The theorems at concrete inputs, and tests of the definitions.
pub mod Timing
pub mod Engine
pub mod FullSpeed
pub mod Triggers
pub mod Actions
pub mod Json
pub mod Profiles
pub mod Sender
pub mod SeqLock
pub mod Targets
pub mod Translation
pub mod Statistics
pub mod Waiting
pub mod Application
