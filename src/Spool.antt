-- ===== src/Spool.antt =====
-- mysql-internal/collector/sinks/spool.py: the durable spool in front of Azure Data Explorer.
pub mod Names
pub mod Points
pub mod Codec
pub mod Store
pub mod Write
pub mod Replay
pub mod Step
pub mod Kept
pub mod Run
mod Tests
