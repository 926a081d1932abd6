-- ===== src/Telemetry.antt =====
-- mysql-internal/collector/telemetry.py: the contract between collectors and sinks.
pub mod Rows
pub mod Point
pub mod Catalog
pub mod Measurements
pub mod Health
mod Tests
