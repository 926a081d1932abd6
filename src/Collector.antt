-- ===== src/Collector.antt =====
-- mysql-internal/collector/collector.py with metrics.py: the loop that polls one server, and the two
-- ways in which the command runs.
pub mod Metrics
pub mod Loop
pub mod Cycles
pub mod Main
pub mod Exits
mod Tests
