-- ===== src/Runtime.antt =====
-- mysql-internal/collector/runtime.py: one worker for each target of a collection plan.
pub mod Schedule
pub mod Worker
pub mod Sinks
pub mod Assembly
mod Tests
