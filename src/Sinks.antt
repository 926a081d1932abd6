-- ===== src/Sinks.antt =====
-- mysql-internal/collector/sinks: what is behind `build_sink`, the ingestion of adx.py and the files
-- of jsonl.py.
pub mod Adx
pub mod Jsonl
mod Tests
