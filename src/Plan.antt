-- ===== src/Plan.antt =====
-- mysql-internal/collector/plan.py: from a YAML document to a validated collection plan.
pub mod Document
pub mod Errors
pub mod Duration
pub mod Secret
pub mod Catalog
pub mod Group
pub mod Profile
pub mod Target
pub mod Load
