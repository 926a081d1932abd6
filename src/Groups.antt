-- ===== src/Groups.antt =====
-- mysql-internal/collector/groups.py: the collection groups, from the rows of the driver to points of
-- the repository's catalog.
pub mod Rows
pub mod Server
pub mod Storage
pub mod Collectors
pub mod Fit
mod Tests
