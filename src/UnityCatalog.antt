-- ===== src/UnityCatalog.antt =====
-- services/unity_catalog.py, by the part of the registry that a handler writes.
pub mod State
pub mod Pool
pub mod Children
pub mod Catalogs
pub mod Removal
pub mod Columns
pub mod Description
pub mod Merge
pub mod Tables
pub mod Volumes
pub mod Functions
pub mod Belonging
pub mod Integrity
pub mod Keeps
pub mod Requests
pub mod Deletion
mod Tests
