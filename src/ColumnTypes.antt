-- ===== src/ColumnTypes.antt =====
-- uc_types.py: the parser of column types, and identifiers.
pub mod Splitting
pub mod Specs
pub mod Parser
pub mod Sizes
pub mod Outcomes
pub mod Returns
pub mod Refusals
mod Tests
