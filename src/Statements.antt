-- ===== src/Statements.antt =====
-- services/sql_statements.py: the cache of executed statements, their results in chunks, and the
-- query history. What executes the SQL is a parameter.
pub mod Model
pub mod Chunks
pub mod Execution
pub mod History
mod Tests
