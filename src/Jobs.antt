-- ===== src/Jobs.antt =====
-- services/jobs.py: jobs, their task graphs, and runs with their scheduler.
pub mod Model
pub mod Graph
pub mod Crud
pub mod Scheduler
pub mod Runs
pub mod Execution
pub mod Output
pub mod Events
pub mod Stored
mod Tests
