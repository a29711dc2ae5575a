-- ===== src/Tasks.antt =====
-- The tables of threads, processes, process groups and sessions of core/src/task.rs.
pub mod Tables
pub mod Kept
pub mod Closed
pub mod Steps
pub mod Found
pub mod Registers
mod Tests
