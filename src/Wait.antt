-- ===== src/Wait.antt =====
-- api/src/imp/task/wait.rs: `sys_waitpid`. The children of the process and their states, from
-- `axprocess`, are data here.
pub mod Select
pub mod Calls
pub mod Reap
pub mod Exits
mod Tests
