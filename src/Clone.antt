-- ===== src/Clone.antt =====
-- api/src/imp/task/clone.rs: `sys_clone` and `sys_fork`, with `ProcessData::new` and the tables of
-- core/src/task.rs.
pub mod Flags
pub mod Calls
pub mod Shares
pub mod Place
pub mod Found
mod Tests
