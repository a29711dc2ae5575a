-- ===== src/Directories.antt =====
-- api/src/imp/fs/ctl.rs: `sys_getdents64` and `sys_getcwd`.
pub mod Buffer
pub mod Calls
pub mod Stream
mod Tests
