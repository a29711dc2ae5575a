-- ===== src/FdTable.antt =====
-- The table of file descriptors: `FD_TABLE` of api/src/file/mod.rs and the calls of
-- api/src/imp/fs/fd_ops.rs and pipe.rs that change it.
pub mod Objects
pub mod Calls
pub mod Copies
pub mod Dup
pub mod Instance
mod Tests
