-- ===== src/Dispatch.antt =====
-- `handle_syscall` of src/syscall.rs.
pub mod Numbers
pub mod Handler
pub mod Answers
mod Tests
