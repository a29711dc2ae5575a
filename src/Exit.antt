-- ===== src/Exit.antt =====
-- api/src/imp/task/exit.rs, and `check_signals` of api/src/signal.rs: how a thread ends and what of it
-- its parent gets to know.
pub mod Calls
pub mod Status
pub mod Order
mod Tests
