-- ===== src/Signals.antt =====
-- api/src/imp/signal.rs and api/src/signal.rs: signals sent to threads, processes and groups, and the
-- calls that exchange a mask, an action or a stack with user memory.
pub mod Info
pub mod Send
pub mod Kill
pub mod Counts
pub mod Exchange
pub mod Alias
pub mod Waits
mod Tests
