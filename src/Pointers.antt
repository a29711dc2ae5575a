-- ===== src/Pointers.antt =====
-- api/src/ptr.rs: the checks of user pointers.
pub mod Checks
pub mod Scan
pub mod Access
mod Tests
