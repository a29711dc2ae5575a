-- ===== src/Pipe.antt =====
-- api/src/file/pipe.rs: the ring buffer, the two ends, and their interleavings.
pub mod Ring
pub mod Ends
mod Tests
