-- ===== src/Clocks.antt =====
-- The time values of api/src/time.rs, and the calls that read clocks and sleep.
pub mod Values
pub mod Calls
pub mod RoundTrip
pub mod Sleep
mod Tests
