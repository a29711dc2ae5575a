-- ===== src/Loader.antt =====
-- core/src/mm.rs: the address space of a program, and the loading of programs and of scripts.
pub mod Text
pub mod Elf
pub mod Load
pub mod Scripts
pub mod Ends
pub mod Segments
pub mod Mapped
pub mod Exec
pub mod Runs
pub mod Drop
pub mod Boot
pub mod First
mod Tests
