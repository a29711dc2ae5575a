-- ===== src/Memory.antt =====
-- api/src/imp/mm: `sys_brk`, and `sys_mmap`, `sys_munmap` and `sys_mprotect` over an address space.
-- Arguments of type `i32` and `isize` are the words that hold them.
pub mod AddrSpace
pub mod Flat
pub mod Flags
pub mod Calls
pub mod Brk
pub mod Mapped
pub mod Leak
mod Tests
