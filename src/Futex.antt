-- ===== src/Futex.antt =====
-- core/src/futex.rs and api/src/imp/futex.rs: the wait queues of a process, by user address, and the
-- system call that uses them. A queue is shared through an `Arc`: it has a number, under which
-- `queues` holds its state and `strong` counts the clones of the `Arc`.
pub mod Queue
pub mod Table
pub mod Keys
pub mod Steps
pub mod Calls
pub mod Wake
pub mod Requeue
mod Tests
