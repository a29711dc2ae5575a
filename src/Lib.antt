-- ===== src/Lib.antt =====
-- Starry is a monolithic kernel on ArceOS that runs Linux programs. `api/src` holds the system calls,
-- `core/src` the state of processes that they work on, and `src` the entry and the handler of system
-- calls. This library models the state of all three and what the calls do to it on every branch.
-- The crates below them (axtask, axprocess, axsignal, axmm, axfs, axnet, flatten_objects) are not part of
-- the repository: what the code needs of them is an interface, a record of operations and laws, or an
-- argument of the definition that calls them.
--
-- Prelude: Boolean tests, lists over the native numbers, `LinuxError` and `LinuxResult`, 64-bit words and
-- association lists for `BTreeMap`. An `i32` or `isize` argument is the number that its word holds; sums
-- and differences of `usize` wrap, as in a release build.
--
-- Pipe (api/src/file/pipe.rs): `Pipe/Ring` has the ring buffer of 256 bytes with `write_byte` and
--   `read_byte`, `Pipe/Ends` the two ends with `read`, `write` and `poll`. A loop that yields to other tasks
--   takes what those tasks do to the shared buffer as a list of functions, one for each yield, and
--   gives no answer where the list ends first. `Pipe/Ends/Stream` has interleavings of rounds as a step relation;
--   `Pipe/Ring/Queue` has the queue that the ring buffer stands for.
-- TimeStat (core/src/time.rs): `TimeStat` with its four switches between modes and tasks and its timer;
--   a run is a list of events with the values of the clock.
-- FilePaths (api/src/path.rs): `FilePaths/Text` and `FilePaths/Resolve` have `FilePath`, `FilePaths/Links` has
--   `HardlinkManager`, `FilePaths/Calls` the calls of api/src/imp/fs/ctl.rs on paths, with runs of them in
--   `FilePaths/Steps`. Texts are lists of code points. The file system and `canonicalize` are parameters.
-- Mount (api/src/imp/fs/mount.rs): the table of mounted file systems.
-- FdTable (api/src/file/mod.rs, api/src/imp/fs/fd_ops.rs, api/src/imp/fs/pipe.rs): the table of open files with `close`, `dup`,
--   `dup2`, `fcntl` and `pipe2`, over the interface `FdTable/Objects`; `FdTable/Instance` is a table with its laws, for
--   objects of any type.
-- Sockets (api/src/socket.rs): socket addresses in and out of user memory.
-- Futex (core/src/futex.rs, api/src/imp/futex.rs): the table of wait queues with the counts of their `Arc`s, and `sys_futex`
--   over the interface `Futex/Queue`. The loop of wakes runs over `value`, so it ends.
-- Memory (api/src/imp/mm): `sys_brk`, `sys_mmap`, `sys_munmap` and `sys_mprotect` over the interface
--   `Memory/AddrSpace`; how an address is mapped is all that counts of a space.
--   `Memory/Flat` is a space with these laws.
-- Wait (api/src/imp/task/wait.rs): `sys_waitpid`. What it sees of the children when it starts and at each wake is a
--   list; the call sleeps where the list ends without an answer. In `Wait/Exits` the list is what the `do_exit` of a child
--   shows at each notice.
-- Signals (api/src/imp/signal.rs, api/src/signal.rs): `kill` and its kin with the signals that they send as a list, and the
--   calls that exchange a mask, an action or a stack with user memory, where two addresses may be one. `Signals/Waits`
--   has the calls that wait for a signal or return from one.
-- Pointers (api/src/ptr.rs): `check_region` and `check_null_terminated`. The scan for the end of a string runs on
--   fuel; as no page behind some limit can be accessed, fuel for the addresses up to there is enough. `Pointers/Access` has the
--   functions of `UserPtr` and `UserConstPtr`; a reference is an address.
-- Directories (api/src/imp/fs/ctl.rs): `DirBuffer` as the list of the records in it, `sys_getdents64` with the entry that it
--   keeps for the next call, and `sys_getcwd`.
-- Clone (api/src/imp/task/clone.rs, core/src/task.rs): `sys_clone` and `sys_fork`, by what the new thread has from its
--   caller, and in `Clone/Place` with the tables of Tasks that the thread is added to.
-- Exit (api/src/imp/task/exit.rs, api/src/signal.rs): `do_exit` as the list of what it does to the rest of the kernel, and `check_signals`.
-- Tasks (core/src/task.rs, api/src/imp/task/thread.rs, api/src/imp/sys.rs): the tables of threads, processes, groups and
--   sessions over an interface for weak maps, runs of their operations in `Tasks/Steps`, and the calls on the numbers and
--   the base registers of a task.
-- Clocks (api/src/time.rs, api/src/imp/time.rs, api/src/imp/task/schedule.rs): time values and their C structures, the calls
--   that read clocks, and `sys_nanosleep`. What a clock shows is an argument.
-- Loader (core/src/mm.rs, src/mm.rs, src/entry.rs, core/src/task.rs, api/src/imp/task/execve.rs): `load_user_app` for scripts
--   and ELF files, `sys_execve`, the handler of page faults, the drop of `ProcessData` and `run_user_app`, over the
--   interface of Memory. The parsers of ELF files and the initial stack are arguments. `load_user_app` calls itself for an
--   interpreter: its fuel bounds the nested calls.
-- Dispatch (src/syscall.rs): `handle_syscall` with the call that each number stands for; the calls are a parameter.
-- Files (api/src/file, api/src/imp/fs/io.rs, stat.rs, fd_ops.rs): files, directories, sockets and the console as objects of
--   one type with what `FileLike` asks of each, over interfaces for axfs, axnet and the console; `Files/Vectors` reads and
--   writes them, `Files/Describe` has the calls of `stat`, `Files/Open` has `sys_openat`. The loop that reads the console
--   runs on fuel, and as each round but the last takes a byte, the length of the buffer is enough.
--
-- Each module has its tests in a child module `Tests`. The parts meet in the values that they share: the objects of Files
-- are what FdTable keeps for a descriptor, and its paths go through FilePaths; Dispatch switches TimeStat around each call;
-- Loader maps memory through the interface that Memory uses; it and Clone add threads to the tables of Tasks; addresses in
-- Futex are keys of the table of one process; the states that Wait sees are what the `do_exit` of Exit leaves.
--
-- Not modelled: `build.rs`, and `main.rs` but for what it calls; the user programs and scripts; methods of `ThreadData`
-- and `ProcessData` that only load or store a field; the namespace of tasks of the kernel itself; methods of a
-- socket that pass the call to TCP or UDP and change nothing on the way; `sched_yield`, which only calls
-- axtask. Where a call reads user memory, what its pointer gives is an argument, so that the checks of
-- Pointers stand before it.
pub mod Prelude
pub mod Pipe
pub mod Tasks
pub mod TimeStat
pub mod FilePaths
pub mod Mount
pub mod FdTable
pub mod Sockets
pub mod Files
pub mod Futex
pub mod Loader
pub mod Memory
pub mod Wait
pub mod Signals
pub mod Pointers
pub mod Directories
pub mod Clocks
pub mod Clone
pub mod Dispatch
pub mod Exit
