-- ===== src/Lib.antt =====
-- Neon OS: a Unix-like kernel of a core crate (core/src), the system calls (api/src) and the
-- entry with the dispatch of the calls (src). This library models the parts of the kernel that
-- keep state of their own, as functions on that state, and states what they do.
--
-- Prelude holds what the parts share: Boolean tests and lists over the native numbers, machine
-- words with their wrap-around, the error types of axerrno with their results, BTreeMap as an
-- association list in the order of its keys, strings as lists of bytes, and user pointers
-- as what reading them gives.
--
-- Pipe (api/src/file/pipe.rs): Ring is PipeRingBuffer, with its invariant and its contents as a
-- queue; End is Pipe with read, write and poll, one round of a loop at a time; Stream puts a
-- writer and a reader together. A loop that waits takes a schedule, the list of what the others
-- do to the shared state between two rounds, in place of fuel: it gives `none` when it still
-- waits at the schedule's end.
--
-- Shm (core/src/shm.rs, api/src/imp/mm/shm.rs): Segment is ShmSegment, Manager is ShmManager with
-- all its maps, over a store of segments that stands for Arc<ShmSegment>; Syscalls are shmget,
-- shmat, shmdt and shmctl on the manager, the caller's address space and its attachments. The
-- search for an identifier is bounded by the source's own 1000 attempts.
--
-- Links (api/src/path.rs): HardlinkManager, over a file system (crate axfs) as a parameter; Targets is
-- about the paths that links lead to.
--
-- FdTable (api/src/file/mod.rs, api/src/imp/fs/fd_ops.rs, api/src/imp/fs/pipe.rs): the descriptor
-- table and close, dup, dup2, fcntl and pipe2, over FlattenObjects (crate flatten_objects) as a
-- parameter with its documented laws, and openat and open (Open), over the paths of FilePaths, with
-- the files of axfs as a parameter and the flags of x86_64; Tests has a table that obeys the laws.
--
-- Wait (api/src/imp/task/wait.rs): waitpid, over the children at each look of its loop.
--
-- Mpx (api/src/imp/fs/io_mpx): the polling loop, poll and ppoll (Poll), epoll (Epoll) and select
-- (Select, its sets as lists of bits), over
-- what the descriptors answer at each pass. The loops take the list of passes as their run and
-- give `none` when they still wait at its end.
--
-- Futex (core/src/futex.rs, api/src/imp/futex.rs): FutexTable with the owners of its queues, and
-- the futex call, over WaitQueue (crate axtask) as a parameter. The loop that wakes tasks is
-- bounded by the number asked for.
--
-- Time (core/src/time.rs, api/src/time.rs): TimeStat, and the conversions of times.
--
-- Mm (api/src/imp/mm/mmap.rs, api/src/imp/mm/brk.rs): mmap, munmap, mprotect and brk, over the
-- address space (crate axmm) and the file behind a descriptor as parameters.
--
-- Io (api/src/imp/fs/io.rs): the calls that read and write, Vector with readv and writev, and
-- Transfer with copy_file_range and splice, over the files as a record of operations. The loops of
-- Transfer take `len + 1` rounds as their fuel: each round moves a byte or is the last one. A write to
-- a pipe may wait for ever, so splice into a pipe may block. That no other reader empties the pipe
-- between the test for data and the read of splice is assumed.
--
-- Tasks (core/src/task.rs, api/src/imp/task/thread.rs): the tables of threads, processes, groups and
-- sessions, getpgid and setpgid, over the processes of crate axprocess as a parameter.
--
-- Signals (api/src/signal.rs, api/src/imp/signal.rs): whom a signal is sent to, over crate axsignal
-- as a parameter; Masks has the caller's own mask and stack, with the places in user memory as cells,
-- and Actions the actions and the waits, whose looks are a list.
--
-- FilePaths (api/src/path.rs, api/src/imp/fs/ctl.rs): FilePath, handle_file_path, linkat and unlinkat,
-- over the manager of Links; a panic is an outcome. Mount (api/src/imp/fs/mount.rs): the mounts.
--
-- Sockets (api/src/socket.rs): socket addresses as the bytes that they are in user memory.
--
-- UserAccess (api/src/ptr.rs): the checks before user memory is read, and the scan for a terminating
-- zero; its fuel is the number of elements up to the zero, and theorems ask for that much.
--
-- Dirs (api/src/imp/fs/ctl.rs): getdents64 and its buffer; as many rounds as the buffer has bytes are
-- enough, since each writes an entry or is the last one.
--
-- Locks are held for a whole operation in the source, so an operation is one function on the
-- state; where a loop gives its lock back, a run or a schedule says what happens in between.
--
-- Not modelled: process creation, exit and
-- the loading of programs, which call other crates for most of what they do, metadata and symbolic
-- links, which pass their arguments on to axfs. Where a call reads user memory, the result of the
-- access is an argument of its model.
pub mod Prelude
pub mod Pipe
pub mod Shm
pub mod Links
pub mod FdTable
pub mod Wait
pub mod Mpx
pub mod Futex
pub mod Time
pub mod Mm
pub mod Io
pub mod Signals
pub mod FilePaths
pub mod Mount
pub mod Tasks
pub mod Dirs
pub mod Sockets
pub mod UserAccess
