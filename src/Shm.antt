-- ===== src/Shm.antt =====
-- System V shared memory: core/src/shm.rs (`Segment`, `Manager`) and the system calls of
-- api/src/imp/mm/shm.rs (`Syscalls`).
pub mod Segment
pub mod Manager
pub mod Syscalls
mod Tests
