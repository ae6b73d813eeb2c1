-- ===== src/Ipc.antt =====
-- kernel/ipc: what processes share.
pub mod Semaphore
pub mod Dispatch
pub mod SemaphoreLaws
pub mod Schedule
pub mod Tests
