-- ===== src/Shm.antt =====
-- kernel/ipc/shared_memory.cpp.
pub mod State
pub mod Calls
pub mod Keys
pub mod Created
pub mod Tests
