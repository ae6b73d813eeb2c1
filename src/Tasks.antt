-- ===== src/Tasks.antt =====
-- `do_fork` of kernel/task.cpp.
pub mod State
pub mod Fork
pub mod Free
pub mod Freed
pub mod UserCopy
pub mod UserFork
pub mod Forked
pub mod Started
pub mod Tests
