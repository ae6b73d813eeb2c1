-- ===== src/Locks.antt =====
-- kernel/spinlock.cpp: the nesting of the interrupt flag, and the spin lock.
pub mod Cli
pub mod Nesting
pub mod Tests
