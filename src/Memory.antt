-- ===== src/Memory.antt =====
-- kernel/memory: the physical pages and the list of the free ones, and the page tables of a task.
pub mod Pages
pub mod FreeList
pub mod Queue
pub mod Virtual
pub mod UserRange
pub mod UserAddr
pub mod VirtualTests
pub mod Tests
