-- ===== src/Heap.antt =====
-- kernel/memory/kmalloc.h and kmalloc.cpp: the kernel's heap of blocks of 32 to 2048 bytes.
pub mod State
pub mod Kmalloc
pub mod Buddy
pub mod Halves
pub mod Undo
pub mod Steps
pub mod RoundTrip
pub mod Sizes
pub mod FromPage
pub mod Tests
