-- ===== src/Spaces.antt =====
-- kernel/memory/virtual.h and virtual.cpp over the page tables of all tasks, and the part of
-- kernel/task.cpp that makes and frees them.
pub mod State
pub mod Bitmap
pub mod Tmp
pub mod Entries
pub mod Ready
pub mod TmpAlloc
pub mod Leave
pub mod TmpFree
pub mod TmpRound
pub mod Tables
pub mod PageInsert
pub mod CopyPage
pub mod Copies
pub mod CopyLoop
pub mod CopyRange
pub mod Setup
pub mod Segments
pub mod TaskVm
pub mod Tests
