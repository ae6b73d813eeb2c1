-- ===== src/DenemeFs.antt =====
-- kernel/fs/denemefs: the file system that is held in memory. `di` is the table of the same name;
-- an index of it is an inode number. A directory's `Deneme_subdentry` is the list of its first `n`
-- slots, which are all that the code reads, so `n` is the list's length. Names are byte lists
-- without their final 0. Memory that `kmalloc` gives is taken to be there.
pub mod Store
pub mod Dir
pub mod File
pub mod Entries
pub mod Tables
pub mod Create
pub mod Invariant
pub mod Remove
pub mod Calls
pub mod Kept
pub mod Lookups
pub mod Limits
pub mod Bytes
pub mod ReadWrite
pub mod Tests
