-- ===== src/Vfs.antt =====
-- kernel/fs: the inodes in memory, the cache of directory entries and the open files, over the tasks
-- of Sched.antt and the files of DenemeFs.antt.
pub mod Inode
pub mod InodeLaws
pub mod Open
pub mod Reads
pub mod World
pub mod Dirent
pub mod Cache
pub mod Coherent
pub mod Path
pub mod Walk
pub mod Resolve
pub mod Remove
pub mod Files
pub mod Fd
pub mod OpenClose
pub mod Relative
pub mod Copies
pub mod Fork
pub mod RemoveEnds
pub mod Tests
pub mod FileTests
