-- ===== src/Lib.antt =====
-- Verification of the MakarnaX kernel: parts of kernel/ whose logic stands above the machine.
--
-- The parts and how they interact. A call of a program goes to the file layer (kernel/fs), which
-- works on inodes of the file system in memory (kernel/fs/denemefs). A lock or a semaphore
-- (kernel/fs/inode.cpp, kernel/ipc/semaphore.cpp) puts a task into a list, and the scheduler
-- (kernel/sched.cpp) keeps these lists, the queues of the tasks that can run, and the clock. The
-- memory of all of them comes from the list of free pages (kernel/memory/physical.h).
--
-- - Base, with Base/Tests, Base/Lists and Base/Members: Boolean tests, lists measured by native
--   numbers, membership in a list of numbers.
-- - DenemeFs: kernel/fs/denemefs. Store has the table `di` and the steps of a call over it; Dir has
--   dir.cpp, denemefs.cpp and the calls of file.cpp that change a directory; File has reading and
--   writing. Entries, Tables, Create and Remove hold lemmas on them; Invariant has the well-formed
--   tables; Calls has all directory calls as one type. Kept, Lookups, Limits, Bytes and ReadWrite hold
--   the theorems.
-- - Memory: kernel/memory/physical.h in Pages; FreeList says which sequence of pages a list stands for,
--   and Queue has the theorems. Virtual has the page tables of kernel/memory/virtual.h and virtual.cpp,
--   and UserRange and UserAddr the theorems on them.
-- - Flow: calls over a state, for the modules Spaces, Shm and Tasks.
-- - Spaces: the page tables of all tasks. State has the directories, the bitmap of temporary pages and the
--   bytes of pages; Tmp, Segments and TaskVm have kernel/memory/virtual.h, virtual.cpp and the functions
--   of kernel/task.cpp on one address space. Bitmap, Entries, Leave, Ready, TmpAlloc, TmpFree, TmpRound,
--   Tables, PageInsert, CopyPage, Copies, CopyLoop, CopyRange and Setup follow `copy_pages` and
--   `task_setup_vm` down to the bits and the reference counts.
-- - Shm: kernel/ipc/shared_memory.cpp, its state in State and its calls in Calls; Keys and Created have
--   the lemmas and theorems on `sys_shmget`.
-- - Tasks: `do_fork` of kernel/task.cpp in Fork, over the state of State; Free has `task_free` and
--   `free_zombie_tasks`; UserCopy, UserFork and Forked follow `do_fork` to the memory of a child, Started has the theorem on
--   its start, and Freed what `task_free` does to the lists, which Sched/Exit relies on.
-- - Text: lib/genel_fonksiyonlar.c in Convert, with what it writes in Written and what is read back in
--   RoundTrip.
-- - Heap: kernel/memory/kmalloc.h in State and kmalloc.cpp in Kmalloc; Buddy, Halves, Undo and Steps have
--   lemmas on the addresses and on splits and merges; RoundTrip, Sizes and FromPage have the theorems.
-- - Hash: include/wmc/idhashtable.h in Table, the theorems in Chains and Laws.
-- - Sched: kernel/sched.cpp and `send_signal` of kernel/signal.cpp, with the lists of
--   include/wmc/__list.h. State, Queues, Signal and Timer have the code; Consistent has the invariant
--   of the lists; Exit has `do_exit` and `sys_wait` of kernel/task_exit.cpp; Check has
--   `check_signals`, and Settled what it leaves; Runnable, Pick, Delivery, Due, Clock and ExitLaws have
--   the other theorems.
-- - Ipc: kernel/ipc/semaphore.cpp in Semaphore, the table of kernel/ipc/ipc.cpp in Dispatch, and `schedule`
--   of kernel/sched.cpp in Schedule.
-- - Vfs: the locks of kernel/fs/inode.cpp in Inode and InodeLaws, and the data of open files
--   (kernel/fs/file.cpp) in Open and Reads. World is the state that the rest shares: the cache of
--   directory entries, the inodes, the open files, the table of DenemeFs, and `fs` of the running task.
--   Dirent, Path and Remove have kernel/fs/dirent.cpp, Files the other functions of inode.cpp and
--   file.cpp, and Fd the calls of kernel/fs/sys_fs.cpp and kernel/fs/task_fs.cpp. Cache says when the
--   cache agrees with the disk; Coherent, Walk, Resolve, RemoveEnds, OpenClose, Relative, Copies and
--   Fork have the theorems.
-- - Locks: kernel/spinlock.cpp in Cli, and nested critical sections in Nesting.
-- - The modules with Tests in their name run the code on small states and apply the theorems to them.
--
-- A definition has the name of its function. A pointer to an inode, a page, a task or a semaphore is a
-- number, NULL is `none`, and an array or a store is a function of the number. A failed ASSERT, a
-- PANIC, and a write past the end of an array are `none`, or `stop` in DenemeFs, where `fails n` is
-- `return -n`. Integers of the machine have their width written out where the code depends on it: the
-- 20 bits of a page's link, and 32 bits of counters and times.
--
-- Bounds. `find_from` has the 100 rounds of the array `di`, `find_level` the 40 queues that the loop
-- visits, `find_loop` one round more than the path has bytes, which is enough since each round
-- but the last takes a byte, and `exchange_loop` two rounds, after which it has ended.
-- `delete_childs` has one round more than all lists of children have members, of which each round takes
-- one, and `fails 0` where its rounds end; `find` of the hash table one more than the table has nodes; `grow` 32, of which 7 are used;
-- `merge_up` and `split_down` the sizes up to a page; `free_loop` and `verify_loop` the pages of the
-- range, and so do the loops of Spaces and Shm; `write_loop` has 32 rounds, one for each bit,
-- `swap_loop` one for each digit, `hex_loop` and `dec_loop` one more than the text has characters, and
-- `free_descs` one more than the task has descriptors. Every other loop is a recursion on the list, the places or the number of bytes that it goes
-- through.
--
-- Not modelled: the interrupt flag outside Locks and Shm, since the functions run with interrupts off; the
-- switch of stacks and page tables, so that a call that sleeps is modelled up to its call of
-- `schedule`, and `do_fork` for the parent; the spin locks of the cache; what
-- `check_signals` does after a handler has returned, and `free_sigstack`; the tables of
-- the kernel as the tasks see them, which are read through `kernel_dir`; output; boot. Outside Heap,
-- kmalloc is taken to give memory, but in Shm and Tasks, where its addresses are a list that ends.
pub mod Base
pub mod DenemeFs
pub mod Flow
pub mod Memory
pub mod Spaces
pub mod Shm
pub mod Tasks
pub mod Text
pub mod Heap
pub mod Hash
pub mod Sched
pub mod Ipc
pub mod Vfs
pub mod Locks
