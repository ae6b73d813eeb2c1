-- ===== src/Vfs/Fd.antt =====
-- The files of a task: kernel/fs/task_fs.cpp, and the calls of kernel/fs/sys_fs.cpp. A pointer of the
-- caller has passed `user_to_kernel_check`. A read of `files` past its end, and a use of the file
-- NULL, stop.
use makarna_x.Base.{ℕ, zero, suc, ◌%◌, ◌/◌, Option, none, some, List, ◌==◌, ltb, if◌then◌else◌}
use makarna_x.Sched.State.{ℤ, pos, negsuc}
use makarna_x.DenemeFs.Store.{
  FileMode, ft_regular, ft_dir, dir_inode_op, file_inode_op, done, fails, stop, Entry,
}
use makarna_x.DenemeFs.File.{denemefs_readdir}
use makarna_x.Vfs.Open.{OpenFile, file_read, file_write, file_lseek}
use makarna_x.Vfs.World.{
  World, V, pure, fail, halt, ◌>>=◌, ◌>>◌, get, or_halt, put_file, on_table, dirent_dup, inode_ref,
}
use makarna_x.Vfs.Path.{dirent_find}
use makarna_x.Vfs.Files.{whole, inode_find, file_open, file_close, file_dup, unlink, create, recode}

abbrev pub task_max_file_nr : ℕ
task_max_file_nr = 32

-- task_curr->fs.files[fd] = f
abbrev pub set_fd : ℕ → Option ℕ → V (Unit {0})
set_fd fd f w = (done tt, record w { fds = λ n. if fd == n then f else w.fds n })

-- task_curr->fs.files[fd]
abbrev pub fd_file : ℕ → V (Option ℕ)
fd_file fd w = if ltb fd task_max_file_nr then (done (w.fds fd), w) else (stop, w)

unfoldable pub task_curr_get_file : ℕ → V (Option ℕ)
task_curr_get_file fd = fd_file fd

-- The loop of `sys_open`, with the rounds left.
abbrev pub first_free : ℕ → ℕ → (ℕ → Option ℕ) → Option ℕ
first_free zero fd fds = none
first_free (suc k) fd fds = elim (fds fd) [ none ↦ some fd | some f ↦ first_free k (suc fd) fds ]

-- `sys_open` after `file_open`: with no place left the file stays open.
unfoldable pub install : ℕ → V ℕ
install f w = elim (first_free 29 3 w.fds) [
  | none ↦ (fails 1, w)
  | some fd ↦ (do set_fd fd (some f); i ← inode_ref (w.files f).inode; pure fd) w
]

unfoldable pub sys_open : List ℕ → ℕ → V ℕ
sys_open path flags = file_open path flags >>= λ f. install f

unfoldable pub sys_close : ℕ → V (Unit {0})
sys_close fd = do
  f ← fd_file fd
  elim f [ none ↦ fail 1 | some g ↦ (do file_close g; set_fd fd none) ]

-- The file behind `f` for the functions of Vfs/Open.antt, and its position after them.
abbrev pub opened : World → ℕ → OpenFile
opened w f = record {
  file = record { inode = w.inodes (w.files f).inode; fpos = (w.files f).fpos };
  flags = (w.files f).flags;
}

abbrev pub move_to : ℕ → ℕ → V (Unit {0})
move_to f fpos w = (done tt, put_file w f (record (w.files f) { fpos = fpos }))

unfoldable pub sys_read : ℕ → ℕ → V (List ℕ)
sys_read fd size = do
  o ← fd_file fd
  f ← or_halt o
  w ← get
  (r, g) ← on_table (file_read (opened w f) size)
  move_to f g.file.fpos
  pure r

unfoldable pub sys_write : ℕ → List ℕ → V ℕ
sys_write fd buf = do
  o ← fd_file fd
  f ← or_halt o
  w ← get
  (n, g) ← on_table (file_write (opened w f) buf)
  move_to f g.file.fpos
  pure n

unfoldable pub sys_lseek : ℕ → ℕ → ℕ → V (Unit {0})
sys_lseek fd offset whence = do
  o ← task_curr_get_file fd
  f ← or_halt o
  w ← get
  g ← on_table (file_lseek (opened w f) offset whence)
  move_to f g.file.fpos

abbrev pub mode_of : ℕ → ℕ → FileMode
mode_of mode type = record { read = mode % 2; write = mode / 2 % 2; type = type }

abbrev pub ft_chrdev : ℕ
ft_chrdev = 4

unfoldable pub sys_creat : List ℕ → ℕ → V (Unit {0})
sys_creat path mode = create path (mode_of mode ft_regular)

unfoldable pub sys_mkdir : List ℕ → ℕ → V (Unit {0})
sys_mkdir path mode = create path (mode_of mode ft_dir)

unfoldable pub sys_mknod : List ℕ → ℕ → ℕ → V (Unit {0})
sys_mknod path mode dev = create path (mode_of mode ft_chrdev)

unfoldable pub sys_unlink : List ℕ → V (Unit {0})
sys_unlink path = unlink path ft_regular

unfoldable pub sys_rmdir : List ℕ → V (Unit {0})
sys_rmdir path = unlink path ft_dir

-- `pwd` before keeps its reference.
unfoldable pub sys_chdir : List ℕ → V (Unit {0})
sys_chdir path = dirent_find path whole >>= λ d. λ w. (done tt, record w { pwd = d })

-- `struct stat`, its fields that depend on the file.
pub record Stat : Type 0 where
  pub st_ino : ℕ
  pub st_size : ℕ
  pub st_blocks : ℕ

unfoldable pub file_stat_inode : ℕ → V Stat
file_stat_inode i w =
    let size = (w.inodes i).size in
    (done (record { st_ino = (w.inodes i).ino; st_size = size; st_blocks = size / 512 }), w)

-- The inode keeps the reference of `inode_find`.
unfoldable pub file_stat : List ℕ → V Stat
file_stat path w =
    (do i ← recode (inode_find path whole w).0 1; file_stat_inode i) (inode_find path whole w).1

unfoldable pub file_stat_fd : ℕ → V Stat
file_stat_fd fd = do
  o ← task_curr_get_file fd
  w ← get
  if ltb fd 3 then fail 1 else (do f ← or_halt o; file_stat_inode (w.files f).inode)

-- dirp->dd_fd == -1 || dirp->dd_fd > TASK_MAX_FILE_NR: the number for `files`. Other numbers below 0
-- read before its start.
abbrev pub dir_fd : ℤ → V ℕ
dir_fd (pos n) = if ltb task_max_file_nr n then fail 1 else pure n
dir_fd (negsuc n) = if n == 0 then fail 1 else halt

unfoldable pub sys_readdir : ℤ → V Entry
sys_readdir dd_fd = do
  fd ← dir_fd dd_fd
  o ← fd_file fd
  f ← or_halt o
  w ← get
  elim (opened w f).file.inode.op [
    | file_inode_op ↦ fail 2
    | dir_inode_op ↦ (do
      (e, g) ← on_table (denemefs_readdir (opened w f).file)
      move_to f g.fpos
      pure e)
  ]

-- `fs` of another task.
pub record TaskFs : Type 0 where
  pub root : ℕ
  pub pwd : ℕ
  pub fds : ℕ → Option ℕ

unfoldable pub fs_task_init : ℕ → V (ℕ × ℕ)
fs_task_init root = do r ← dirent_dup root; p ← dirent_dup root; pure (r, p)

-- The loop of `fs_fork`, with the rounds left.
unfoldable pub dup_files : ℕ → ℕ → (ℕ → Option ℕ) → V (ℕ → Option ℕ)
dup_files zero i fds w = (done fds, w)
dup_files (suc k) i fds w = elim (w.fds i) [
  | none ↦ dup_files k (suc i) (λ n. if i == n then none else fds n) w
  | some f ↦ (file_dup f >>= λ g. dup_files k (suc i) (λ n. if i == n then some g else fds n)) w
]

-- `fs_fork` into a child whose places hold `old`.
unfoldable pub fs_fork : (ℕ → Option ℕ) → V TaskFs
fs_fork old = do
  w ← get
  root ← dirent_dup w.root
  pwd ← dirent_dup w.pwd
  fds ← dup_files task_max_file_nr 0 old
  pure (record { root = root; pwd = pwd; fds = fds })

-- The loop of `task_curr_free_files`, with the rounds left.
unfoldable pub close_files : ℕ → ℕ → V (Unit {0})
close_files zero i w = (done tt, w)
close_files (suc k) i w = elim (w.fds i) [
  | none ↦ close_files k (suc i) w
  | some f ↦ (do file_close f; set_fd i none; close_files k (suc i)) w
]

unfoldable pub task_curr_free_files : V (Unit {0})
task_curr_free_files = close_files task_max_file_nr 0
