-- ===== src/Vfs/Files.antt =====
-- `inode_find`, `inode_find2` and `inode_permission` of kernel/fs/inode.cpp, and the functions of
-- kernel/fs/file.cpp that open, close and copy files and change directories.
use makarna_x.Base.{
  ℕ, suc, ◌+◌, ◌*◌, ◌%◌, ◌/◌, Bool, ◌&&◌, ◌||◌, Option, none, some, List, ◌==◌, ltb, if◌then◌else◌,
}
use makarna_x.Ipc.Semaphore.{is_positive}
use makarna_x.DenemeFs.Store.{
  Name, FileMode, ft_regular, ft_dir, dir_inode_op, file_inode_op, Outcome, done, fails, stop,
}
use makarna_x.DenemeFs.Dir.{denemefs_unlink, denemefs_rmdir, denemefs_create, denemefs_mkdir}
use makarna_x.DenemeFs.File.{denemefs_permission}
use makarna_x.Vfs.World.{
  Opened, V, pure, fail, halt, ◌>>=◌, ◌>>◌, get, or_fail, put_file, on_table, dirent_free,
  inode_ref, inode_unref,
}
use makarna_x.Vfs.Path.{dirent_find, dirent_find2}
use makarna_x.Vfs.Remove.{dirent_cache_remove}

-- The length -1 as a `size_t`.
abbrev pub whole : ℕ
whole = 4294967295

-- `inode_dup` of the inode of an entry, which may be NULL.
abbrev pub dup_inode_of : ℕ → V (Option ℕ)
dup_inode_of d w = elim (w.dirents d).inode [
  | none ↦ (done none, w)
  | some i ↦ (do j ← inode_ref i; pure (some j)) w
]

unfoldable pub inode_find : List ℕ → ℕ → V ℕ
inode_find path len = do d ← dirent_find path len; i ← dup_inode_of d; dirent_free d; or_fail i 1

-- `inode_find2` after `dirent_find2`.
abbrev pub inode_in : ℕ × List ℕ → V (ℕ × List ℕ)
inode_in (d, name) = do i ← dup_inode_of d; dirent_free d; j ← or_fail i 1; pure (j, name)

unfoldable pub inode_find2 : List ℕ → V (ℕ × List ℕ)
inode_find2 path = dirent_find2 path >>= λ found. inode_in found

-- (mode & flags) == flags: `mode` has the bits `read` and `write`.
abbrev pub allows : FileMode → ℕ → Bool
allows mode flags =
    ltb flags 4 && (mode.read == 1 || flags % 2 == 0) && (mode.write == 1 || flags / 2 == 0)

-- Every inode of denemefs has `denemefs_permission` for `permission`.
unfoldable pub inode_permission : ℕ → ℕ → V Bool
inode_permission i flags = do
  w ← get
  granted ← on_table (denemefs_permission (w.inodes i).ino flags)
  pure (granted || allows (w.inodes i).mode flags)

abbrev pub or_read : ℕ → ℕ
or_read flags = if flags == 0 then 1 else flags

-- The `struct file` that `kmalloc` gives, filled.
abbrev pub alloc_file : Opened → V ℕ
alloc_file v w = (done w.next, put_file (record w { next = suc w.next }) w.next v)

-- The part of `file_open` from the permission on. No file of denemefs has an `open`.
unfoldable pub open_inode : ℕ → ℕ → V ℕ
open_inode i flags = do
  granted ← inode_permission i flags
  if granted
      then (do
        f ← alloc_file (record { inode = i; fpos = 0; flags = flags })
        j ← inode_ref i
        pure f)
      else fail 1

unfoldable pub file_open : List ℕ → ℕ → V ℕ
file_open path flags = inode_find path whole >>= λ i. open_inode i (or_read flags)

-- ASSERT(f->inode->ref_count > 0). No file of denemefs has a `release`.
unfoldable pub file_close : ℕ → V (Unit {0})
file_close f = do
  w ← get
  if is_positive (w.refs (w.files f).inode) then inode_unref (w.files f).inode else halt

-- The count is raised without the lock.
unfoldable pub file_dup : ℕ → V ℕ
file_dup f = do w ← get; g ← alloc_file (w.files f); i ← inode_ref (w.files f).inode; pure g

-- The functions of the directory's `op`; those of a file are NULL.
abbrev pub op_unlink : ℕ → ℕ → Name → V (Unit {0})
op_unlink file_type dir name w = elim (w.inodes dir).op [
  | file_inode_op ↦ halt w
  | dir_inode_op ↦
      if file_type == ft_regular
      then on_table (denemefs_unlink (w.inodes dir) name) w
      else (if file_type == ft_dir
          then on_table (denemefs_rmdir (w.inodes dir) name) w
          else pure tt w)
]

abbrev pub recode : {A : Type 0} → Outcome A → ℕ → V A
recode (done a) n = pure a
recode (fails k) n = fail n
recode stop n = halt

unfoldable pub unlink : List ℕ → ℕ → V (Unit {0})
unlink path file_type w =
    (do
      (dir, name) ← recode (inode_find2 path w).0 1
      granted ← inode_permission dir 3
      if granted then (do op_unlink file_type dir name; dirent_cache_remove path) else fail 1)
      (inode_find2 path w).1

-- `create` or `mkdir` of the directory's `op`.
abbrev pub op_create : FileMode → ℕ → Name → V (Unit {0})
op_create fmode dir name w =
    let mode = fmode.read + 2 * fmode.write in
    elim (w.inodes dir).op [
      | file_inode_op ↦ halt w
      | dir_inode_op ↦
          if fmode.type == ft_regular
          then (on_table (denemefs_create (w.inodes dir) name mode) >>= λ i. pure tt) w
          else on_table (denemefs_mkdir (w.inodes dir) name mode) w
    ]

abbrev pub is_known_type : FileMode → Bool
is_known_type fmode = fmode.type == ft_regular || fmode.type == ft_dir

-- -3 for a failure of the file system, -4 for another type of file.
abbrev pub create_in : FileMode → ℕ → Name → V (Unit {0})
create_in fmode dir name w =
    if is_known_type fmode
    then recode (op_create fmode dir name w).0 3 (op_create fmode dir name w).1
    else fail 4 w

unfoldable pub create : List ℕ → FileMode → V (Unit {0})
create path fmode w =
    (do
      (dir, name) ← recode (inode_find2 path w).0 1
      granted ← inode_permission dir 3
      if granted then create_in fmode dir name else fail 2)
      (inode_find2 path w).1
