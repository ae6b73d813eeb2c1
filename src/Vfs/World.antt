-- ===== src/Vfs/World.antt =====
-- The state of the file layer of kernel/fs: the directory entries of the cache, the inodes in memory,
-- the table of kernel/fs/denemefs, and `fs` of the running task, whose 32 places for files are `fds`. An entry, an inode and a file is the
-- address that `kmalloc` gave it, which is `next`. Spin locks and the locks of inodes are taken as
-- free: Vfs/Inode.antt and Locks.antt model them.
use makarna_x.Base.{ℕ, Option, none, some, List, ◌==◌, if◌then◌else◌}
use makarna_x.Sched.State.{ℤ, pred_ℤ, is_negative}
use makarna_x.Ipc.Semaphore.{suc_ℤ}
use makarna_x.DenemeFs.Store.{Name, Table, Inode, Outcome, done, fails, stop}

-- `struct dirent`.
pub record Dirent : Type 0 where
  pub ref_count : ℤ
  pub inode : Option ℕ
  pub name : Name
  pub parent : Option ℕ
  pub childs : List ℕ

-- `struct file`, without its operations, which are those of its inode.
pub record Opened : Type 0 where
  pub inode : ℕ
  pub fpos : ℕ
  pub flags : ℕ

pub record World : Type 0 where
  pub dirents : ℕ → Dirent
  pub inodes : ℕ → Inode
  pub refs : ℕ → ℤ
  pub files : ℕ → Opened
  pub next : ℕ
  pub table : Table
  pub root : ℕ
  pub pwd : ℕ
  pub fds : ℕ → Option ℕ

-- A call over the state: a negative return keeps the changes made before it.
abbrev pub V : Type 0 → Type 0
V A = World → Outcome A × World

abbrev pub pure : {A : Type 0} → A → V A
pure a w = (done a, w)

abbrev pub fail : {A : Type 0} → ℕ → V A
fail n w = (fails n, w)

abbrev pub halt : {A : Type 0} → V A
halt w = (stop, w)

abbrev pub continue : {A B : Type 0} → (A → V B) → Outcome A → World → Outcome B × World
continue f (done a) w = f a w
continue f (fails n) w = (fails n, w)
continue f stop w = (stop, w)

infixl 5 ◌>>=◌ ◌>>◌
abbrev pub ◌>>=◌ : {A B : Type 0} → V A → (A → V B) → V B
◌>>=◌ m f w = continue f (m w).0 (m w).1

abbrev pub ◌>>◌ : {B : Type 0} → V (Unit {0}) → V B → V B
m >> k = m >>= λ _. k

abbrev pub get : V World
get w = (done w, w)

abbrev pub or_halt : {A : Type 0} → Option A → V A
or_halt none = halt
or_halt (some a) = pure a

abbrev pub or_fail : {A : Type 0} → Option A → ℕ → V A
or_fail none n = fail n
or_fail (some a) n = pure a

abbrev pub put_dirent : World → ℕ → Dirent → World
put_dirent w d v = record w { dirents = λ e. if d == e then v else w.dirents e }

abbrev pub put_refs : World → ℕ → ℤ → World
put_refs w i n = record w { refs = λ j. if i == j then n else w.refs j }

abbrev pub put_inode : World → ℕ → Inode → World
put_inode w i v = record w { inodes = λ j. if i == j then v else w.inodes j }

abbrev pub put_file : World → ℕ → Opened → World
put_file w f v = record w { files = λ g. if f == g then v else w.files g }

-- A call of the file system `m`, on the table.
abbrev pub on_table : {A : Type 0} → (Table → Outcome A × Table) → V A
on_table m w = ((m w.table).0, record w { table = (m w.table).1 })

-- `dirent_dup`
unfoldable pub dirent_dup : ℕ → V ℕ
dirent_dup d w =
    (done d, put_dirent w d (record (w.dirents d) { ref_count = suc_ℤ (w.dirents d).ref_count }))

-- `dirent_free`: below 0 the ASSERT of `__dirent_free` on a count of 0 fails.
unfoldable pub dirent_free : ℕ → V (Unit {0})
dirent_free d w =
    let n = pred_ℤ (w.dirents d).ref_count in
    if is_negative n
    then (stop, w)
    else (done tt, put_dirent w d (record (w.dirents d) { ref_count = n }))

-- `inode_dup` of an inode that is there.
unfoldable pub inode_ref : ℕ → V ℕ
inode_ref i w = (done i, put_refs w i (suc_ℤ (w.refs i)))

-- `inode_free`: below 0 the ASSERT of `__inode_free` on a count of 0 fails.
unfoldable pub inode_unref : ℕ → V (Unit {0})
inode_unref i w =
    let n = pred_ℤ (w.refs i) in if is_negative n then (stop, w) else (done tt, put_refs w i n)
