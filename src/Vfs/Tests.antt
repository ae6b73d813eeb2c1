-- ===== src/Vfs/Tests.antt =====
-- Runs of kernel/fs/inode.cpp and kernel/fs/file.cpp, and the theorems at them.
use makarna_x.Base.{
  ℕ, ◌≡◌, refl, ◌⊎◌, true, none, some, List, [], ◌∷◌, ◌++◌, ◌==◌, if◌then◌else◌, arith, replicate,
  length-replicate,
}
use makarna_x.Sched.State.{pos, ListId, list_eq, runnable, waiting, running, Sched}
use makarna_x.Sched.Consistent.{Consistent}
use makarna_x.Sched.Tests.{three, three-Consistent}
use makarna_x.DenemeFs.Store.{Name, FileMode, ft_regular, bytes, Table, file_inode_op, done}
use makarna_x.DenemeFs.Dir.{denemefs_lookup}
use makarna_x.DenemeFs.Tests.{root, one_file}
use makarna_x.Vfs.World.{World}
use makarna_x.Vfs.Dirent.{dirent_lookup}
use makarna_x.Vfs.Coherent.{Agrees, dirent_lookup-Agrees}
use makarna_x.Vfs.Cache.{Coherent}
use makarna_x.Vfs.Resolve.{AllPlain, Resolves, disk_walk, dirent_find-Resolves}
use makarna_x.Vfs.Path.{dirent_find}
use makarna_x.Vfs.Inode.{Inodes, set_val, inode_unlock}
use makarna_x.Vfs.InodeLaws.{inode_unlock_passes}
use makarna_x.Vfs.Open.{OpenFile, file_read}
use makarna_x.Vfs.Reads.{IsReadable, file_read-add}

-- The tasks 2 and 3 wait for the inode 7, whose lock is held; every inode has one reference.
abbrev held : Inodes
held = record { sched = three; val = λ i. pos 0; ref_count = λ i. pos 1; live = λ i. true }

abbrev unlocked : Inodes
unlocked = record { sched = three; val = λ i. pos 1; ref_count = λ i. pos 1; live = λ i. true }

inode_unlock_passes_example :
    ((three.lists (waiting 7) ≡ []) × (inode_unlock held 7 ≡ some (set_val held 7 (pos 1))))
    ⊎ ((t : ℕ) × (ts : List ℕ) × (q : Sched) × (three.lists (waiting 7) ≡ t ∷ ts)
        × (inode_unlock held 7 ≡ some (record held { sched = q }))
        × ((r : ListId)
            → q.lists r ≡ (
                if list_eq (waiting 7) r
                then ts
                else (if list_eq (runnable (three.tasks t).priority) r
                    then three.lists (runnable (three.tasks t).priority) ++ t ∷ []
                    else three.lists r)))
        × ((q.tasks t).state ≡ running)
        × Consistent q)
inode_unlock_passes_example = inode_unlock_passes held 7 three-Consistent refl

abbrev mode_rw : FileMode
mode_rw = record { read = 1; write = 1; type = ft_regular }

-- Every inode is a regular file of 1000 bytes.
abbrev files : Table
files i = record {
  mode = mode_rw;
  nlinks = 1;
  size = 1000;
  dev = 0;
  content = bytes (replicate 1000 0);
}

abbrev at_start : OpenFile
at_start = record {
  file = record {
    inode = record { ino = 1; op = file_inode_op; size = 1000; mode = mode_rw; superblock = 0 };
    fpos = 0;
  };
  flags = 3;
}

at_start-IsReadable : IsReadable at_start (replicate 1000 0) files
at_start-IsReadable = record {
  flags = refl;
  op = refl;
  file = record {
    regular = refl;
    content = refl;
    size = rw (length-replicate {A = ℕ} 1000 0) (omega arith);
  };
}

file_read-add_example :
    (r : List ℕ) × (q : List ℕ) × (g : OpenFile) × (h : OpenFile) × (file_read at_start 10 files
      ≡ (done (r, g), files))
    × (file_read g 20 files ≡ (done (q, h), files))
    × (file_read at_start 30 files ≡ (done (r ++ q, h), files))
file_read-add_example = file_read-add at_start 10 20 (replicate 1000 0) files at_start-IsReadable

-- The cache with the root alone, whose inode is 1, over the table with one file in the root.
abbrev pub small : World
small = record {
  dirents = λ d. record {
    ref_count = pos 1;
    inode = if d == 0 then some 1 else none;
    name = [];
    parent = none;
    childs = [];
  };
  inodes = λ i. root;
  refs = λ i. pos 1;
  files = λ f. record { inode = 0; fpos = 0; flags = 0 };
  next = 2;
  table = one_file;
  root = 0;
  pwd = 0;
  fds = λ n. none;
}

pub small-Coherent : Coherent small
small-Coherent = record {
  cached = λ d c i a b. absurd (ground arith);
  known = λ d c a. absurd (ground arith);
  unused = λ d a. ground arith;
  bounded = λ d i a. ground arith;
  counted = λ d. refl;
}

-- The path "//a/".
abbrev pub a_path : List ℕ
a_path = b'/' ∷ b'/' ∷ b'a' ∷ b'/' ∷ []

abbrev a_names : List Name
a_names = (b'a' ∷ []) ∷ []

a_plain : AllPlain a_names
a_plain = (λ h. absurd (ground arith), λ h. absurd (ground arith), tt)

dirent_lookup-Agrees_example :
    Agrees small 0 (denemefs_lookup root (b'a' ∷ []) one_file).0 (dirent_lookup 0 (b'a' ∷ []) small)
dirent_lookup-Agrees_example =
    dirent_lookup-Agrees small 0 1 (b'a' ∷ []) small-Coherent refl (λ h. absurd (ground arith))
      (λ h. absurd (ground arith))

dirent_find-Resolves_example :
    Resolves small (disk_walk one_file root a_names) (dirent_find a_path 4 small)
dirent_find-Resolves_example =
    dirent_find-Resolves a_path 4 1 small small-Coherent refl (omega arith, tt) a_plain
