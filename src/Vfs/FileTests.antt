-- ===== src/Vfs/FileTests.antt =====
-- Runs of the files of a task, and the theorems at them.
use makarna_x.Base.{
  ℕ, ◌<◌, ◌≤◌, ◌≡◌, ◌≢◌, ◌-◌, refl, none, some, List, [], ◌∷◌, ◌==◌, if◌then◌else◌, arith,
}
use makarna_x.Sched.State.{pos}
use makarna_x.DenemeFs.Store.{done, stop}
use makarna_x.DenemeFs.Dir.{denemefs_lookup, lookup_in, find_entry, fill_inode}
use makarna_x.DenemeFs.File.{denemefs_permission}
use makarna_x.Vfs.World.{World, dirent_dup, dirent_free, inode_ref}
use makarna_x.Vfs.Dirent.{
  dirent_lookup, lookup_live, lookup_disk, find_child, dirent_cache_add, inode_new,
}
use makarna_x.Vfs.Path.{parse_path_i, visit, find_loop, dirent_find}
use makarna_x.Vfs.Remove.{dirent_delete, count_childs}
use makarna_x.Vfs.RemoveEnds.{Ended, dirent_delete-ends}
use makarna_x.Vfs.Files.{whole, inode_find, inode_permission}
use makarna_x.Vfs.Fd.{TaskFs, sys_open, sys_close, fs_fork, task_curr_free_files}
use makarna_x.Vfs.OpenClose.{sys_open-sys_close}
use makarna_x.Vfs.Relative.{repeated, repeated-stop}
use makarna_x.Vfs.Fork.{run_child, fs_fork-task_curr_free_files}
use makarna_x.Vfs.Copies.{IsCounted, IsCopy}
use makarna_x.Vfs.Tests.{small, a_path}

-- The state after the file has been found.
abbrev found : World
found = (inode_find a_path whole small).1

sys_open-sys_close_example :
    (w2 : World) × (w3 : World) × (sys_open a_path 1 small ≡ (done 3, w2))
    × (sys_close 3 w2 ≡ (done tt, w3))
    × (3 ≤ 3)
    × (3 < 32)
    × ((m : ℕ) → 3 ≤ m → m < 3 → found.fds m ≢ none)
    × ((m : ℕ) → w3.fds m ≡ found.fds m)
    × (w3.refs 2 ≡ pos 3)
unfolding inode_find dirent_find find_loop parse_path_i visit dirent_lookup lookup_live lookup_disk
    find_child dirent_cache_add inode_new denemefs_lookup lookup_in find_entry fill_inode dirent_dup
    dirent_free inode_ref inode_permission denemefs_permission
sys_open-sys_close_example = sys_open-sys_close a_path 1 small found 2 3 2 refl refl refl refl

-- The name "b".
abbrev b_name : List ℕ
b_name = b'b' ∷ []

repeated-stop_example :
    ((k : ℕ) → k < 1 → (repeated k b_name small).0 ≡ done (1, b_name))
    × ((repeated 1 b_name small).0 ≡ stop)
repeated-stop_example = repeated-stop 1 b_name small 1 refl refl refl

-- Two places hold the file 1, and another one the file 0; the inode 0 has three files.
abbrev busy : World
busy = record small {
  fds = λ n.
      if n == 3 then some 1 else (if n == 4 then some 1 else (if n == 9 then some 0 else none));
  refs = λ i. pos 5;
}

fs_fork-task_curr_free_files_example :
    (t : TaskFs) × (w1 : World) × (w2 : World) × (fs_fork (λ n. none) busy ≡ (done t, w1))
    × ((m : ℕ) → m < 32 → IsCopy busy w1 (busy.fds m) (t.fds m))
    × (w1.fds ≡ busy.fds)
    × ((f : ℕ) → f < busy.next → w1.files f ≡ busy.files f)
    × (task_curr_free_files (run_child t w1) ≡ (done tt, w2))
    × ((m : ℕ) → m < 32 → w2.fds m ≡ none)
    × IsCounted w2 (λ i. 5)
fs_fork-task_curr_free_files_example =
    fs_fork-task_curr_free_files busy (λ i. 5) (λ n. none) (λ m f h. ground (arith, h)) (λ j. refl)

-- The root with one child, which has another.
abbrev nested : World
nested = record small {
  dirents = λ d. record {
    ref_count = pos 1;
    inode = some 1;
    name = [];
    parent = if d == 0 then none else some (d - 1);
    childs = if d == 0 then 1 ∷ [] else (if d == 1 then 2 ∷ [] else []);
  };
  next = 3;
}

dirent_delete-ends_example :
    (dirent_delete 7 1 nested ≡ dirent_delete 3 1 nested)
    × Ended (dirent_delete 7 1 nested).0
    × (count_childs (dirent_delete 7 1 nested).1.dirents 3 ≤ 2)
dirent_delete-ends_example = dirent_delete-ends 1 7 nested (λ d a. ground (arith, a)) (omega arith)

-- Every place has a file.
abbrev full : World
full = record small { fds = λ n. some 9 }

abbrev full_found : World
full_found = (inode_find a_path whole full).1
