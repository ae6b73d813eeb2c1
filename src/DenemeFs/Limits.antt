-- ===== src/DenemeFs/Limits.antt =====
-- Where an operation of DenemeFs/Dir.antt leaves the defined behaviour: a regular file taken for a
-- directory.
use makarna_x.Base.{ℕ, ◌≡◌, ◌≢◌, some, List, arith}
use makarna_x.DenemeFs.Store.{Name, ft_dir, bytes, Table, Inode, stop, table_size}
use makarna_x.DenemeFs.Dir.{
  find_from, denemefs_add_entry, denemefs_lookup, lookup_in, new_entry, denemefs_new_inode,
  denemefs_mkdir, denemefs_create, denemefs_mknod,
}
use makarna_x.DenemeFs.Entries.{find_from-some}
use makarna_x.DenemeFs.Tables.{taken}
use makarna_x.DenemeFs.Calls.{Call, mkdir, create, mknod, unlink, rmdir, perform, call_name}

-- The calls that give a new name.
abbrev pub Adds : Call → Type 0
Adds (mkdir name mode) = Unit {0}
Adds (create name mode) = Unit {0}
Adds (mknod name mode dev) = Unit {0}
Adds (unlink name) = ⊥
Adds (rmdir name) = ⊥

add_entry_not_dir :
    (i_dir : Inode) (name : Name) (ino : ℕ) (b : List ℕ) (di : Table)
    → (di i_dir.ino).mode.type ≢ ft_dir
    → (di i_dir.ino).content ≡ bytes b
    → (denemefs_add_entry i_dir name ino di).0 ≡ stop
unfolding denemefs_add_entry denemefs_lookup lookup_in
add_entry_not_dir i_dir name ino b di t c = ground arith

new_entry_stops :
    (i_dir : Inode) (name : Name) (ino : ℕ) (di : Table)
    → find_from table_size 0 di ≡ some ino
    → (denemefs_add_entry i_dir name ino (taken di ino)).0 ≡ stop
    → (new_entry i_dir name di).0 ≡ stop
unfolding new_entry denemefs_new_inode
new_entry_stops i_dir name ino di free e = ground arith

perform_stops :
    (i_dir : Inode) (call : Call) (di : Table)
    → Adds call
    → (new_entry i_dir (call_name call) di).0 ≡ stop
    → (perform i_dir call di).0 ≡ stop
unfolding perform denemefs_mkdir denemefs_create denemefs_mknod
perform_stops i_dir (mkdir name mode) di a e = ground arith
perform_stops i_dir (create name mode) di a e = ground arith
perform_stops i_dir (mknod name mode dev) di a e = ground arith
perform_stops i_dir (unlink name) di a e = elim a [ ]
perform_stops i_dir (rmdir name) di a e = elim a [ ]

-- The comments of the three calls say that they return -1 where `i_dir` is no directory. With a
-- regular file they go on, and take its bytes for a `Deneme_subdentry`.
pub perform_not_dir :
    (i_dir : Inode) (call : Call) (ino : ℕ) (b : List ℕ) (di : Table)
    → Adds call
    → find_from table_size 0 di ≡ some ino
    → (di i_dir.ino).nlinks ≢ 0
    → (di i_dir.ino).mode.type ≢ ft_dir
    → (di i_dir.ino).content ≡ bytes b
    → (perform i_dir call di).0 ≡ stop
perform_not_dir i_dir call ino b di a free used t c =
    let kept = find_from-some 100 0 ino di free in
    perform_stops i_dir call di a (
      new_entry_stops i_dir (call_name call) ino di free (
        add_entry_not_dir i_dir (call_name call) ino b (taken di ino) (ground arith)
          (ground arith)))
