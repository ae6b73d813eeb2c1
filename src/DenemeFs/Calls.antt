-- ===== src/DenemeFs/Calls.antt =====
-- The calls that change a directory of kernel/fs/denemefs, as one type, and what holds of all of
-- them: the invariant, and what a call that returns below 0 leaves.
use makarna_x.Base.{ℕ, ◌≡◌, ◌≢◌, refl, inl, inr, [], arith}
use makarna_x.DenemeFs.Store.{
  Name, FileMode, ft_dir, Table, Inode, Outcome, Outcome-cases, done, fails, stop,
}
use makarna_x.DenemeFs.Dir.{
  denemefs_mkdir, denemefs_create, denemefs_mknod, denemefs_unlink, denemefs_rmdir, denemefs_lookup,
  denemefs_remove_entry, denemefs_free_inode, new_entry, is_empty_dir,
}
use makarna_x.DenemeFs.Tables.{new_entry_done, Content-cases}
use makarna_x.DenemeFs.Create.{new_dir, new_file, new_node, mkdir_lem, create_lem, mknod_lem}
use makarna_x.DenemeFs.Invariant.{Owner, own, WellFormed, WellFormed-added}
use makarna_x.DenemeFs.Remove.{
  unlink_lem, rmdir_lem, unlink_parts, rmdir_parts, lookup_done, WellFormed-removed,
}

-- A call through the `inode_operations` of a directory, with its arguments.
pub data Call : Type 0 where
  mkdir : Name → ℕ → Call
  create : Name → ℕ → Call
  mknod : Name → FileMode → ℕ → Call
  unlink : Name → Call
  rmdir : Name → Call

abbrev pub call_name : Call → Name
call_name (mkdir name mode) = name
call_name (create name mode) = name
call_name (mknod name mode dev) = name
call_name (unlink name) = name
call_name (rmdir name) = name

abbrev pub forget : Outcome Inode × Table → Outcome (Unit {0}) × Table
forget (done i, di) = (done tt, di)
forget (fails n, di) = (fails n, di)
forget (stop, di) = (stop, di)

pub forget-table : (r : Outcome Inode × Table) → (forget r).1 ≡ r.1
forget-table (done i, di) = refl
forget-table (fails n, di) = refl
forget-table (stop, di) = refl

-- The call in the directory `i_dir`. The inode that `denemefs_create` fills is dropped.
unfoldable pub perform : Inode → Call → Table → Outcome (Unit {0}) × Table
perform i_dir (mkdir name mode) di = denemefs_mkdir i_dir name mode di
perform i_dir (create name mode) di = forget (denemefs_create i_dir name mode di)
perform i_dir (mknod name mode dev) di = denemefs_mknod i_dir name mode dev di
perform i_dir (unlink name) di = denemefs_unlink i_dir name di
perform i_dir (rmdir name) di = denemefs_rmdir i_dir name di

-- `i_dir` is a directory of the table.
pub record IsDir (i_dir : Inode) (di : Table) : Type 0 where
  pub used : (di i_dir.ino).nlinks ≢ 0
  pub is_dir : (di i_dir.ino).mode.type ≡ ft_dir

module _ (i_dir : Inode) (name : Name) (di : Table) where
  new_entry_of_mkdir :
      (mode : ℕ)
      → (denemefs_mkdir i_dir name mode di).0 ≡ done tt
      → (ino : ℕ) × ((new_entry i_dir name di).0 ≡ done ino)
  unfolding denemefs_mkdir
  new_entry_of_mkdir mode e = elim (Outcome-cases (new_entry i_dir name di).0) [
    | inl found ↦ found
    | inr (inl (k, failed)) ↦ absurd (ground arith)
    | inr (inr stopped) ↦ absurd (ground arith)
  ]

  new_entry_of_mknod :
      (mode : FileMode) (dev : ℕ)
      → (denemefs_mknod i_dir name mode dev di).0 ≡ done tt
      → (ino : ℕ) × ((new_entry i_dir name di).0 ≡ done ino)
  unfolding denemefs_mknod
  new_entry_of_mknod mode dev e = elim (Outcome-cases (new_entry i_dir name di).0) [
    | inl found ↦ found
    | inr (inl (k, failed)) ↦ absurd (ground arith)
    | inr (inr stopped) ↦ absurd (ground arith)
  ]

  pub new_entry_of_create :
      (mode : ℕ) (inode : Inode)
      → (denemefs_create i_dir name mode di).0 ≡ done inode
      → (ino : ℕ) × ((new_entry i_dir name di).0 ≡ done ino)
  unfolding denemefs_create
  new_entry_of_create mode inode e = elim (Outcome-cases (new_entry i_dir name di).0) [
    | inl found ↦ found
    | inr (inl (k, failed)) ↦ absurd (ground arith)
    | inr (inr stopped) ↦ absurd (ground arith)
  ]

module _ (owner : Owner) (i_dir : Inode) (name : Name) (di : Table) (w : WellFormed owner di)
    (here : IsDir i_dir di) where
  pub mkdir-WellFormed :
      (mode : ℕ)
      → (denemefs_mkdir i_dir name mode di).0 ≡ done tt
      → (after : Owner) × WellFormed after (denemefs_mkdir i_dir name mode di).1
  mkdir-WellFormed mode e =
      let (ino, made) = new_entry_of_mkdir i_dir name di mode e in
      let (es, room) = new_entry_done i_dir name ino di here.used here.is_dir made in
      (
        own owner ino i_dir.ino name,
        rw (mkdir_lem i_dir name ino es di room here.used mode) (
            WellFormed-added owner i_dir.ino name ino es di room here.used w (new_dir (di ino) mode)
              (refl, λ fs c. ground arith)),
      )

  pub create-WellFormed :
      (mode : ℕ) (inode : Inode)
      → (denemefs_create i_dir name mode di).0 ≡ done inode
      → (after : Owner) × WellFormed after (denemefs_create i_dir name mode di).1
  create-WellFormed mode inode e =
      let (ino, made) = new_entry_of_create i_dir name di mode inode e in
      let (es, room) = new_entry_done i_dir name ino di here.used here.is_dir made in
      (
        own owner ino i_dir.ino name,
        rw (create_lem i_dir name ino es di room here.used mode) (
            WellFormed-added owner i_dir.ino name ino es di room here.used w
              (new_file (di ino) mode) (refl, λ fs c. absurd (ground arith))),
      )

  pub mknod-WellFormed :
      (mode : FileMode) (dev : ℕ)
      → (denemefs_mknod i_dir name mode dev di).0 ≡ done tt
      → (after : Owner) × WellFormed after (denemefs_mknod i_dir name mode dev di).1
  mknod-WellFormed mode dev e =
      let (ino, made) = new_entry_of_mknod i_dir name di mode dev e in
      let (es, room) = new_entry_done i_dir name ino di here.used here.is_dir made in
      (
        own owner ino i_dir.ino name,
        rw (mknod_lem i_dir name ino es di room here.used mode dev) (
            WellFormed-added owner i_dir.ino name ino es di room here.used w
              (new_node (di ino) mode dev) (refl, λ fs c. absurd (ground arith))),
      )

  pub unlink-WellFormed :
      name ≢ []
      → (denemefs_unlink i_dir name di).0 ≡ done tt
      → WellFormed owner (denemefs_unlink i_dir name di).1
  unlink-WellFormed plain e =
      let (inode, found, regular) = unlink_parts i_dir name di e in
      let (es, link, same) = lookup_done i_dir name di inode found in
      rw (unlink_lem i_dir name inode.ino es di link (ground arith))
        (WellFormed-removed owner i_dir.ino name inode.ino es di link plain w)

  pub rmdir-WellFormed :
      name ≢ []
      → (denemefs_rmdir i_dir name di).0 ≡ done tt
      → WellFormed owner (denemefs_rmdir i_dir name di).1
  unfolding is_empty_dir
  rmdir-WellFormed plain e =
      let (inode, found, dir, nothing) = rmdir_parts i_dir name di e in
      let (es, link, same) = lookup_done i_dir name di inode found in
      rw (rmdir_lem i_dir name inode.ino es di link [] (ground arith) nothing)
        (WellFormed-removed owner i_dir.ino name inode.ino es di link plain w)

-- A negative return of the two that remove leaves the table as it was.
module _ (i_dir : Inode) (name : Name) (n : ℕ) (di : Table) where
  pub unlink_fails :
      (denemefs_unlink i_dir name di).0 ≡ fails n → (denemefs_unlink i_dir name di).1 ≡ di
  unfolding denemefs_unlink denemefs_remove_entry denemefs_free_inode
  unlink_fails e = elim (Outcome-cases (denemefs_lookup i_dir name di).0) [
    | inl (inode, found) ↦ ground (arith, Content-cases (di inode.ino).content)
    | inr (inl (k, failed)) ↦ ground arith
    | inr (inr stopped) ↦ absurd (ground arith)
  ]

  pub rmdir_fails :
      (denemefs_rmdir i_dir name di).0 ≡ fails n → (denemefs_rmdir i_dir name di).1 ≡ di
  unfolding denemefs_rmdir denemefs_remove_entry denemefs_free_inode
  rmdir_fails e = elim (Outcome-cases (denemefs_lookup i_dir name di).0) [
    | inl (inode, found) ↦ ground (arith, Content-cases (di inode.ino).content)
    | inr (inl (k, failed)) ↦ ground arith
    | inr (inr stopped) ↦ absurd (ground arith)
  ]
