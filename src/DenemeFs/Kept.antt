-- ===== src/DenemeFs/Kept.antt =====
-- What every call of DenemeFs/Calls.antt keeps.
use makarna_x.Base.{ℕ, ◌≡◌, ◌≢◌, inl, inr, [], arith, ap}
use makarna_x.DenemeFs.Store.{Table, Inode, Outcome-cases, done, fails}
use makarna_x.DenemeFs.Dir.{denemefs_create}
use makarna_x.DenemeFs.Create.{mkdir_fails, create_fails, mknod_fails}
use makarna_x.DenemeFs.Invariant.{Owner, WellFormed}
use makarna_x.DenemeFs.Calls.{
  Call, forget-table, mkdir, create, mknod, unlink, rmdir, call_name, perform, IsDir,
  mkdir-WellFormed, create-WellFormed, mknod-WellFormed, unlink-WellFormed, rmdir-WellFormed,
  unlink_fails, rmdir_fails,
}

-- A call that returns below 0 in a well-formed table leaves the whole table as it was: the inode
-- that it took for a new name is given back.
pub perform_fails :
    (owner : Owner) (i_dir : Inode) (call : Call) (n : ℕ) (di : Table)
    → WellFormed owner di
    → (perform i_dir call di).0 ≡ fails n
    → (perform i_dir call di).1 ≡ di
unfolding perform
perform_fails owner i_dir (mkdir name mode) n di w e =
    ap (λ r. r.1) (mkdir_fails i_dir name n di w.free mode e)
perform_fails owner i_dir (create name mode) n di w e =
    elim (Outcome-cases (denemefs_create i_dir name mode di).0) [
      | inl (inode, fine) ↦ absurd (ground arith)
      | inr (inl (k, failed)) ↦ ground (arith, create_fails i_dir name k di w.free mode failed)
      | inr (inr stopped) ↦ absurd (ground arith)
    ]
perform_fails owner i_dir (mknod name mode dev) n di w e =
    ap (λ r. r.1) (mknod_fails i_dir name n di w.free mode dev e)
perform_fails owner i_dir (unlink name) n di w e = unlink_fails i_dir name n di e
perform_fails owner i_dir (rmdir name) n di w e = rmdir_fails i_dir name n di e

-- A call with a name, in a directory of a well-formed table, that succeeds leaves a well-formed
-- table again: free inodes are zero, directories hold at most 56 slots, whose names differ but for
-- those of removed entries, and every name links an inode in use that no other name of the table
-- links.
pub perform-WellFormed :
    (owner : Owner) (i_dir : Inode) (call : Call) (di : Table)
    → WellFormed owner di
    → IsDir i_dir di
    → call_name call ≢ []
    → (perform i_dir call di).0 ≡ done tt
    → (after : Owner) × WellFormed after (perform i_dir call di).1
unfolding perform
perform-WellFormed owner i_dir (mkdir name mode) di w here plain e =
    mkdir-WellFormed owner i_dir name di w here mode e
perform-WellFormed owner i_dir (create name mode) di w here plain e =
    elim (Outcome-cases (denemefs_create i_dir name mode di).0) [
      | inl (inode, fine) ↦
          let (after, v) = create-WellFormed owner i_dir name di w here mode inode fine in
          (after, rw forget-table v)
      | inr (inl (k, failed)) ↦ absurd (ground arith)
      | inr (inr stopped) ↦ absurd (ground arith)
    ]
perform-WellFormed owner i_dir (mknod name mode dev) di w here plain e =
    mknod-WellFormed owner i_dir name di w here mode dev e
perform-WellFormed owner i_dir (unlink name) di w here plain e =
    (owner, unlink-WellFormed owner i_dir name di w here plain e)
perform-WellFormed owner i_dir (rmdir name) di w here plain e =
    (owner, rmdir-WellFormed owner i_dir name di w here plain e)
