-- ===== src/DenemeFs/Create.antt =====
-- What `denemefs_create`, `denemefs_mkdir` and `denemefs_mknod` of DenemeFs/Dir.antt do to the
-- table, when they succeed and when they return below 0.
use makarna_x.Base.{ℕ, ◌≡◌, ◌≢◌, inl, inr, some, List, [], arith, Option-cases, replicate}
use makarna_x.DenemeFs.Store.{
  Name, Entry, FileMode, ft_dir, ft_regular, null, entries, bytes, DenemeInode, Table, update,
  Inode, file_inode_op, done, fails, subdentry_size, Outcome-cases,
}
use makarna_x.DenemeFs.Dir.{
  denemefs_lookup, lookup_in, fill_inode, new_entry, denemefs_mkdir, denemefs_create,
  denemefs_mknod, find_entry, rw_mode,
}
use makarna_x.DenemeFs.Entries.{find_from-some, find_entry-push, name_eq_refl, name_eq_iff}
use makarna_x.DenemeFs.Tables.{
  FreeIsBlank, HasRoom, with_entry, taken, new_entry_lem, new_entry_fails,
}

-- The table in which `name` of the directory `d` is the new inode `v`.
abbrev pub added : Table → ℕ → List Entry → Name → ℕ → DenemeInode → Table
added di d es name ino v = update (with_entry (taken di ino) d es name ino) ino v

abbrev pub new_dir : DenemeInode → ℕ → DenemeInode
new_dir v mode = record v {
  mode = rw_mode mode ft_dir;
  nlinks = 1;
  size = subdentry_size;
  content = entries [];
}

abbrev pub new_file : DenemeInode → ℕ → DenemeInode
new_file v mode = record v {
  mode = rw_mode mode ft_regular;
  nlinks = 1;
  size = 1000;
  content = bytes (replicate 1000 0);
}

abbrev pub new_node : DenemeInode → FileMode → ℕ → DenemeInode
new_node v mode dev = record v { mode = mode; nlinks = 1; size = 0; dev = dev; content = null }

module _ (i_dir : Inode) (name : Name) (ino : ℕ) (es : List Entry) (di : Table)
    (h : HasRoom i_dir.ino es name ino di) (used : (di i_dir.ino).nlinks ≢ 0) where
  pub mkdir_lem :
      (mode : ℕ)
      → denemefs_mkdir i_dir name mode di
        ≡ (done tt, added di i_dir.ino es name ino (new_dir (di ino) mode))
  unfolding denemefs_mkdir
  mkdir_lem mode =
      ground (arith, new_entry_lem i_dir name ino es di h used, find_from-some 100 0 ino di, h.free)

  pub mknod_lem :
      (mode : FileMode) (dev : ℕ)
      → denemefs_mknod i_dir name mode dev di
        ≡ (done tt, added di i_dir.ino es name ino (new_node (di ino) mode dev))
  unfolding denemefs_mknod
  mknod_lem mode dev =
      ground (arith, new_entry_lem i_dir name ino es di h used, find_from-some 100 0 ino di, h.free)

  -- The inode that a lookup fills from the new file.
  abbrev pub file_inode : ℕ → Inode
  file_inode mode = record {
    ino = ino;
    op = file_inode_op;
    size = 1000;
    mode = rw_mode mode ft_regular;
    superblock = i_dir.superblock;
  }

  -- A lookup in the directory after the new name: the new inode under that name, and the old
  -- answer under every other, as long as no entry points to the slot that was free.
  pub lookup-added_self :
      (v : DenemeInode)
      → denemefs_lookup i_dir name (added di i_dir.ino es name ino v)
        ≡ fill_inode i_dir ino v (added di i_dir.ino es name ino v)
  unfolding denemefs_lookup lookup_in
  lookup-added_self v = ground (
    arith,
    find_from-some 100 0 ino di,
    h.free,
    h.slots,
    h.is_dir,
    h.absent,
    find_entry-push es (record { no = ino; name = name }) name,
    name_eq_refl name,
  )

  pub lookup-added_ne :
      (v : DenemeInode) (other : Name)
      → name ≢ other
      → ((k : ℕ) → find_entry es other ≡ some k → k ≢ ino)
      → (denemefs_lookup i_dir other (added di i_dir.ino es name ino v)).0
        ≡ (denemefs_lookup i_dir other di).0
  unfolding denemefs_lookup lookup_in
  lookup-added_ne v other differ unlinked = elim (Option-cases (find_entry es other)) [
    | inl missing ↦ ground (
      arith,
      find_from-some 100 0 ino di,
      h.free,
      h.slots,
      h.is_dir,
      h.absent,
      missing,
      find_entry-push es (record { no = ino; name = name }) other,
      name_eq_iff name other,
    )
    | inr (k, found) ↦ ground (
      arith,
      find_from-some 100 0 ino di,
      h.free,
      h.slots,
      h.is_dir,
      h.absent,
      found,
      unlinked k found,
      find_entry-push es (record { no = ino; name = name }) other,
      name_eq_iff name other,
    )
  ]

  pub create_lem :
      (mode : ℕ)
      → denemefs_create i_dir name mode di
        ≡ (done (file_inode mode), added di i_dir.ino es name ino (new_file (di ino) mode))
  unfolding denemefs_create fill_inode
  create_lem mode = ground (
    arith,
    new_entry_lem i_dir name ino es di h used,
    find_from-some 100 0 ino di,
    h.free,
    lookup-added_self (new_file (di ino) mode),
  )

module _ (i_dir : Inode) (name : Name) (n : ℕ) (di : Table) (blanks : FreeIsBlank di) where
  pub mkdir_fails :
      (mode : ℕ)
      → (denemefs_mkdir i_dir name mode di).0 ≡ fails n
      → denemefs_mkdir i_dir name mode di ≡ (fails 1, di)
  unfolding denemefs_mkdir
  mkdir_fails mode e = elim (Outcome-cases (new_entry i_dir name di).0) [
    | inl (a, is_done) ↦ absurd (ground arith)
    | inr (inl (k, failed)) ↦ ground (arith, new_entry_fails i_dir name k di blanks failed)
    | inr (inr stopped) ↦ absurd (ground arith)
  ]

  pub mknod_fails :
      (mode : FileMode) (dev : ℕ)
      → (denemefs_mknod i_dir name mode dev di).0 ≡ fails n
      → denemefs_mknod i_dir name mode dev di ≡ (fails 1, di)
  unfolding denemefs_mknod
  mknod_fails mode dev e = elim (Outcome-cases (new_entry i_dir name di).0) [
    | inl (a, is_done) ↦ absurd (ground arith)
    | inr (inl (k, failed)) ↦ ground (arith, new_entry_fails i_dir name k di blanks failed)
    | inr (inr stopped) ↦ absurd (ground arith)
  ]

  pub create_fails :
      (mode : ℕ)
      → (denemefs_create i_dir name mode di).0 ≡ fails n
      → denemefs_create i_dir name mode di ≡ (fails 1, di)
  unfolding denemefs_create
  create_fails mode e = elim (Outcome-cases (new_entry i_dir name di).0) [
    | inl (a, is_done) ↦ absurd (ground arith)
    | inr (inl (k, failed)) ↦ ground (arith, new_entry_fails i_dir name k di blanks failed)
    | inr (inr stopped) ↦ absurd (ground arith)
  ]
