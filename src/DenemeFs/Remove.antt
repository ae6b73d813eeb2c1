-- ===== src/DenemeFs/Remove.antt =====
-- What `denemefs_unlink` and `denemefs_rmdir` of DenemeFs/Dir.antt do to the table.
use makarna_x.Base.{
  ℕ, ◌≤◌, ◌<◌, ◌≡◌, ◌≢◌, inl, inr, some, List, [], if◌then◌else◌, length, arith, Option-cases,
}
use makarna_x.DenemeFs.Store.{
  Name, Entry, ft_dir, ft_regular, entries, blank, Table, update, Inode, Outcome-cases, done, fails,
}
use makarna_x.DenemeFs.Dir.{
  find_entry, denemefs_remove_entry, denemefs_free_inode, denemefs_lookup, lookup_in, fill_inode,
  denemefs_unlink, denemefs_rmdir, is_empty_dir,
}
use makarna_x.DenemeFs.Entries.{
  name_eq_iff, DistinctNames, cleared, clear_entry-cleared, length-cleared, find_entry-cleared,
  find_entry-cleared_ne, DistinctNames-cleared,
}
use makarna_x.DenemeFs.Tables.{FreeIsBlank, Content-cases}
use makarna_x.DenemeFs.Invariant.{Owner, WellFormed}

-- The table without the entry `name` of `d` and without the inode `ino`.
abbrev pub removed : Table → ℕ → List Entry → Name → ℕ → Table
removed di d es name ino =
    update (update di d (record (di d) { content = entries (cleared es name) })) ino blank

-- `name` stands in the directory `d` for the inode `ino`.
pub record Links (d : ℕ) (es : List Entry) (name : Name) (ino : ℕ) (di : Table) : Type 0 where
  pub is_dir : (di d).mode.type ≡ ft_dir
  pub slots : (di d).content ≡ entries es
  pub found : find_entry es name ≡ some ino
  pub used : (di ino).nlinks ≢ 0

module _ (i_dir : Inode) (name : Name) (ino : ℕ) (es : List Entry) (di : Table)
    (h : Links i_dir.ino es name ino di) where
  remove_entry_lem : denemefs_remove_entry i_dir name di ≡ (
    done tt,
    update di i_dir.ino (record (di i_dir.ino) { content = entries (cleared es name) }),
  )
  unfolding denemefs_remove_entry
  remove_entry_lem = ground (arith, h.slots, h.found, clear_entry-cleared es name)

  pub unlink_lem :
      (di ino).mode.type ≡ ft_regular
      → denemefs_unlink i_dir name di ≡ (done tt, removed di i_dir.ino es name ino)
  unfolding denemefs_unlink denemefs_lookup lookup_in fill_inode denemefs_free_inode
  unlink_lem regular = ground (arith, h.slots, h.found, h.is_dir, h.used, remove_entry_lem)

  pub rmdir_lem :
      (fs : List Entry)
      → (di ino).mode.type ≡ ft_dir
      → (di ino).content ≡ entries fs
      → denemefs_rmdir i_dir name di
        ≡ (if is_empty_dir fs then (done tt, removed di i_dir.ino es name ino) else (fails 3, di))
  unfolding denemefs_rmdir denemefs_lookup lookup_in fill_inode denemefs_free_inode
  rmdir_lem fs dir inside = ground (arith, h.slots, h.found, h.is_dir, h.used, remove_entry_lem)

-- A call that succeeds found a link, and of the right kind.
module _ (i_dir : Inode) (name : Name) (di : Table) where
  pub lookup_done :
      (inode : Inode)
      → (denemefs_lookup i_dir name di).0 ≡ done inode
      → (es : List Entry) × Links i_dir.ino es name inode.ino di
        × (inode.mode.type ≡ (di inode.ino).mode.type)
  unfolding denemefs_lookup lookup_in fill_inode
  lookup_done inode e = elim (Content-cases (di i_dir.ino).content) [
    | inl c ↦ absurd (ground arith)
    | inr (inl (es, c)) ↦ elim (Option-cases (find_entry es name)) [
      | inl missing ↦ absurd (ground arith)
      | inr (ino, found) ↦
          let same : ino ≡ inode.ino = ground arith in
          (
            es,
            record { is_dir = ground arith; slots = c; found = ground arith; used = ground arith },
            ground arith,
          )
    ]
    | inr (inr (b, c)) ↦ absurd (ground arith)
  ]

  pub unlink_parts :
      (denemefs_unlink i_dir name di).0 ≡ done tt
      → (inode : Inode) × ((denemefs_lookup i_dir name di).0 ≡ done inode)
        × (inode.mode.type ≡ ft_regular)
  unfolding denemefs_unlink
  unlink_parts e = elim (Outcome-cases (denemefs_lookup i_dir name di).0) [
    | inl (inode, found) ↦ (inode, found, ground arith)
    | inr (inl (n, failed)) ↦ absurd (ground arith)
    | inr (inr stopped) ↦ absurd (ground arith)
  ]

  pub rmdir_parts :
      (denemefs_rmdir i_dir name di).0 ≡ done tt
      → (inode : Inode) × ((denemefs_lookup i_dir name di).0 ≡ done inode)
        × (inode.mode.type ≡ ft_dir)
        × ((di inode.ino).content ≡ entries [])
  unfolding denemefs_rmdir is_empty_dir
  rmdir_parts e = elim (Outcome-cases (denemefs_lookup i_dir name di).0) [
    | inl (inode, found) ↦
        (inode, found, ground arith, ground (arith, Content-cases (di inode.ino).content))
    | inr (inl (n, failed)) ↦ absurd (ground arith)
    | inr (inr stopped) ↦ absurd (ground arith)
  ]

module _ (owner : Owner) (d : ℕ) (name : Name) (ino : ℕ) (es : List Entry) (di : Table)
    (h : Links d es name ino di) (plain : name ≢ []) (w : WellFormed owner di) where
  free-removed : FreeIsBlank (removed di d es name ino)
  free-removed i e = ground (arith, w.free i, w.free d)

  kind-removed :
      (k : ℕ) (fs : List Entry)
      → (removed di d es name ino k).content ≡ entries fs
      → ((removed di d es name ino k).mode.type ≡ ft_dir) × (length fs ≤ 56) × DistinctNames fs
  kind-removed k fs c = ground (
    arith,
    w.kind k fs,
    w.kind d es,
    h.slots,
    DistinctNames-cleared es name,
    length-cleared es name,
  )

  linked-removed :
      (k : ℕ) (fs : List Entry) (other : Name) (target : ℕ)
      → (removed di d es name ino k).content ≡ entries fs
      → other ≢ []
      → find_entry fs other ≡ some target
      → ((removed di d es name ino target).nlinks ≢ 0)
        × (target < 100)
        × (owner target ≡ (k, other))
  linked-removed k fs other target c other_plain found = ground (
    arith,
    w.linked k fs other target,
    w.linked d es other target,
    w.linked d es name ino h.slots plain h.found,
    h.slots,
    w.kind d es h.slots,
    find_entry-cleared es name plain,
    find_entry-cleared_ne es name other,
    name_eq_iff name other,
  )

  pub WellFormed-removed : WellFormed owner (removed di d es name ino)
  WellFormed-removed = record { free = free-removed; kind = kind-removed; linked = linked-removed }
