-- ===== src/DenemeFs/Lookups.antt =====
-- What `denemefs_lookup` answers before and after the other calls on a directory.
use makarna_x.Base.{ℕ, ◌≡◌, ◌≢◌, sym, inl, inr, some, List, [], ◌∷◌, arith, length, Option-cases}
use makarna_x.DenemeFs.Store.{
  Name, Entry, ft_dir, ft_regular, entries, Table, Inode, done, fails, stop, blank,
}
use makarna_x.DenemeFs.Dir.{
  denemefs_create, denemefs_unlink, denemefs_rmdir, denemefs_lookup, lookup_in, fill_inode,
  find_entry, is_empty_dir,
}
use makarna_x.DenemeFs.Entries.{
  find_entry-cleared, find_entry-cleared_ne, length-cleared, cleared, find_from-some,
}
use makarna_x.DenemeFs.Tables.{new_entry_done}
use makarna_x.DenemeFs.Create.{new_file, create_lem, lookup-added_self, lookup-added_ne}
use makarna_x.DenemeFs.Invariant.{Owner, WellFormed}
use makarna_x.DenemeFs.Remove.{removed, Links, unlink_lem, rmdir_lem, unlink_parts, lookup_done}
use makarna_x.DenemeFs.Calls.{IsDir, new_entry_of_create}

-- A file that `denemefs_create` made is found under its name, as the inode that the call filled,
-- and every other name of the directory gives the answer that it gave before.
pub lookup-create :
    (owner : Owner) (i_dir : Inode) (name other : Name) (mode : ℕ) (inode : Inode) (di : Table)
    → WellFormed owner di
    → IsDir i_dir di
    → (denemefs_create i_dir name mode di).0 ≡ done inode
    → other ≢ name
    → other ≢ []
    → let after = (denemefs_create i_dir name mode di).1 in
      ((denemefs_lookup i_dir name after).0 ≡ done inode)
      × ((denemefs_lookup i_dir other after).0 ≡ (denemefs_lookup i_dir other di).0)
unfolding fill_inode
lookup-create owner i_dir name other mode inode di w here e differ plain =
    let (ino, made) = new_entry_of_create i_dir name di mode inode e in
    let (es, room) = new_entry_done i_dir name ino di here.used here.is_dir made in
    let result = create_lem i_dir name ino es di room here.used mode in
    let file = new_file (di ino) mode in
    let found = lookup-added_self i_dir name ino es di room here.used file in
    rw result (
      ground arith,
      lookup-added_ne i_dir name ino es di room here.used file other (λ same. differ (sym same))
          (λ k at_k. ground (
            arith,
            w.linked i_dir.ino es other k room.slots plain at_k,
            find_from-some 100 0 ino di room.free,
          )),
    )

-- The lookups in a directory from which the file `ino` has gone.
module _ (owner : Owner) (i_dir : Inode) (name : Name) (ino : ℕ) (es : List Entry) (di : Table)
    (w : WellFormed owner di) (plain : name ≢ []) (link : Links i_dir.ino es name ino di)
    (apart : i_dir.ino ≢ ino) where
  lookup-removed_self : (denemefs_lookup i_dir name (removed di i_dir.ino es name ino)).0 ≡ fails 1
  unfolding denemefs_lookup lookup_in
  lookup-removed_self =
      ground (arith, link.is_dir, w.kind i_dir.ino es link.slots, find_entry-cleared es name plain)

  lookup-removed_ne :
      (other : Name)
      → other ≢ name
      → other ≢ []
      → (denemefs_lookup i_dir other (removed di i_dir.ino es name ino)).0
        ≡ (denemefs_lookup i_dir other di).0
  unfolding denemefs_lookup lookup_in fill_inode
  lookup-removed_ne other differ other_plain = elim (Option-cases (find_entry es other)) [
    | inl missing ↦ ground (
      arith,
      link.is_dir,
      link.slots,
      missing,
      find_entry-cleared_ne es name other (λ s. differ (sym s)) other_plain,
    )
    | inr (k, found) ↦ ground (
      arith,
      link.is_dir,
      link.slots,
      link.found,
      found,
      w.linked i_dir.ino es other k link.slots other_plain found,
      w.linked i_dir.ino es name ino link.slots plain link.found,
      find_entry-cleared_ne es name other (λ s. differ (sym s)) other_plain,
    )
  ]

-- After `denemefs_unlink` of a name the directory has no entry of that name, every other name gives
-- the answer that it gave before, and the file's inode is all zero, so that it can be given again.
pub lookup-unlink :
    (owner : Owner) (i_dir : Inode) (name other : Name) (inode : Inode) (di : Table)
    → WellFormed owner di
    → name ≢ []
    → (denemefs_unlink i_dir name di).0 ≡ done tt
    → (denemefs_lookup i_dir name di).0 ≡ done inode
    → other ≢ name
    → other ≢ []
    → let after = (denemefs_unlink i_dir name di).1 in
      ((denemefs_lookup i_dir name after).0 ≡ fails 1)
      × ((denemefs_lookup i_dir other after).0 ≡ (denemefs_lookup i_dir other di).0)
      × (after inode.ino ≡ blank)
lookup-unlink owner i_dir name other inode di w plain e at_name differ other_plain =
    let (gone, found, regular) = unlink_parts i_dir name di e in
    let (es, link, same) = lookup_done i_dir name di gone found in
    let one : gone ≡ inode = ground arith in
    rw (unlink_lem i_dir name gone.ino es di link (ground arith)) (
      lookup-removed_self owner i_dir name gone.ino es di w plain link (ground arith),
      lookup-removed_ne owner i_dir name gone.ino es di w plain link (ground arith) other differ
          other_plain,
      ground arith,
    )

-- In a well-formed table a lookup in a directory with slots stops only at an entry for an inode
-- that is neither a directory nor a regular file, as `denemefs_mknod` makes them: its ASSERT on
-- `nlinks` holds.
lookup_stops :
    (owner : Owner) (i_dir : Inode) (name : Name) (es : List Entry) (di : Table)
    → WellFormed owner di
    → name ≢ []
    → (di i_dir.ino).content ≡ entries es
    → (denemefs_lookup i_dir name di).0 ≡ stop
    → (ino : ℕ) × (find_entry es name ≡ some ino)
      × ((di ino).mode.type ≢ ft_dir)
      × ((di ino).mode.type ≢ ft_regular)
unfolding denemefs_lookup lookup_in fill_inode
lookup_stops owner i_dir name es di w plain c e = elim (Option-cases (find_entry es name)) [
  | inl missing ↦ absurd (ground (arith, w.kind i_dir.ino es c))
  | inr (ino, found) ↦
      let linked = w.linked i_dir.ino es name ino c plain found in
      let kind = w.kind i_dir.ino es c in (ino, found, ground arith, ground arith)
]

length_of_found :
    (es : List Entry) (name : Name) (ino : ℕ) → find_entry es name ≡ some ino → length es ≢ 0
unfolding find_entry
length_of_found [] name ino h = cc
length_of_found (e ∷ es) name ino h = omega arith

-- Right after a file of it has been unlinked, a directory cannot be removed: `denemefs_rmdir` of it
-- returns -3, also where no file is left in it.
pub rmdir-unlink :
    (i_dir i_parent : Inode) (name dir_name : Name) (ps : List Entry) (di : Table)
    → (denemefs_unlink i_dir name di).0 ≡ done tt
    → Links i_parent.ino ps dir_name i_dir.ino (denemefs_unlink i_dir name di).1
    → (denemefs_rmdir i_parent dir_name (denemefs_unlink i_dir name di).1).0 ≡ fails 3
unfolding is_empty_dir
rmdir-unlink i_dir i_parent name dir_name ps di e up =
    let (inode, found, regular) = unlink_parts i_dir name di e in
    let (es, link, same) = lookup_done i_dir name di inode found in
    let result = unlink_lem i_dir name inode.ino es di link (ground arith) in
    let length_left = length-cleared es name in
    let some_left = length_of_found es name inode.ino link.found in
    let slots : ((denemefs_unlink i_dir name di).1 i_dir.ino).content ≡ entries (cleared es name) =
      rw result (ground (arith, link.is_dir)) in
    let is_dir : ((denemefs_unlink i_dir name di).1 i_dir.ino).mode.type ≡ ft_dir =
      rw result (ground (arith, link.is_dir)) in
    ground (
      arith,
      rmdir_lem i_parent dir_name i_dir.ino ps (denemefs_unlink i_dir name di).1 up
          (cleared es name) is_dir slots,
    )
