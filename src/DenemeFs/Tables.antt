-- ===== src/DenemeFs/Tables.antt =====
-- The table under the operations of directories: what a failed call leaves, and what a new name
-- changes. The operations are those of DenemeFs/Dir.antt.
use mathlib.Core.Path.{fun_ext}
use makarna_x.Base.{
  ℕ, ◌<◌, ◌≡◌, ◌≢◌, refl, ◌⊎◌, inl, inr, none, some, List, [], ◌∷◌, ◌++◌, length, arith,
  Option-cases,
}
use makarna_x.DenemeFs.Store.{
  Name, Entry, ft_dir, Content, null, entries, bytes, DenemeInode, blank, Table, update, table_size,
  Inode, done, fails, Outcome-cases,
}
use makarna_x.DenemeFs.Dir.{
  find_from, denemefs_new_inode, denemefs_free_inode, denemefs_add_entry, denemefs_lookup,
  lookup_in, new_entry, find_entry, push_entry, fill_inode,
}
use makarna_x.DenemeFs.Entries.{find_from-some}

-- Every slot that is not in use is all zero.
abbrev pub FreeIsBlank : Table → Type 0
FreeIsBlank di = (i : ℕ) → (di i).nlinks ≡ 0 → di i ≡ blank

-- The table after `find_empty_di` has taken the slot `ino`.
abbrev pub taken : Table → ℕ → Table
taken di ino = update di ino (record (di ino) { nlinks = 1 })

-- A call that looks something up changes nothing.
pub lookup-table :
    (i_dir : Inode) (name : Name) (di : Table) → (denemefs_lookup i_dir name di).1 ≡ di
unfolding denemefs_lookup lookup_in
lookup-table i_dir name di = ground arith

-- The table with a slot taken and given back.
pub update-blank :
    (di : Table) (i : ℕ) (v : DenemeInode)
    → FreeIsBlank di
    → (di i).nlinks ≡ 0
    → update (update di i v) i blank ≡ di
update-blank di i v h free = fun_ext λ j. ground (arith, h i)

lookup_in-absent :
    (i_dir : Inode) (name : Name) (dir : DenemeInode) (es : List Entry) (di : Table)
    → dir.mode.type ≡ ft_dir
    → dir.content ≡ entries es
    → find_entry es name ≡ none
    → lookup_in i_dir name dir di ≡ (fails 1, di)
unfolding lookup_in
lookup_in-absent i_dir name dir es di t c a = ground arith

add_entry_lem :
    (i_dir : Inode) (name : Name) (ino : ℕ) (es : List Entry) (di : Table)
    → (di i_dir.ino).mode.type ≡ ft_dir
    → (di i_dir.ino).content ≡ entries es
    → find_entry es name ≡ none
    → length es < 56
    → length name < 32
    → denemefs_add_entry i_dir name ino di ≡ (
      done tt,
      update di i_dir.ino (record (di i_dir.ino) {
        content = entries (es ++ record { no = ino; name = name } ∷ []);
      }),
    )
unfolding denemefs_add_entry denemefs_lookup push_entry
add_entry_lem i_dir name ino es di t c a room short =
    ground (arith, lookup_in-absent i_dir name (di i_dir.ino) es di)

add_entry_fails :
    (i_dir : Inode) (name : Name) (ino n : ℕ) (di : Table)
    → (denemefs_add_entry i_dir name ino di).0 ≡ fails n
    → (denemefs_add_entry i_dir name ino di).1 ≡ di
unfolding denemefs_add_entry push_entry
add_entry_fails i_dir name ino n di h = ground arith

-- The two ways in which `new_entry` returns below 0: no free slot, or `denemefs_add_entry` fails.
pub new_entry_fails :
    (i_dir : Inode) (name : Name) (n : ℕ) (di : Table)
    → FreeIsBlank di
    → (new_entry i_dir name di).0 ≡ fails n
    → new_entry i_dir name di ≡ (fails 1, di)
unfolding new_entry denemefs_new_inode denemefs_free_inode
new_entry_fails i_dir name n di h e = elim (Option-cases (find_from table_size 0 di)) [
  | inl full ↦ ground arith
  | inr (i, free) ↦ elim (Outcome-cases (denemefs_add_entry i_dir name i (taken di i)).0) [
    | inl (a, fine) ↦ absurd (ground arith)
    | inr (inl (k, refused)) ↦ ground (
      arith,
      add_entry_fails i_dir name i k (taken di i),
      update-blank di i (record (di i) { nlinks = 1 }) h,
      find_from-some 100 0 i di,
    )
    | inr (inr stopped) ↦ absurd (ground arith)
  ]
]

-- An entry for the new inode `ino` in the directory `d` with the slots `es`.
abbrev pub with_entry : Table → ℕ → List Entry → Name → ℕ → Table
with_entry di d es name ino =
    update di d (record (di d) { content = entries (es ++ record { no = ino; name = name } ∷ []) })

-- What `denemefs_new_inode` and `denemefs_add_entry` need for a new name.
pub record HasRoom (d : ℕ) (es : List Entry) (name : Name) (ino : ℕ) (di : Table) : Type 0 where
  pub free : find_from table_size 0 di ≡ some ino
  pub is_dir : (di d).mode.type ≡ ft_dir
  pub slots : (di d).content ≡ entries es
  pub absent : find_entry es name ≡ none
  pub room : length es < 56
  pub short : length name < 32

pub new_entry_lem :
    (i_dir : Inode) (name : Name) (ino : ℕ) (es : List Entry) (di : Table)
    → HasRoom i_dir.ino es name ino di
    → (di i_dir.ino).nlinks ≢ 0
    → new_entry i_dir name di ≡ (done ino, with_entry (taken di ino) i_dir.ino es name ino)
unfolding new_entry denemefs_new_inode
new_entry_lem i_dir name ino es di h used =
    ground
      (arith, h.free, find_from-some 100 0 ino di, add_entry_lem i_dir name ino es (taken di ino))

pub Content-cases :
    (c : Content)
    → (c ≡ null) ⊎ ((es : List Entry) × (c ≡ entries es)) ⊎ ((b : List ℕ) × (c ≡ bytes b))
Content-cases null = inl refl
Content-cases (entries es) = inr (inl (es, refl))
Content-cases (bytes b) = inr (inr (b, refl))

pub add_entry_done :
    (i_dir : Inode) (name : Name) (ino : ℕ) (di : Table)
    → (di i_dir.ino).mode.type ≡ ft_dir
    → (denemefs_add_entry i_dir name ino di).0 ≡ done tt
    → (es : List Entry) × ((di i_dir.ino).content ≡ entries es)
      × (find_entry es name ≡ none)
      × (length es < 56)
      × (length name < 32)
unfolding denemefs_add_entry denemefs_lookup lookup_in push_entry fill_inode
add_entry_done i_dir name ino di t h = elim (Content-cases (di i_dir.ino).content) [
  | inl c ↦ absurd (ground arith)
  | inr (inl (es, c)) ↦ (es, c, ground arith, ground arith, ground arith)
  | inr (inr (b, c)) ↦ absurd (ground arith)
]

new_entry_parts :
    (i_dir : Inode) (name : Name) (ino i : ℕ) (di : Table)
    → find_from table_size 0 di ≡ some i
    → (new_entry i_dir name di).0 ≡ done ino
    → ((denemefs_add_entry i_dir name i (taken di i)).0 ≡ done tt) × (i ≡ ino)
unfolding new_entry denemefs_new_inode
new_entry_parts i_dir name ino i di free h = (ground arith, ground arith)

-- A new name is given only where there is room.
pub new_entry_done :
    (i_dir : Inode) (name : Name) (ino : ℕ) (di : Table)
    → (di i_dir.ino).nlinks ≢ 0
    → (di i_dir.ino).mode.type ≡ ft_dir
    → (new_entry i_dir name di).0 ≡ done ino
    → (es : List Entry) × HasRoom i_dir.ino es name ino di
unfolding new_entry denemefs_new_inode
new_entry_done i_dir name ino di used t h = elim (Option-cases (find_from table_size 0 di)) [
  | inl full ↦ absurd (ground arith)
  | inr (i, free) ↦
      let (added, same) = new_entry_parts i_dir name ino i di free h in
      let (es, c, a, r, s) =
        add_entry_done i_dir name i (taken di i) (ground (arith, find_from-some 100 0 i di))
          added in
      (
        es,
        record {
          free = ground arith;
          is_dir = t;
          slots = ground (arith, find_from-some 100 0 i di);
          absent = a;
          room = r;
          short = s;
        },
      )
]
