-- ===== src/DenemeFs/Dir.antt =====
-- kernel/fs/denemefs/denemefs.cpp and dir.cpp: inodes and directory entries.
use mathlib.Core.Option
use makarna_x.Base.{
  ℕ, zero, suc, ◌+◌, ◌%◌, ◌/◌, Bool, ◌&&◌, Option, none, some, List, [], ◌∷◌, ◌++◌, ◌==◌, ltb,
  if◌then◌else◌, length, replicate,
}
use makarna_x.DenemeFs.Store.{
  Name, name_eq, FileMode, ft_regular, ft_dir, Entry, subdentry_count, subdentry_size, Content,
  null, entries, bytes, DenemeInode, blank, Table, table_size, InodeOp, dir_inode_op, file_inode_op,
  Inode, Outcome, done, fails, stop, M, pure, fail, halt, ◌>>=◌, ◌>>◌, or_undo, write_inode,
  read_inode,
}

-- The loop of `find_empty_di`, with the rounds left.
unfoldable pub find_from : ℕ → ℕ → Table → Option ℕ
find_from zero i di = none
find_from (suc k) i di = if (di i).nlinks == 0 then some i else find_from k (i + 1) di

abbrev or_fail : {A : Type 0} → Option A → ℕ → M A
or_fail none n = fail n
or_fail (some a) n = pure a

-- `find_empty_di` takes the slot it finds, so that no other process sees it empty.
unfoldable pub find_empty_di : M ℕ
find_empty_di di = elim (find_from table_size 0 di) [
  | none ↦ fail 1 di
  | some i ↦ (do write_inode i (record (di i) { nlinks = 1 }); pure i) di
]

unfoldable pub denemefs_new_inode : M ℕ
unfolding find_empty_di
denemefs_new_inode = find_empty_di

unfoldable pub denemefs_free_inode : ℕ → M (Unit {0})
denemefs_free_inode i = write_inode i blank

-- The slots of a directory; another kind of data is no `Deneme_subdentry`.
abbrev slots : Content → M (List Entry)
slots null = halt
slots (entries es) = pure es
slots (bytes b) = halt

-- The loop of `denemefs_lookup` up to the first name that fits.
unfoldable pub find_entry : List Entry → Name → Option ℕ
find_entry [] name = none
find_entry (e ∷ es) name = if name_eq e.name name then some e.no else find_entry es name

abbrev to_inode : Inode → ℕ → DenemeInode → InodeOp → Inode
to_inode i_dir ino inode op = record {
  ino = ino;
  op = op;
  size = inode.size;
  mode = inode.mode;
  superblock = i_dir.superblock;
}

-- The body of the loop, at the entry that fits: i_dest is filled.
unfoldable pub fill_inode : Inode → ℕ → DenemeInode → M Inode
fill_inode i_dir ino inode =
    if inode.nlinks == 0
    then halt
    else (if inode.mode.type == ft_dir
        then pure (to_inode i_dir ino inode dir_inode_op)
        else (if inode.mode.type == ft_regular
            then pure (to_inode i_dir ino inode file_inode_op)
            else halt))

unfoldable pub lookup_in : Inode → Name → DenemeInode → M Inode
unfolding find_entry fill_inode
lookup_in i_dir name dir =
    if dir.mode.type == ft_dir
    then (do
      es ← slots dir.content
      ino ← or_fail (find_entry es name) 1
      inode ← read_inode ino
      fill_inode i_dir ino inode)
    else fail 2

unfoldable pub denemefs_lookup : Inode → Name → M Inode
unfolding lookup_in
denemefs_lookup i_dir name = do dir ← read_inode i_dir.ino; lookup_in i_dir name dir

-- sd->no[sd->n] = i->ino, strcpy(sd->name[sd->n], name), sd->n++: the arrays have 56 places, and a
-- name 32 bytes with its final 0.
unfoldable pub push_entry : ℕ → DenemeInode → List Entry → Name → ℕ → M (Unit {0})
push_entry d dir es name ino =
    if ltb (length es) subdentry_count && ltb (length name) 32
    then write_inode d
        (record dir { content = entries (es ++ record { no = ino; name = name } ∷ []) })
    else halt

-- `r == 0` of the lookup before an entry is added.
abbrev refuse_known : Outcome Inode → M (Unit {0})
refuse_known (done i) = fail 1
refuse_known (fails n) = pure tt
refuse_known stop = halt

unfoldable pub denemefs_add_entry : Inode → Name → ℕ → M (Unit {0})
denemefs_add_entry i_dir name ino di =
    (do
      refuse_known (denemefs_lookup i_dir name di).0
      dir ← read_inode i_dir.ino
      es ← slots dir.content
      push_entry i_dir.ino dir es name ino)
      di

-- The loop of `denemefs_remove_entry`: the slot stays, with no name and the number 0.
unfoldable pub clear_entry : List Entry → Name → Option (List Entry)
clear_entry [] name = none
clear_entry (e ∷ es) name =
    if name_eq e.name name
    then some (record { no = 0; name = [] } ∷ es)
    else Option.map (λ rest. e ∷ rest) (clear_entry es name)

unfoldable pub denemefs_remove_entry : Inode → Name → M (Unit {0})
unfolding clear_entry
denemefs_remove_entry i_dir name = do
  dir ← read_inode i_dir.ino
  es ← slots dir.content
  left ← or_fail (clear_entry es name) 1
  write_inode i_dir.ino (record dir { content = entries left })

-- mode.read = (mode & 1), mode.write = (mode & 2) >> 1
abbrev pub rw_mode : ℕ → ℕ → FileMode
rw_mode mode type = record { read = mode % 2; write = (mode / 2) % 2; type = type }

unfoldable pub new_entry : Inode → Name → M ℕ
new_entry i_dir name = do
  ino ← denemefs_new_inode
  or_undo (denemefs_add_entry i_dir name ino) (denemefs_free_inode ino) 1
  pure ino

unfoldable pub denemefs_mkdir : Inode → Name → ℕ → M (Unit {0})
denemefs_mkdir i_dir name mode = do
  ino ← new_entry i_dir name
  inode_new ← read_inode ino
  write_inode ino
      (record inode_new { content = entries []; size = subdentry_size; mode = rw_mode mode ft_dir })

-- ASSERT(r == 0)
abbrev assert_found : Outcome Inode → M Inode
assert_found (done i) = pure i
assert_found (fails n) = halt
assert_found stop = halt

unfoldable pub denemefs_create : Inode → Name → ℕ → M Inode
denemefs_create i_dir name mode = do
  ino ← new_entry i_dir name
  inode_new ← read_inode ino
  write_inode ino (record inode_new {
    content = bytes (replicate 1000 0);
    size = 1000;
    mode = rw_mode mode ft_regular;
  })
  λ di. assert_found (denemefs_lookup i_dir name di).0 di

unfoldable pub denemefs_mknod : Inode → Name → FileMode → ℕ → M (Unit {0})
denemefs_mknod i_dir name mode dev = do
  ino ← new_entry i_dir name
  inode_new ← read_inode ino
  write_inode ino (record inode_new { mode = mode; dev = dev; content = null; size = 0 })

abbrev or_return : {A : Type 0} → Outcome A → ℕ → M A
or_return (done a) n = pure a
or_return (fails k) n = fail n
or_return stop n = halt

unfoldable pub denemefs_unlink : Inode → Name → M (Unit {0})
denemefs_unlink i_dir name di =
    (do
      inode ← or_return (denemefs_lookup i_dir name di).0 1
      if inode.mode.type == ft_regular
          then (do or_undo (denemefs_remove_entry i_dir name) halt 0; denemefs_free_inode inode.ino)
          else fail 1)
      di

unfoldable pub is_empty_dir : List Entry → Bool
is_empty_dir es = length es == 0

unfoldable pub denemefs_rmdir : Inode → Name → M (Unit {0})
unfolding is_empty_dir
denemefs_rmdir i_dir name di =
    (do
      inode ← or_return (denemefs_lookup i_dir name di).0 1
      if inode.mode.type == ft_dir
          then (do
            dir ← read_inode inode.ino
            es ← slots dir.content
            if is_empty_dir es
                then (do
                  or_undo (denemefs_remove_entry i_dir name) halt 0
                  denemefs_free_inode inode.ino)
                else fail 3)
          else fail 2)
      di
