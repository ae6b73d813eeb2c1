-- ===== src/DenemeFs/File.antt =====
-- kernel/fs/denemefs/file.cpp, and `denemefs_readdir` and `denemefs_permission`: reading and writing
-- at the position of an open file. The position is read as an unsigned number, as the code compares
-- it; the data of a file may be longer than `size` but is never shorter than the code reads it.
use makarna_x.Base.{
  ℕ, zero, suc, ◌+◌, ◌%◌, Bool, true, ◌&&◌, Option, none, some, List, [], ◌∷◌, ◌==◌, ltb,
  if◌then◌else◌, length, get_elem?, set,
}
use makarna_x.DenemeFs.Store.{
  ft_regular, ft_dir, Entry, Content, null, entries, bytes, Inode, M, pure, fail, halt, ◌>>=◌, ◌>>◌,
  write_inode, read_inode,
}

-- The fields `inode` and `fpos` of `struct file`.
pub record File : Type 0 where
  pub inode : Inode
  pub fpos : ℕ

abbrev file_bytes : Content → M (List ℕ)
file_bytes null = halt
file_bytes (entries es) = halt
file_bytes (bytes b) = pure b

-- for (i = 0; i + fpos < in->size && size > 0; i++, size--) buf[i] = src[i]: `none` is a read past
-- the end of the data.
unfoldable pub read_loop : ℕ → List ℕ → ℕ → ℕ → Option (List ℕ)
read_loop zero data_bytes in_size pos = some []
read_loop (suc size) data_bytes in_size pos =
    let rest = read_loop size data_bytes in_size (pos + 1) in
    if ltb pos in_size
    then (elim (get_elem? data_bytes pos) [
      | none ↦ none
      | some b ↦ elim rest [ none ↦ none | some bs ↦ some (b ∷ bs) ]
    ])
    else some []

abbrev or_halt : {A : Type 0} → Option A → M A
or_halt none = halt
or_halt (some a) = pure a

-- The bytes that are put into `buf`; their number is what the function returns.
unfoldable pub denemefs_read : File → ℕ → M (List ℕ)
unfolding read_loop
denemefs_read f size = do
  inode ← read_inode f.inode.ino
  if inode.mode.type == ft_regular
      then (do b ← file_bytes inode.content; or_halt (read_loop size b inode.size f.fpos))
      else fail 1

-- for (i = 0; i + fpos < in->size && size > 0; i++, size--) dest[i] = buf[i]: the number of rounds
-- and the data after them. `size` is the length of `buf`.
unfoldable pub write_loop : List ℕ → List ℕ → ℕ → ℕ → Option (ℕ × List ℕ)
write_loop [] data_bytes in_size pos = some (0, data_bytes)
write_loop (b ∷ buf) data_bytes in_size pos =
    let rest = write_loop buf (set data_bytes pos b) in_size (pos + 1) in
    if ltb pos in_size
    then (if ltb pos (length data_bytes)
        then (elim rest [ none ↦ none | some (n, d) ↦ some (n + 1, d) ])
        else none)
    else some (0, data_bytes)

unfoldable pub denemefs_write : File → List ℕ → M ℕ
unfolding write_loop
denemefs_write f buf = do
  inode ← read_inode f.inode.ino
  if inode.mode.type == ft_regular
      then (do
        b ← file_bytes inode.content
        (n, b') ← or_halt (write_loop buf b inode.size f.fpos)
        write_inode f.inode.ino (record inode { content = bytes b' })
        pure n)
      else fail 1

abbrev dir_slots : Content → M (List Entry)
dir_slots null = halt
dir_slots (entries es) = pure es
dir_slots (bytes b) = halt

-- The slot at f->fpos, and the file with its position one further.
unfoldable pub denemefs_readdir : File → M (Entry × File)
denemefs_readdir f = do
  inode ← read_inode f.inode.ino
  if inode.mode.type == ft_dir
      then (do
        es ← dir_slots inode.content
        if length es == 0 then fail 2 else elim (get_elem? es f.fpos) [
          | none ↦ fail 3
          | some e ↦ pure (e, record f { fpos = f.fpos + 1 })
        ])
      else fail 1

-- denemefs_permission: 1 or 0.
unfoldable pub denemefs_permission : ℕ → ℕ → M Bool
denemefs_permission i flags = do
  inode ← read_inode i
  pure (if inode.mode.write == 1 && inode.mode.read == 1 then true else flags % 4 == 1)
