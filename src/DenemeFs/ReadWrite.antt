-- ===== src/DenemeFs/ReadWrite.antt =====
-- `denemefs_read`, `denemefs_write` and `denemefs_readdir` on the table.
use makarna_x.Base.{
  ℕ, ◌+◌, ◌-◌, ◌<◌, ◌≤◌, ◌≡◌, refl, ◌∙◌, List, arith, length, get_elem?, take, drop, take_of_agree,
  get_elem?-drop, get_elem?-take_lt, sym,
}
use makarna_x.DenemeFs.Store.{bytes, Table, done, ft_regular, update}
use makarna_x.DenemeFs.File.{File, denemefs_read, denemefs_write}
use makarna_x.DenemeFs.Bytes.{rounds, written, read_loop_lem, write_loop_lem}

-- The inode `ino` is a regular file with the data `b`, which are not shorter than its size.
pub record IsFile (ino : ℕ) (b : List ℕ) (di : Table) : Type 0 where
  pub regular : (di ino).mode.type ≡ ft_regular
  pub content : (di ino).content ≡ bytes b
  pub size : (di ino).size ≤ length b

-- A read of a regular file gives the bytes from the position on, as many as are asked for or as the
-- file has left, and changes nothing.
pub denemefs_read_lem :
    (f : File) (size : ℕ) (b : List ℕ) (di : Table)
    → IsFile f.inode.ino b di
    → (r : List ℕ) × (denemefs_read f size di ≡ (done r, di))
      × (length r ≡ rounds size (di f.inode.ino).size f.fpos)
      × (r ≡ take (rounds size (di f.inode.ino).size f.fpos) (drop f.fpos b))
unfolding denemefs_read
denemefs_read_lem f size b di h =
    let (r, run, long, same) = read_loop_lem size b (di f.inode.ino).size f.fpos h.size in
    (
      r,
      ground (arith, h.content, h.regular),
      long,
      take_of_agree (rounds size (di f.inode.ino).size f.fpos) r (drop f.fpos b) long
          (λ i k. same i (ground arith) ∙ sym (get_elem?-drop f.fpos b i)),
    )

-- A write puts as many bytes of `buf` as the file has room for at the position, leaves every other
-- byte and every other inode, and never makes the file longer; the number of bytes is returned.
pub denemefs_write_lem :
    (f : File) (buf b : List ℕ) (di : Table)
    → IsFile f.inode.ino b di
    → let n = rounds (length buf) (di f.inode.ino).size f.fpos in
      (d : List ℕ) × (denemefs_write f buf di
        ≡ (done n, update di f.inode.ino (record (di f.inode.ino) { content = bytes d })))
      × (length d ≡ length b)
      × ((i : ℕ) → get_elem? d i ≡ written buf b f.fpos n i)
unfolding denemefs_write
denemefs_write_lem f buf b di h =
    let (d, run, long, same) = write_loop_lem buf b (di f.inode.ino).size f.fpos h.size in
    (d, ground (arith, h.content, h.regular), long, same)

written_at :
    (buf b : List ℕ) (pos n i : ℕ) → i < n → written buf b pos n (pos + i) ≡ get_elem? buf i
written_at buf b pos n i h = let back : pos + i - pos ≡ i = omega arith in rw back (ground arith)

-- What was written is read back: a read at the same position of as many bytes as the write returned
-- gives the first bytes of `buf`, byte for byte.
pub read-write :
    (f : File) (buf b : List ℕ) (di : Table)
    → IsFile f.inode.ino b di
    → let n = rounds (length buf) (di f.inode.ino).size f.fpos in
      let after = (denemefs_write f buf di).1 in
      (r : List ℕ) × ((denemefs_write f buf di).0 ≡ done n)
      × (denemefs_read f n after ≡ (done r, after))
      × (length r ≡ n)
      × (r ≡ take n buf)
read-write f buf b di h =
    let n = rounds (length buf) (di f.inode.ino).size f.fpos in
    let (d, run, long, same) = denemefs_write_lem f buf b di h in
    let after = update di f.inode.ino (record (di f.inode.ino) { content = bytes d }) in
    let kept : IsFile f.inode.ino d after = record {
      regular = ground (arith, h.regular);
      content = ground arith;
      size = ground (arith, h.size);
    } in
    let m = rounds n (after f.inode.ino).size f.fpos in
    let (r, run2, long2, same2) = denemefs_read_lem f n d after kept in
    let all : m ≡ n = ground arith in
    rw run (
      r,
      refl,
      run2,
      ground arith,
      take_of_agree n r buf (ground arith) (λ i k. rw same2 (
          get_elem?-take_lt m (drop f.fpos d) i (ground arith)
          ∙ get_elem?-drop f.fpos d i
          ∙ same (f.fpos + i)
          ∙ written_at buf b f.fpos n i k)),
    )
