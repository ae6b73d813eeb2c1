-- ===== src/Vfs/Reads.antt =====
-- Successive calls on one open file, as Vfs/Open.antt has them.
use makarna_x.Base.{
  ℕ, zero, suc, ◌+◌, ◌%◌, ◌≡◌, refl, sym, ap, ◌∙◌, List, [], ◌∷◌, ◌++◌, arith, length, take, drop,
}
use makarna_x.DenemeFs.Store.{Table, done, file_inode_op}
use makarna_x.DenemeFs.Bytes.{rounds}
use makarna_x.DenemeFs.ReadWrite.{IsFile, denemefs_read_lem}
use makarna_x.Vfs.Open.{OpenFile, forward, file_read}

take-nil : (n : ℕ) → take {A = ℕ} n [] ≡ []
take-nil zero = refl
take-nil (suc n) = refl

drop-nil : (n : ℕ) → drop {A = ℕ} n [] ≡ []
drop-nil zero = refl
drop-nil (suc n) = refl

take-add : (a c : ℕ) (xs : List ℕ) → take (a + c) xs ≡ take a xs ++ take c (drop a xs)
take-add zero c xs = ground arith
take-add (suc a) c [] = take-nil (suc a + c) ∙ sym (take-nil c)
take-add (suc a) c (x ∷ xs) =
    let next : suc a + c ≡ suc (a + c) = omega arith in rw next (ap (λ r. x ∷ r) (take-add a c xs))

drop-add : (a c : ℕ) (xs : List ℕ) → drop (a + c) xs ≡ drop c (drop a xs)
drop-add zero c xs = ground arith
drop-add (suc a) c [] = drop-nil (suc a + c) ∙ sym (drop-nil c)
drop-add (suc a) c (x ∷ xs) =
    let next : suc a + c ≡ suc (a + c) = omega arith in rw next (drop-add a c xs)

-- A regular file, open for reading.
pub record IsReadable (f : OpenFile) (b : List ℕ) (di : Table) : Type 0 where
  pub flags : f.flags % 2 ≡ 1
  pub op : f.file.inode.op ≡ file_inode_op
  pub file : IsFile f.file.inode.ino b di

-- The bytes that a read of `size` bytes gives.
abbrev pub part : OpenFile → ℕ → List ℕ → Table → List ℕ
part f size b di = take (rounds size (di f.file.inode.ino).size f.file.fpos) (drop f.file.fpos b)

file_read_lem :
    (f : OpenFile) (size : ℕ) (b : List ℕ) (di : Table)
    → IsReadable f b di
    → (r : List ℕ) × (file_read f size di ≡ (done (r, forward f (length r)), di))
      × (length r ≡ rounds size (di f.file.inode.ino).size f.file.fpos)
      × (r ≡ part f size b di)
unfolding file_read
file_read_lem f size b di h =
    let (r, run, long, same) = denemefs_read_lem f.file size b di h.file in
    (r, ground (arith, h.flags, h.op), long, same)

-- Two reads one after the other give the same bytes, and leave the file at the same position, as one
-- read of both sizes.
pub file_read-add :
    (f : OpenFile) (m n : ℕ) (b : List ℕ) (di : Table)
    → IsReadable f b di
    → (r : List ℕ) × (q : List ℕ) × (g : OpenFile) × (h : OpenFile) × (file_read f m di
        ≡ (done (r, g), di))
      × (file_read g n di ≡ (done (q, h), di))
      × (file_read f (m + n) di ≡ (done (r ++ q, h), di))
file_read-add f m n b di h =
    let (r, run, long, same) = file_read_lem f m b di h in
    let g = forward f (length r) in
    let (q, run2, long2, same2) =
      file_read_lem g n b di (record { flags = h.flags; op = h.op; file = h.file }) in
    let (w, run3, long3, same3) = file_read_lem f (m + n) b di h in
    let size = (di f.file.inode.ino).size in
    let a = rounds m size f.file.fpos in
    let c = rounds n size (f.file.fpos + length r) in
    let sum : rounds (m + n) size f.file.fpos ≡ a + c = ground arith in
    let whole : w ≡ r ++ q =
      same3
      ∙ ap (λ k. take k (drop f.file.fpos b)) sum
      ∙ take-add a c (drop f.file.fpos b)
      ∙ ground (arith, drop-add f.file.fpos (length r) b) in
    let ends : f.file.fpos + length w ≡ f.file.fpos + length r + length q = ground arith in
    (r, q, g, forward g (length q), run, run2, run3 ∙ ground arith)
