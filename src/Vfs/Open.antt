-- ===== src/Vfs/Open.antt =====
-- `file_read`, `file_write` and `file_lseek` of kernel/fs/file.cpp on open files of kernel/fs/denemefs.
-- The functions of an open file are those of its inode's `default_file_ops`: a directory has
-- neither `read` nor `write`, and the call of NULL stops. A position is an unsigned number here, as
-- denemefs compares it.
use makarna_x.Base.{ℕ, ◌+◌, ◌-◌, ◌%◌, ◌/◌, ◌^◌, List, ◌==◌, if◌then◌else◌, length}
use makarna_x.DenemeFs.Store.{dir_inode_op, file_inode_op, M, pure, fail, halt, ◌>>=◌}
use makarna_x.DenemeFs.File.{File, denemefs_read, denemefs_write}

-- `struct file`: a file with its `flags`.
pub record OpenFile : Type 0 where
  pub file : File
  pub flags : ℕ

-- f->fpos += r
abbrev pub forward : OpenFile → ℕ → OpenFile
forward f r = record f { file = record f.file { fpos = f.file.fpos + r } }

-- f->fo->read(f, buf, size)
abbrev pub op_read : OpenFile → ℕ → M (List ℕ)
op_read f size = elim f.file.inode.op [
  | dir_inode_op ↦ halt
  | file_inode_op ↦ denemefs_read f.file size
]

-- f->fo->write(f, buf, size)
abbrev pub op_write : OpenFile → List ℕ → M ℕ
op_write f buf = elim f.file.inode.op [
  | dir_inode_op ↦ halt
  | file_inode_op ↦ denemefs_write f.file buf
]

-- The bytes, whose number is the result, and the file after the call.
unfoldable pub file_read : OpenFile → ℕ → M (List ℕ × OpenFile)
file_read f size =
    if f.flags % 2 == 1 then (do r ← op_read f size; pure (r, forward f (length r))) else fail 1

-- The number of bytes written, and the file after the call.
unfoldable pub file_write : OpenFile → List ℕ → M (ℕ × OpenFile)
file_write f buf =
    if f.flags / 2 % 2 == 1 then (do n ← op_write f buf; pure (n, forward f n)) else fail 1

-- `file_lseek` by the number `whence`, on 32 bits.
unfoldable pub file_lseek : OpenFile → ℕ → ℕ → M OpenFile
file_lseek f offset whence =
    if whence == 0
    then pure (record f { file = record f.file { fpos = offset } })
    else (if whence == 1
        then pure (record f { file = record f.file { fpos = (f.file.fpos + offset) % 2 ^ 32 } })
        else (if whence == 2
            then pure (record f {
              file = record f.file { fpos = (f.file.inode.size + 2 ^ 32 - offset) % 2 ^ 32 };
            })
            else fail 1))
