-- ===== src/DenemeFs/Store.antt =====
-- The table `di` of kernel/fs/denemefs/denemefs.cpp, its entries, and the steps of an operation
-- over it: a result, a negative return, or a stop.
use makarna_x.Base.{
  ℕ, ◌+◌, ◌*◌, ◌≡◌, refl, ◌⊎◌, inl, inr, Bool, true, false, ◌&&◌, List, [], ◌∷◌, ◌==◌,
  if◌then◌else◌,
}

abbrev pub Name : Type 0
Name = List ℕ

-- strcmp(a, b) == 0
abbrev pub name_eq : Name → Name → Bool
name_eq [] [] = true
name_eq [] (y ∷ ys) = false
name_eq (x ∷ xs) [] = false
name_eq (x ∷ xs) (y ∷ ys) = (x == y) && name_eq xs ys

-- The bits read and write, and the type, of `struct FileMode`.
pub record FileMode : Type 0 where
  pub read : ℕ
  pub write : ℕ
  pub type : ℕ

abbrev pub ft_regular : ℕ
ft_regular = 1

abbrev pub ft_dir : ℕ
ft_dir = 2

-- A slot of `Deneme_subdentry`: no[i] and name[i].
pub record Entry : Type 0 where
  pub no : ℕ
  pub name : Name

abbrev pub subdentry_count : ℕ
subdentry_count = 56

-- sizeof(struct Deneme_subdentry)
abbrev pub subdentry_size : ℕ
subdentry_size = 4 + 4 * 56 + 56 * 32

-- What `Deneme_inode::data` points to.
pub data Content : Type 0 where
  null : Content
  entries : List Entry → Content
  bytes : List ℕ → Content

pub record DenemeInode : Type 0 where
  pub mode : FileMode
  pub nlinks : ℕ
  pub size : ℕ
  pub dev : ℕ
  pub content : Content

-- An inode after memset(&di[i], 0, sizeof(di[i])).
abbrev pub blank : DenemeInode
blank = record {
  mode = record { read = 0; write = 0; type = 0 };
  nlinks = 0;
  size = 0;
  dev = 0;
  content = null;
}

abbrev pub Table : Type 0
Table = ℕ → DenemeInode

-- di[i] = v
abbrev pub update : Table → ℕ → DenemeInode → Table
update di i v j = if i == j then v else di j

abbrev pub table_size : ℕ
table_size = 100

-- Which table of operations a `struct inode` points to.
pub data InodeOp : Type 0 where
  dir_inode_op file_inode_op : InodeOp

-- The fields of `struct inode` that this file system fills.
pub record Inode : Type 0 where
  pub ino : ℕ
  pub op : InodeOp
  pub size : ℕ
  pub mode : FileMode
  pub superblock : ℕ

-- How a call ends: with a value, by `return -n`, or at a failed ASSERT, a PANIC or a write past the
-- end of an array.
pub data Outcome {ℓ} (A : Type ℓ) : Type ℓ where
  done : A → Outcome A
  fails : ℕ → Outcome A
  stop : Outcome A

-- A call over the table. A negative return keeps the changes made before it.
abbrev pub M : Type 0 → Type 0
M A = Table → Outcome A × Table

abbrev pub pure : {A : Type 0} → A → M A
pure a di = (done a, di)

abbrev pub fail : {A : Type 0} → ℕ → M A
fail n di = (fails n, di)

abbrev pub halt : {A : Type 0} → M A
halt di = (stop, di)

abbrev pub continue : {A B : Type 0} → (A → M B) → Outcome A → Table → Outcome B × Table
continue f (done a) di = f a di
continue f (fails n) di = (fails n, di)
continue f stop di = (stop, di)

infixl 5 ◌>>=◌ ◌>>◌
abbrev pub ◌>>=◌ : {A B : Type 0} → M A → (A → M B) → M B
◌>>=◌ m f di = continue f (m di).0 (m di).1

abbrev pub ◌>>◌ : {B : Type 0} → M (Unit {0}) → M B → M B
m >> k = m >>= λ _. k

-- The call `m`; if it returns below 0, then `undo` and `return -n`.
abbrev pub recover : M (Unit {0}) → ℕ → Outcome (Unit {0}) → M (Unit {0})
recover undo n (done a) = pure a
recover undo n (fails k) = undo >> fail n
recover undo n stop = halt

abbrev pub or_undo : M (Unit {0}) → M (Unit {0}) → ℕ → M (Unit {0})
or_undo m undo n di = recover undo n (m di).0 (m di).1

abbrev pub write_inode : ℕ → DenemeInode → M (Unit {0})
write_inode i v di = (done tt, update di i v)

abbrev pub read_inode : ℕ → M DenemeInode
read_inode i di = (done (di i), di)

pub Outcome-cases :
    {A : Type 0} (o : Outcome A) → ((a : A) × (o ≡ done a)) ⊎ ((n : ℕ) × (o ≡ fails n)) ⊎ (o ≡ stop)
Outcome-cases (done a) = inl (a, refl)
Outcome-cases (fails n) = inr (inl (n, refl))
Outcome-cases stop = inr (inr refl)
