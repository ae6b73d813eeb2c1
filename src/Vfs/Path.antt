-- ===== src/Vfs/Path.antt =====
-- `parse_path_i` of include/genel_fonksiyonlar.h, and `dirent_find` and `dirent_find2` of
-- kernel/fs/dirent.cpp. A path is the list of its bytes without the final 0; a place in it is what is
-- left from there on, up to `len` bytes.
use makarna_x.Base.{
  ℕ, zero, suc, Bool, true, false, Option, none, some, List, [], ◌∷◌, ◌++◌, ◌==◌, ltb,
  if◌then◌else◌, length, take, drop,
}
use makarna_x.DenemeFs.Store.{Name, Outcome, done, fails, stop}
use makarna_x.Vfs.World.{World, V, pure, fail, halt, ◌>>=◌, ◌>>◌, dirent_dup, dirent_free}
use makarna_x.Vfs.Dirent.{dirent_lookup}

abbrev pub slash : ℕ
slash = b'/'

-- `char buf[256]`
abbrev pub buf_size : ℕ
buf_size = 256

abbrev pub is_nil : List ℕ → Bool
is_nil [] = true
is_nil (x ∷ xs) = false

-- The loop of `parse_path_i` with the bytes put into `buf`: the name and, for a result above 0, what
-- is left of the path. `none` is a write past the end of `buf`.
unfoldable pub parse_path_i : Name → List ℕ → Option (Name × Option (List ℕ))
parse_path_i buf [] = if ltb (length buf) buf_size then some (buf, none) else none
parse_path_i buf (c ∷ cs) =
    let skip = parse_path_i buf cs in
    let put = parse_path_i (buf ++ c ∷ []) cs in
    if ltb (length buf) buf_size
    then (if c == slash then (if is_nil buf then skip else some (buf, some cs)) else put)
    else none

-- `dirent_free(curr)` after the lookup, and what follows.
abbrev pub leave : ℕ → Outcome ℕ → V ℕ
leave curr (done next) = do dirent_free curr; pure next
leave curr (fails n) = do dirent_free curr; fail n
leave curr stop = halt

-- The body of the loop of `dirent_find` with a name.
unfoldable pub visit : ℕ → Name → V ℕ
visit curr buf w = leave curr (dirent_lookup curr buf w).0 (dirent_lookup curr buf w).1

-- The body of the loop, where the name is empty or not.
abbrev pub enter : ℕ → Name → V ℕ
enter curr buf = if is_nil buf then pure curr else visit curr buf

-- The loop of `dirent_find`, with the rounds left.
unfoldable pub find_loop : ℕ → List ℕ → ℕ → V ℕ
find_loop zero cs curr = halt
find_loop (suc k) cs curr = elim (parse_path_i [] cs) [
  | none ↦ halt
  | some (buf, none) ↦ enter curr buf
  | some (buf, some rest) ↦ enter curr buf >>= λ next. find_loop k rest next
]

-- The entry that the search starts in.
abbrev pub start : List ℕ → World → ℕ
start [] w = w.pwd
start (c ∷ cs) w = if c == slash then w.root else w.pwd

-- Every round but the last takes a byte of the path.
unfoldable pub dirent_find : List ℕ → ℕ → V ℕ
dirent_find path len w =
    (do
      curr ← dirent_dup (start path w)
      find_loop (suc (length (take len path))) (take len path) curr)
      w

-- strrchr(path, '/') - path
abbrev pub last_slash : List ℕ → Option ℕ
last_slash [] = none
last_slash (c ∷ cs) = elim (last_slash cs) [
  | some i ↦ some (suc i)
  | none ↦ if c == slash then some 0 else none
]

-- A negative result of `dirent_find` is -1 here.
abbrev pub or_one : List ℕ → Outcome ℕ → V (ℕ × List ℕ)
or_one name (done d) = pure (d, name)
or_one name (fails n) = fail 1
or_one name stop = halt

-- The directory and the last name of a path. Without a slash the directory is `pwd`, which gets no
-- further reference.
unfoldable pub dirent_find2 : List ℕ → V (ℕ × List ℕ)
dirent_find2 path w = elim (last_slash path) [
  | none ↦ (done (w.pwd, path), w)
  | some i ↦ or_one (drop (suc i) path) (dirent_find path i w).0 (dirent_find path i w).1
]
