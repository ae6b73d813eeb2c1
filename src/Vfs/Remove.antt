-- ===== src/Vfs/Remove.antt =====
-- `dirent_delete` and `dirent_cache_remove` of kernel/fs/dirent.cpp: an entry leaves the cache with all
-- that is below it.
use makarna_x.Base.{ℕ, zero, suc, ◌+◌, none, some, List, [], ◌∷◌, ◌==◌, if◌then◌else◌, length}
use makarna_x.DenemeFs.Store.{Name, Outcome, done, fails, stop}
use makarna_x.Vfs.World.{Dirent, World, V, pure, halt, ◌>>◌, put_dirent, dirent_free}
use makarna_x.Vfs.Dirent.{find_child}
use makarna_x.Vfs.Path.{dirent_find2}

abbrev pub set_childs : World → ℕ → List ℕ → World
set_childs w d cs = put_dirent w d (record (w.dirents d) { childs = cs })

-- The end of `dirent_delete`.
abbrev pub detach : ℕ → V (Unit {0})
detach d w = dirent_free d (put_dirent w d (record (w.dirents d) { inode = none; parent = none }))

-- ASSERT(dir->parent->lock.locked): the caller holds the lock of the parent, where there is one.
abbrev pub assert_parent : ℕ → V (Unit {0})
assert_parent d w = elim (w.dirents d).parent [ none ↦ (stop, w) | some p ↦ (done tt, w) ]

-- The loop of `dirent_delete`, with the rounds left: each takes the first child off the list. The loop
-- returns nothing, so `fails 0` stands for the end of the rounds; a failed ASSERT is `stop`.
unfoldable pub delete_childs : ℕ → ℕ → V (Unit {0})
delete_childs zero d w = (fails 0, w)
delete_childs (suc k) d w = elim (w.dirents d).childs [
  | [] ↦ (done tt, w)
  | c ∷ cs ↦
      (do assert_parent c; delete_childs k c; detach c; delete_childs k d) (set_childs w d cs)
]

unfoldable pub dirent_delete : ℕ → ℕ → V (Unit {0})
dirent_delete k d = do assert_parent d; delete_childs k d; detach d

-- The children of all entries below an address.
abbrev pub count_childs : (ℕ → Dirent) → ℕ → ℕ
count_childs dirents zero = 0
count_childs dirents (suc n) = count_childs dirents n + length (dirents n).childs

-- `dir->childs.erase(it)`
abbrev pub erase : ℕ → List ℕ → List ℕ
erase c [] = []
erase c (x ∷ xs) = if x == c then xs else x ∷ erase c xs

-- The loop of `dirent_cache_remove` over the children. A round of `dirent_delete` takes a child off some
-- list, so their number is enough.
unfoldable pub remove_child : ℕ → Name → V (Unit {0})
remove_child dir name w = elim (find_child w.dirents (w.dirents dir).childs name) [
  | none ↦ (done tt, w)
  | some c ↦
      dirent_delete (suc (count_childs w.dirents w.next)) c
        (set_childs w dir (erase c (w.dirents dir).childs))
]

-- `dirent_cache_remove` after `dirent_find2`.
abbrev pub remove_in : Outcome (ℕ × List ℕ) → V (Unit {0})
remove_in (done (dir, name)) = do remove_child dir name; dirent_free dir
remove_in (fails n) = pure tt
remove_in stop = halt

unfoldable pub dirent_cache_remove : List ℕ → V (Unit {0})
dirent_cache_remove path w = remove_in (dirent_find2 path w).0 (dirent_find2 path w).1
