-- ===== src/Vfs/Dirent.antt =====
-- kernel/fs/dirent.cpp: the cache of directory entries, over Vfs/World.antt.
use makarna_x.Base.{ℕ, suc, Option, none, some, List, [], ◌∷◌, ◌++◌, ◌==◌, if◌then◌else◌}
use makarna_x.Sched.State.{pos}
use makarna_x.DenemeFs.Store.{Name, name_eq, Inode, Outcome, done, fails, stop}
use makarna_x.DenemeFs.Dir.{denemefs_lookup}
use makarna_x.Vfs.World.{
  Dirent, World, V, fail, ◌>>=◌, or_halt, put_dirent, put_refs, put_inode, dirent_dup,
}

abbrev pub dot : Name
dot = b'.' ∷ []

abbrev pub dot_dot : Name
dot_dot = b'.' ∷ b'.' ∷ []

-- The loop of `dirent_lookup` over the children.
unfoldable pub find_child : (ℕ → Dirent) → List ℕ → Name → Option ℕ
find_child dirents [] name = none
find_child dirents (c ∷ cs) name =
    if name_eq (dirents c).name name then some c else find_child dirents cs name

-- `dirent_cache_add`, with `dirent_alloc` at the address `next`.
unfoldable pub dirent_cache_add : ℕ → Name → ℕ → World → World
dirent_cache_add d name i w =
    let c = w.next in
    let w1 =
      put_dirent (record w { next = suc w.next }) c
        (record { ref_count = pos 1; inode = some i; name = name; parent = some d; childs = [] }) in
    put_dirent w1 d (record (w1.dirents d) { childs = (w1.dirents d).childs ++ c ∷ [] })

-- `inode_alloc` at the address `next`.
unfoldable pub inode_new : Inode → World → World
inode_new v w = put_refs (put_inode (record w { next = suc w.next }) w.next v) w.next (pos 1)

-- The part of `dirent_lookup` that asks the disk. The inode is taken before the question, and given
-- back where there is no such name; its count is 0 then.
abbrev pub add_found : ℕ → Name → World → Outcome Inode → Outcome ℕ × World
add_found d name w (done v) =
    dirent_dup (suc w.next) (dirent_cache_add d name w.next (inode_new v w))
add_found d name w (fails n) = (fails n, put_refs (record w { next = suc w.next }) w.next (pos 0))
add_found d name w stop = (stop, w)

unfoldable pub lookup_disk : ℕ → ℕ → Name → V ℕ
lookup_disk d i name w = add_found d name w (denemefs_lookup (w.inodes i) name w.table).0

-- `dirent_lookup` of `..`: above the root of the task is the root.
abbrev pub parent_of : World → ℕ → Option ℕ
parent_of w d = if d == w.root then some d else (w.dirents d).parent

-- `dirent_lookup` from its test on the inode on.
unfoldable pub lookup_live : ℕ → ℕ → Name → V ℕ
unfolding find_child lookup_disk
lookup_live d i name w =
    if name_eq name dot
    then dirent_dup d w
    else (if name_eq name dot_dot
        then (do p ← or_halt (parent_of w d); dirent_dup p) w
        else elim (find_child w.dirents (w.dirents d).childs name) [
          | some c ↦ dirent_dup c w
          | none ↦ lookup_disk d i name w
        ])

unfoldable pub dirent_lookup : ℕ → Name → V ℕ
unfolding lookup_live
dirent_lookup d name w = elim (w.dirents d).inode [
  | none ↦ fail 1 w
  | some i ↦ lookup_live d i name w
]
