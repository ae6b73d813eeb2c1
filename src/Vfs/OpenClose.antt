-- ===== src/Vfs/OpenClose.antt =====
-- The references that open and close take and give back: `sys_open` and `sys_close` of
-- kernel/fs/sys_fs.cpp.
use makarna_x.Base.{
  ℕ, zero, suc, ◌+◌, ◌<◌, ◌≤◌, ◌≡◌, ◌≢◌, refl, ap, ◌∙◌, inl, inr, true, Option, none, some, List,
  ◌==◌, ltb, arith, Option-cases, Bool-cases,
}
use makarna_x.Sched.State.{pos}
use makarna_x.Ipc.Semaphore.{suc_ℤ}
use makarna_x.DenemeFs.Store.{done, fails}
use makarna_x.Vfs.World.{World, continue, put_file, put_refs, inode_ref, inode_unref}
use makarna_x.Vfs.Files.{
  whole, inode_find, inode_permission, or_read, open_inode, file_open, file_close,
}
use makarna_x.Vfs.Fd.{first_free, set_fd, install, sys_open, sys_close}

-- The file that `open_inode` gives, in the state after it.
abbrev with_file : World → ℕ → ℕ → World
with_file w i flags =
    put_refs
      (put_file (record w { next = suc w.next }) w.next
        (record { inode = i; fpos = 0; flags = flags }))
      i (suc_ℤ (w.refs i))

pub open_inode_lem :
    (w : World) (i flags : ℕ)
    → inode_permission i flags w ≡ (done true, w)
    → open_inode i flags w ≡ (done w.next, with_file w i flags)
unfolding open_inode inode_ref
open_inode_lem w i flags h = rw h refl

-- The first place that is free is free, and those before it are not.
first_free_lem :
    (k fd n : ℕ) (fds : ℕ → Option ℕ)
    → first_free k fd fds ≡ some n
    → (fd ≤ n) × (n < fd + k) × (fds n ≡ none) × ((m : ℕ) → fd ≤ m → m < n → fds m ≢ none)
first_free_lem zero fd n fds h = absurd (ground arith)
first_free_lem (suc k) fd n fds h = elim (Option-cases (fds fd)) [
  | inl free ↦ (ground arith, ground arith, ground arith, λ m a b. absurd (ground (arith, a, b)))
  | inr (f, used) ↦
      let (a, b, c, before) = first_free_lem k (suc fd) n fds (ground arith) in
      (
        omega (arith, a),
        omega (arith, b),
        c,
        λ m less more none_there. elim (Bool-cases (m == fd)) [
          | inl same ↦ ground (arith, used, none_there)
          | inr other ↦ before m (ground (arith, less, other)) more none_there
        ],
      )
]

abbrev with_fd : World → ℕ → Option ℕ → World
with_fd w fd f = (set_fd fd f w).1

install_lem :
    (w : World) (f fd : ℕ)
    → first_free 29 3 w.fds ≡ some fd
    → install f w ≡ (
      done fd,
      put_refs (with_fd w fd (some f)) (w.files f).inode (suc_ℤ (w.refs (w.files f).inode)),
    )
unfolding inode_ref install
install_lem w f fd h = rw (install, h) refl

install_full : (w : World) (f : ℕ) → first_free 29 3 w.fds ≡ none → install f w ≡ (fails 1, w)
unfolding install
install_full w f h = rw (install, h) refl

inode_unref_lem :
    (w : World) (i n : ℕ)
    → w.refs i ≡ pos (suc n)
    → inode_unref i w ≡ (done tt, put_refs w i (pos n))
unfolding inode_unref
inode_unref_lem w i n h = rw h refl

pub file_close_lem :
    (w : World) (f n : ℕ)
    → w.refs (w.files f).inode ≡ pos (suc n)
    → file_close f w ≡ (done tt, put_refs w (w.files f).inode (pos n))
unfolding file_close
file_close_lem w f n h = rw h (inode_unref_lem w (w.files f).inode n h)

sys_close_lem :
    (w : World) (fd f n : ℕ)
    → fd < 32
    → w.fds fd ≡ some f
    → w.refs (w.files f).inode ≡ pos (suc n)
    → sys_close fd w ≡ (done tt, with_fd (put_refs w (w.files f).inode (pos n)) fd none)
unfolding sys_close
sys_close_lem w fd f n less at count =
    let ok : ltb fd 32 ≡ true = ground (arith, less) in
    rw ok rw at (ap (λ r. continue (λ u. set_fd fd none) r.0 r.1) (file_close_lem w f n count))

pub sys_close_at :
    (w : World) (fd f i n : ℕ)
    → fd < 32
    → w.fds fd ≡ some f
    → (w.files f).inode ≡ i
    → w.refs i ≡ pos (suc n)
    → sys_close fd w ≡ (done tt, with_fd (put_refs w i (pos n)) fd none)
sys_close_at w fd f i n less at node count =
    sys_close_lem w fd f n less at (ap w.refs node ∙ count)
    ∙ ap (λ j. (done tt, with_fd (put_refs w j (pos n)) fd none)) node

file_open_lem :
    (path : List ℕ) (flags : ℕ) (w w1 : World) (i : ℕ)
    → inode_find path whole w ≡ (done i, w1)
    → inode_permission i (or_read flags) w1 ≡ (done true, w1)
    → file_open path flags w ≡ (done w1.next, with_file w1 i (or_read flags))
unfolding file_open
file_open_lem path flags w w1 i found granted =
    rw found (open_inode_lem w1 i (or_read flags) granted)

-- The state after `sys_open`, where `inode_find` has left `w1`.
abbrev opened_at : World → ℕ → ℕ → ℕ → ℕ → World
opened_at w1 i flags fd n =
    put_refs (with_fd (with_file w1 i flags) fd (some w1.next)) i (pos (suc (suc n)))

-- Where `inode_find` has found the inode `i`, whose count is `n` with the reference that
-- `inode_find` has taken, the permission is given, and one of the places from 3 to 31 is free, `sys_open`
-- returns a number from 3 to 31
-- that was free, the least one. `sys_close` of it then succeeds, every place is as before
-- `sys_open`, and the count of the inode is n + 1: it keeps the reference of `inode_find` and one
-- more.
pub sys_open-sys_close :
    (path : List ℕ) (flags : ℕ) (w w1 : World) (i fd n : ℕ)
    → inode_find path whole w ≡ (done i, w1)
    → inode_permission i (or_read flags) w1 ≡ (done true, w1)
    → first_free 29 3 w1.fds ≡ some fd
    → w1.refs i ≡ pos n
    → (w2 : World) × (w3 : World) × (sys_open path flags w ≡ (done fd, w2))
      × (sys_close fd w2 ≡ (done tt, w3))
      × (3 ≤ fd)
      × (fd < 32)
      × ((m : ℕ) → 3 ≤ m → m < fd → w1.fds m ≢ none)
      × ((m : ℕ) → w3.fds m ≡ w1.fds m)
      × (w3.refs i ≡ pos (suc n))
unfolding sys_open
sys_open-sys_close path flags w w1 i fd n found granted free count =
    let (low, high, empty, before) = first_free_lem 29 3 fd w1.fds free in
    let w2 = opened_at w1 i (or_read flags) fd n in
    (
      w2,
      with_fd (put_refs w2 i (pos (suc n))) fd none,
      ap (λ r. continue install r.0 r.1) (file_open_lem path flags w w1 i found granted)
          ∙ install_lem (with_file w1 i (or_read flags)) w1.next fd free
          ∙ ground (arith, count),
      sys_close_at w2 fd w1.next i (suc n) (omega (arith, high)) (ground arith) (ground arith)
          (ground arith),
      low,
      omega (arith, high),
      before,
      λ m. ground (arith, empty),
      ground arith,
    )

-- With a file in each of the places 3 to 31, `sys_open` returns -1, and the file that it has opened stays
-- open: its inode's count is raised, and no place holds it.
pub sys_open-full :
    (path : List ℕ) (flags : ℕ) (w w1 : World) (i n : ℕ)
    → inode_find path whole w ≡ (done i, w1)
    → inode_permission i (or_read flags) w1 ≡ (done true, w1)
    → first_free 29 3 w1.fds ≡ none
    → w1.refs i ≡ pos n
    → (w2 : World) × (sys_open path flags w ≡ (fails 1, w2))
      × (w2.refs i ≡ pos (suc n))
      × ((w2.files w1.next).inode ≡ i)
      × (w2.fds ≡ w1.fds)
unfolding sys_open
sys_open-full path flags w w1 i n found granted full count = (
  with_file w1 i (or_read flags),
  ap (λ r. continue install r.0 r.1) (file_open_lem path flags w w1 i found granted)
      ∙ install_full (with_file w1 i (or_read flags)) w1.next full,
  ground (arith, count),
  ground arith,
  refl,
)
