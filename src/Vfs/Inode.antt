-- ===== src/Vfs/Inode.antt =====
-- kernel/fs/inode.cpp: the lock and the references of an inode. An inode is a number, and its
-- `lock.wait_list` is the list `waiting` of that number. A call that sleeps is modelled up to its
-- call of `schedule`, with the flag true; the addresses that `kmalloc` gives are arguments.
use makarna_x.Base.{ℕ, Bool, true, false, Option, some, List, [], ◌∷◌, ◌==◌, if◌then◌else◌}
use makarna_x.Sched.State.{ℤ, pos, pred_ℤ, is_negative, waiting, Sched, ◌>>=◌, ◌>>◌, assert}
use makarna_x.Sched.Queues.{sleep_uninterruptible, wakeup_interruptible}
use makarna_x.Ipc.Semaphore.{suc_ℤ, is_zero, is_positive}

-- `lock.val` and `ref_count` of every inode, and whether its memory is still there.
pub record Inodes : Type 0 where
  pub sched : Sched
  pub val : ℕ → ℤ
  pub ref_count : ℕ → ℤ
  pub live : ℕ → Bool

abbrev pub set_val : Inodes → ℕ → ℤ → Inodes
set_val s i v = record s { val = λ j. if i == j then v else s.val j }

abbrev pub set_ref_count : Inodes → ℕ → ℤ → Inodes
set_ref_count s i v = record s { ref_count = λ j. if i == j then v else s.ref_count j }

unfoldable pub inode_lock : Inodes → ℕ → Option (Bool × Inodes)
inode_lock s i =
    if is_positive (s.val i)
    then (do let s' = set_val s i (pred_ℤ (s.val i)); assert (is_zero (s'.val i)); some (false, s'))
    else (do q ← sleep_uninterruptible s.sched (waiting i); some (true, record s { sched = q }))

-- `inode_unlock` after its ASSERT.
unfoldable pub hand_over : Inodes → ℕ → Option Inodes
hand_over s i = elim (s.sched.lists (waiting i)) [
  | [] ↦ some (set_val s i (suc_ℤ (s.val i)))
  | t ∷ ts ↦ do q ← wakeup_interruptible s.sched (waiting i); some (record s { sched = q })
]

unfoldable pub inode_unlock : Inodes → ℕ → Option Inodes
unfolding hand_over
inode_unlock s i = do assert (is_zero (s.val i)); hand_over s i

unfoldable pub inode_alloc : Inodes → ℕ → Inodes
inode_alloc s i = record s {
  sched = record s.sched {
    lists = λ q. elim q [
      | waiting j ↦ if i == j then [] else s.sched.lists (waiting j)
      | other ↦ s.sched.lists other
    ];
  };
  val = λ j. if i == j then pos 1 else s.val j;
  ref_count = λ j. if i == j then pos 1 else s.ref_count j;
  live = λ j. if i == j then true else s.live j;
}

unfoldable pub inode_dup : Inodes → ℕ → Option (Bool × Inodes)
inode_dup s i = do
  (slept, s1) ← inode_lock s i
  if slept
      then some (true, s1)
      else (do s2 ← inode_unlock (set_ref_count s1 i (suc_ℤ (s1.ref_count i))) i; some (false, s2))

abbrev is_empty : List ℕ → Bool
is_empty [] = true
is_empty (t ∷ ts) = false

-- `__inode_free`
unfoldable pub free_memory : Inodes → ℕ → Option Inodes
free_memory s i = do
  assert (is_empty (s.sched.lists (waiting i)))
  assert (is_zero (s.ref_count i))
  some (record s { live = λ j. if i == j then false else s.live j })

-- `inode_free` with the lock taken.
unfoldable pub drop_ref : Inodes → ℕ → Option Inodes
unfolding free_memory
drop_ref s i =
    let s' = set_ref_count s i (pred_ℤ (s.ref_count i)) in
    if is_negative (s'.ref_count i) then free_memory s' i else inode_unlock s' i

unfoldable pub inode_free : Inodes → ℕ → Option (Bool × Inodes)
unfolding drop_ref
inode_free s i = do
  (slept, s1) ← inode_lock s i
  if slept then some (true, s1) else (do s2 ← drop_ref s1 i; some (false, s2))
