-- ===== src/Vfs/InodeLaws.antt =====
-- The lock of an inode of Vfs/Inode.antt, and its references.
use makarna_x.Base.{
  ℕ, suc, ◌≡◌, refl, ◌⊎◌, inl, inr, true, false, none, some, List, [], ◌∷◌, ◌++◌, arith,
  if◌then◌else◌,
}
use makarna_x.Sched.State.{pos, ListId, list_eq, runnable, waiting, running, Sched}
use makarna_x.Sched.Consistent.{Consistent}
use makarna_x.Sched.Runnable.{IsCurrent, sleep_last, wakeup_first}
use makarna_x.Vfs.Inode.{
  Inodes, set_val, set_ref_count, inode_lock, inode_unlock, hand_over, inode_dup, inode_free,
  free_memory, drop_ref,
}

waiters : (xs : List ℕ) → (xs ≡ []) ⊎ ((t : ℕ) × (ts : List ℕ) × (xs ≡ t ∷ ts))
waiters [] = inl refl
waiters (t ∷ ts) = inr (t, ts, refl)

-- A task that locks an inode whose lock is held always goes to sleep behind those that wait for it,
-- and the lock stays held; the lists stay consistent.
pub inode_lock_waits :
    (s : Inodes) (i : ℕ)
    → Consistent s.sched
    → IsCurrent s.sched
    → s.val i ≡ pos 0
    → (q : Sched) × (inode_lock s i ≡ some (true, record s { sched = q }))
      × (q.lists (waiting i) ≡ s.sched.lists (waiting i) ++ s.sched.curr ∷ [])
      × Consistent q
unfolding inode_lock
inode_lock_waits s i c h v =
    let (q, run, lists, state, same, kept) = sleep_last s.sched (waiting i) c h (λ p e. cc) in
    (q, ground arith, ground (arith, lists (waiting i)), kept)

-- Where the lists are consistent, `inode_unlock` of a held lock always returns. With no task waiting the lock is free. Otherwise it
-- stays held, and passes to the task that has waited longest: that one alone leaves the list, is running
-- and stands at the end of the queue of its priority, every other list is as before, and the lists
-- stay consistent.
pub inode_unlock_passes :
    (s : Inodes) (i : ℕ)
    → Consistent s.sched
    → s.val i ≡ pos 0
    → ((s.sched.lists (waiting i) ≡ []) × (inode_unlock s i ≡ some (set_val s i (pos 1))))
      ⊎ ((t : ℕ) × (ts : List ℕ) × (q : Sched) × (s.sched.lists (waiting i) ≡ t ∷ ts)
          × (inode_unlock s i ≡ some (record s { sched = q }))
          × ((r : ListId)
              → q.lists r ≡ (
                  if list_eq (waiting i) r
                  then ts
                  else (if list_eq (runnable (s.sched.tasks t).priority) r
                      then s.sched.lists (runnable (s.sched.tasks t).priority) ++ t ∷ []
                      else s.sched.lists r)))
          × ((q.tasks t).state ≡ running)
          × Consistent q)
unfolding inode_unlock hand_over
inode_unlock_passes s i c v = elim (waiters (s.sched.lists (waiting i))) [
  | inl nobody ↦ inl (nobody, ground arith)
  | inr (t, ts, l) ↦
      let (q, woke, b, lists, state, same, kept) =
        wakeup_first s.sched (waiting i) t ts c l (λ e. cc) in
      inr (t, ts, q, l, ground arith, lists, state, kept)
]

-- `inode_dup` of an inode that is not locked adds a reference and leaves it unlocked.
pub inode_dup_lem :
    (s : Inodes) (i n : ℕ)
    → s.val i ≡ pos 1
    → s.sched.lists (waiting i) ≡ []
    → s.ref_count i ≡ pos n
    → (s' : Inodes) × (inode_dup s i ≡ some (false, s'))
      × (s'.ref_count i ≡ pos (suc n))
      × (s'.val i ≡ pos 1)
unfolding inode_dup inode_lock inode_unlock hand_over
inode_dup_lem s i n v l r =
    let s1 = set_val s i (pos 0) in
    let s2 = set_ref_count s1 i (pos (suc n)) in
    (set_val s2 i (pos 1), ground arith, ground arith, ground arith)

-- The last reference of an inode that is not locked can be dropped, and its memory stays; to drop
-- one more stops the kernel at the ASSERT of `__inode_free`.
pub inode_free_last :
    (s : Inodes) (i : ℕ)
    → s.val i ≡ pos 1
    → s.sched.lists (waiting i) ≡ []
    → s.ref_count i ≡ pos 1
    → (s' : Inodes) × (inode_free s i ≡ some (false, s'))
      × (s'.ref_count i ≡ pos 0)
      × (s'.live i ≡ s.live i)
      × (inode_free s' i ≡ none)
unfolding inode_free drop_ref inode_lock inode_unlock hand_over free_memory
inode_free_last s i v l r =
    let s1 = set_val s i (pos 0) in
    let s2 = set_ref_count s1 i (pos 0) in
    (set_val s2 i (pos 1), ground arith, ground arith, refl, ground arith)
