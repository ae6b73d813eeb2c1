-- ===== src/Ipc/SemaphoreLaws.antt =====
-- What the calls of Ipc/Semaphore.antt promise, and where they stop the kernel.
use makarna_x.Base.{
  ℕ, suc, ◌≡◌, inl, inr, true, false, none, some, List, [], ◌∷◌, ◌++◌, arith, Bool-cases,
  if◌then◌else◌,
}
use makarna_x.Base.{◌⊎◌, inl, inr}
use makarna_x.Sched.State.{pos, ListId, list_eq, runnable, waiting, running, uninterruptible, Sched}
use makarna_x.Sched.Queues.{wakeup_uninterruptible}
use makarna_x.Sched.Consistent.{Consistent}
use makarna_x.Sched.Runnable.{IsCurrent, sleep_last, wakeup_first}
use makarna_x.Ipc.Semaphore.{
  System, set_value, set_deferred, time, sys_semwait, sys_sempost, do_sempost, run_before_switch,
  is_positive,
}

sys_semwait_takes :
    (s : System) (m : ℕ)
    → s.deferred s.sched.curr ≡ none
    → s.value m ≡ pos 1
    → sys_semwait s m ≡ some (false, set_value s m (pos 0))
unfolding sys_semwait
sys_semwait_takes s m d v = ground arith

sys_semwait_sleeps :
    (s : System) (m : ℕ)
    → Consistent s.sched
    → IsCurrent s.sched
    → s.deferred s.sched.curr ≡ none
    → s.value m ≡ pos 0
    → (q : Sched) × (sys_semwait s m ≡ some (true, record s { sched = q }))
      × (q.lists (waiting m) ≡ s.sched.lists (waiting m) ++ s.sched.curr ∷ [])
      × ((q.tasks s.sched.curr).state ≡ uninterruptible)
      × Consistent q
unfolding sys_semwait
sys_semwait_sleeps s m c h d v =
    let (q, run, lists, state, same, kept) = sleep_last s.sched (waiting m) c h (λ p e. cc) in
    (q, ground arith, ground (arith, lists (waiting m)), state, kept)

-- A wait on a semaphore at 0 or 1, while no wakeup is put off, always returns or sleeps. At 1 the
-- task takes the semaphore at once, and only its value changes. At 0 the task goes to sleep behind
-- the tasks that wait already, the values of all semaphores stay, and the lists stay consistent.
pub sys_semwait_lem :
    (s : System) (m : ℕ)
    → Consistent s.sched
    → IsCurrent s.sched
    → s.deferred s.sched.curr ≡ none
    → (s.value m ≡ pos 0) ⊎ (s.value m ≡ pos 1)
    → ((s.value m ≡ pos 1) × (sys_semwait s m ≡ some (false, set_value s m (pos 0))))
      ⊎ ((q : Sched) × (s.value m ≡ pos 0)
          × (sys_semwait s m ≡ some (true, record s { sched = q }))
          × (q.lists (waiting m) ≡ s.sched.lists (waiting m) ++ s.sched.curr ∷ [])
          × ((q.tasks s.sched.curr).state ≡ uninterruptible)
          × Consistent q)
sys_semwait_lem s m c h d (inr one) = inl (one, sys_semwait_takes s m d one)
sys_semwait_lem s m c h d (inl zero_left) =
    let (q, run, list, state, kept) = sys_semwait_sleeps s m c h d zero_left in
    inr (q, zero_left, run, list, state, kept)

-- A wait on a semaphore above 1, while no wakeup is put off, fails the ASSERT on its value and stops
-- the kernel.
pub sys_semwait_stops :
    (s : System) (m n : ℕ)
    → s.deferred s.sched.curr ≡ none
    → s.value m ≡ pos (suc (suc n))
    → sys_semwait s m ≡ none
unfolding sys_semwait
sys_semwait_stops s m n d v = ground arith

-- The two ways of `post_waited` on a semaphore at 0, and the switch after each. `q` is the state
-- of the tasks after the wakeup.
module _ (s : System) (m t : ℕ) (ts : List ℕ) (q : Sched) (v : s.value m ≡ pos 0)
    (d : s.deferred s.sched.curr ≡ none) (l : s.sched.lists (waiting m) ≡ t ∷ ts)
    (woke : wakeup_uninterruptible s.sched (waiting m) ≡ some q)
    (same : q.curr ≡ s.sched.curr) where
  abbrev put_off : System
  put_off = set_deferred (set_value s m (pos 1)) (some m)

  abbrev caught_up : System
  caught_up = set_deferred (record (set_value put_off m (pos 0)) { sched = q }) none

  abbrev at_once : System
  at_once = record (set_deferred s none) { sched = q }

  post_early : is_positive (time s) ≡ true → sys_sempost s m ≡ some put_off
  unfolding sys_sempost
  post_early early = ground arith

  switch_early : run_before_switch put_off ≡ some caught_up
  unfolding run_before_switch do_sempost
  switch_early = ground arith

  post_late : is_positive (time s) ≡ false → sys_sempost s m ≡ some at_once
  unfolding sys_sempost
  post_late late = ground arith

  switch_late : run_before_switch at_once ≡ some at_once
  unfolding run_before_switch
  switch_late = ground arith

-- Where the lists are consistent, a post to a semaphore at 0 that tasks wait for, while no wakeup is put
-- off, always returns, and so
-- does what the next switch does first. Whether the
-- wakeup is made at once, at the end of the task's time, or put off to the switch, after it the
-- value is 0; the task that has waited longest, and no other, has left the list, is running and stands
-- at the end of the queue of its priority; every other list is as before, and the lists stay
-- consistent.
pub post_switch :
    (s : System) (m t : ℕ) (ts : List ℕ)
    → Consistent s.sched
    → s.value m ≡ pos 0
    → s.deferred s.sched.curr ≡ none
    → s.sched.lists (waiting m) ≡ t ∷ ts
    → let ready = runnable (s.sched.tasks t).priority in
      (s1 : System) × (s2 : System) × (sys_sempost s m ≡ some s1)
      × (run_before_switch s1 ≡ some s2)
      × (s2.value m ≡ pos 0)
      × ((r : ListId)
          → s2.sched.lists r ≡ (
              if list_eq (waiting m) r
              then ts
              else (if list_eq ready r then s.sched.lists ready ++ t ∷ [] else s.sched.lists r)))
      × ((s2.sched.tasks t).state ≡ running)
      × Consistent s2.sched
post_switch s m t ts c v d l =
    let (q, a, woke, lists, state, same, kept) =
      wakeup_first s.sched (waiting m) t ts c l (λ e. cc) in
    elim (Bool-cases (is_positive (time s))) [
      | inl early ↦ (
        put_off s m t ts q v d l woke same,
        caught_up s m t ts q v d l woke same,
        post_early s m t ts q v d l woke same early,
        switch_early s m t ts q v d l woke same,
        ground arith,
        lists,
        state,
        kept,
      )
      | inr late ↦ (
        at_once s m t ts q v d l woke same,
        at_once s m t ts q v d l woke same,
        post_late s m t ts q v d l woke same late,
        switch_late s m t ts q v d l woke same,
        v,
        lists,
        state,
        kept,
      )
    ]

-- A task that posts with time left, takes the semaphore again, and is switched away before it posts
-- again, stops the kernel: the wakeup that was put off finds the value at 0 and fails its ASSERT.
pub post_wait_switch_stops :
    (s : System) (m t n : ℕ) (ts : List ℕ)
    → s.value m ≡ pos 0
    → s.sched.lists (waiting m) ≡ t ∷ ts
    → time s ≡ pos (suc n)
    → (s1 : System) × (s2 : System) × (sys_sempost s m ≡ some s1)
      × (sys_semwait s1 m ≡ some (false, s2))
      × (run_before_switch s2 ≡ none)
unfolding sys_sempost sys_semwait run_before_switch do_sempost
post_wait_switch_stops s m t n ts v l early =
    let s1 = set_deferred (set_value s m (pos 1)) (some m) in
    (s1, set_value s1 m (pos 0), ground arith, ground arith, ground arith)
