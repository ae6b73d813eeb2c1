-- ===== src/Sched/Queues.antt =====
-- kernel/sched.cpp: the runnable queues, and the tasks that wait for a resource. The parts of
-- `sleep_*` stand for the code before their call of `schedule`.
use makarna_x.Base.{ℕ, zero, suc, Bool, true, false, Option, none, some, [], ◌∷◌}
use makarna_x.Sched.State.{
  TaskState, running, interruptible, uninterruptible, ListId, runnable, pos, Sched, put_task,
  on_list, is_free, ◌>>=◌, ◌>>◌, assert, push_back, erase, or_same, head?, pop_front,
}

abbrev pub is_running : TaskState → Bool
is_running running = true
is_running _ = false

unfoldable pub add_to_runnable_list : Sched → ℕ → Option Sched
add_to_runnable_list s t = do
  assert (is_free (s.tasks t).on)
  push_back (put_task s t (record (s.tasks t) { state = running })) (runnable (s.tasks t).priority)
      t

unfoldable pub remove_from_runnable_list : Sched → ℕ → Option Sched
remove_from_runnable_list s t = do
  assert (on_list (s.tasks t).on (runnable (s.tasks t).priority))
  assert (is_running (s.tasks t).state)
  s' ← erase s (runnable (s.tasks t).priority) t
  assert (is_free (s'.tasks t).on)
  some s'

-- for (int i = 40; i > 0; i--) if (__task_runnable_queue[i].size() > 0) break: the queue found.
unfoldable pub find_level : ℕ → Sched → Option ℕ
find_level zero s = none
find_level (suc i) s = elim (s.lists (runnable (suc i))) [
  | [] ↦ find_level i s
  | t ∷ ts ↦ some (suc i)
]

-- The first task of the queue goes to its end, with its time set anew.
unfoldable pub rotate : Sched → ℕ → ℕ → Option Sched
rotate s level t = do
  s1 ← pop_front s (runnable level)
  s2 ← push_back s1 (runnable level) t
  let task = s2.tasks t
  assert (is_running task.state)
  some (put_task s2 t (record task { counter = pos task.priority }))

unfoldable pub find_runnable_task : Sched → Option (Option ℕ × Sched)
find_runnable_task s = elim (find_level 40 s) [
  | none ↦ some (none, s)
  | some level ↦ elim (head? (s.lists (runnable level))) [
    | none ↦ none
    | some t ↦ do s' ← rotate s level t; some (some t, s')
  ]
]

-- `sleep_interruptible` up to its call of `schedule`.
unfoldable pub sleep_interruptible : Sched → ListId → Option Sched
sleep_interruptible s q = do
  assert (is_running (s.tasks s.curr).state)
  s1 ← remove_from_runnable_list s s.curr
  let s2 = or_same s1 (push_back s1 q s.curr)
  some (put_task s2 s.curr (record (s2.tasks s.curr) { state = interruptible }))

-- `sleep_uninterruptible` up to its call of `schedule`.
unfoldable pub sleep_uninterruptible : Sched → ListId → Option Sched
sleep_uninterruptible s q = do
  assert (is_running (s.tasks s.curr).state)
  s1 ← remove_from_runnable_list s s.curr
  let s2 = put_task s1 s.curr (record (s1.tasks s.curr) { state = uninterruptible })
  some (or_same s2 (push_back s2 q s.curr))

unfoldable pub wakeup_interruptible : Sched → ListId → Option Sched
wakeup_interruptible s q = elim (head? (s.lists q)) [
  | none ↦ some s
  | some t ↦ do s1 ← pop_front s q; add_to_runnable_list s1 t
]

-- Here an empty list fails the ASSERT on `pop_front`.
unfoldable pub wakeup_uninterruptible : Sched → ListId → Option Sched
wakeup_uninterruptible s q = elim (head? (s.lists q)) [
  | none ↦ none
  | some t ↦ do s1 ← pop_front s q; add_to_runnable_list s1 t
]
