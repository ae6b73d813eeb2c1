-- ===== src/Sched/ExitTests.antt =====
-- A run of kernel/task_exit.cpp, and the theorem at it.
use makarna_x.Base.{ℕ, true, none, some, List, [], ◌∷◌, ◌==◌, if◌then◌else◌}
use makarna_x.Sched.State.{
  running, interruptible, not_runnable, ListId, runnable, waiting, sleeping, zombies, Task, Sched,
}
use makarna_x.Sched.Consistent.{Consistent}
use makarna_x.Sched.Exit.{Family}
use makarna_x.Sched.Tests.{a_task}

-- Task 1, with the id 9, runs; its parent, task 2, waits for it.
abbrev couple_tasks : ℕ → Task
couple_tasks t =
    if t == 1
    then a_task 9 running (some (runnable 20))
    else (if t == 2
        then record (a_task 2 interruptible none) { waiting_child = true }
        else a_task t not_runnable none)

abbrev couple_lists : ListId → List ℕ
couple_lists (runnable p) = if p == 20 then 1 ∷ [] else []
couple_lists sleeping = []
couple_lists zombies = []
couple_lists (waiting r) = []

abbrev couple : Sched
couple = record { tasks = couple_tasks; lists = couple_lists; alarms = []; curr = 1; jiffies = 0 }

abbrev family : Family
family = record {
  sched = couple;
  parent = λ t. some 2;
  exit_code = λ t. 0;
  exit_signal = λ t. 0;
  time_end = λ t. 0;
  notify_next = λ t. none;
}
