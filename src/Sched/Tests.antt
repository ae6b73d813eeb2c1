-- ===== src/Sched/Tests.antt =====
-- Runs of kernel/sched.cpp on three tasks, and the theorems at them.
use makarna_x.Base.{
  ℕ, ◌≤◌, ◌≡◌, refl, ◌⊎◌, true, false, Option, none, some, List, [], ◌∷◌, ◌++◌, ◌==◌, if◌then◌else◌,
  arith, has, Distinct,
}
use makarna_x.Sched.State.{
  TaskState, running, uninterruptible, not_runnable, ListId, runnable, waiting, sleeping, zombies,
  list_eq, pos, sig_dfl, Task, Sched,
}
use makarna_x.Sched.Queues.{find_runnable_task}
use makarna_x.Sched.Consistent.{Consistent}
use makarna_x.Sched.Runnable.{IsCurrent}
use makarna_x.Sched.Pick.{EmptyAbove, find_runnable_task_lem}

abbrev pub a_task : ℕ → TaskState → Option ListId → Task
a_task id state on = record {
  id = id;
  state = state;
  priority = 20;
  counter = pos 3;
  on = on;
  on_alarm = false;
  alarm = 0;
  sleep = 0;
  waiting_child = false;
  sig = λ n. false;
  pending = λ n. false;
  action = λ n. sig_dfl;
  time_user = 0;
  time_kernel = 0;
}

-- Task 1 runs, the tasks 2 and 3 wait for the resource 7, and every other task is on no list.
abbrev pub three_tasks : ℕ → Task
three_tasks t =
    if t == 1
    then a_task 1 running (some (runnable 20))
    else (if t == 2
        then a_task 2 uninterruptible (some (waiting 7))
        else (if t == 3
            then a_task 3 uninterruptible (some (waiting 7))
            else a_task t not_runnable none))

abbrev pub three_lists : ListId → List ℕ
three_lists (runnable p) = if p == 20 then 1 ∷ [] else []
three_lists sleeping = []
three_lists zombies = []
three_lists (waiting r) = if r == 7 then 2 ∷ 3 ∷ [] else []

abbrev pub three : Sched
three = record { tasks = three_tasks; lists = three_lists; alarms = []; curr = 1; jiffies = 0 }

three-listed : (q : ListId) (t : ℕ) → has t (three.lists q) ≡ true → (three.tasks t).on ≡ some q
three-listed (runnable p) t h = ground arith
three-listed sleeping t h = ground arith
three-listed zombies t h = ground arith
three-listed (waiting r) t h = ground arith

three-on_listed : (q : ListId) (t : ℕ) → (three.tasks t).on ≡ some q → has t (three.lists q) ≡ true
three-on_listed (runnable p) t h = ground arith
three-on_listed sleeping t h = ground arith
three-on_listed zombies t h = ground arith
three-on_listed (waiting r) t h = ground arith

three-Distinct : (q : ListId) → Distinct (three.lists q)
three-Distinct (runnable p) = ground arith
three-Distinct sleeping = tt
three-Distinct zombies = tt
three-Distinct (waiting r) = ground arith

pub three-Consistent : Consistent three
three-Consistent = record {
  listed = three-listed;
  on_listed = three-on_listed;
  distinct = three-Distinct;
  placed = λ t p e. ground arith;
}

pub three-IsCurrent : IsCurrent three
three-IsCurrent = record { queued = refl; active = refl }

find_runnable_task_lem_example :
    (EmptyAbove 0 40 three × (find_runnable_task three ≡ some (none, three)))
    ⊎ ((p : ℕ) × (t : ℕ) × (ts : List ℕ) × (s' : Sched) × (three.lists (runnable p) ≡ t ∷ ts)
        × (1 ≤ p)
        × (p ≤ 40)
        × EmptyAbove p 40 three
        × (find_runnable_task three ≡ some (some t, s'))
        × ((r : ListId)
            → s'.lists r ≡ (if list_eq (runnable p) r then ts ++ t ∷ [] else three.lists r))
        × ((s'.tasks t).counter ≡ pos p)
        × ((s'.tasks t).state ≡ running)
        × Consistent s')
find_runnable_task_lem_example = find_runnable_task_lem three three-Consistent
