-- ===== src/Sched/ClockTests.antt =====
-- Runs of the signals and the timers of kernel/sched.cpp and kernel/signal.cpp, and the theorems
-- at them.
use makarna_x.Base.{
  ℕ, ◌≡◌, ◌≢◌, ◌||◌, refl, ◌⊎◌, true, false, none, some, List, [], ◌∷◌, ◌++◌, ◌==◌, if◌then◌else◌,
  arith, has, Distinct,
}
use makarna_x.Sched.Check.{killed, suspended, mark_handled, check_loop, check_signals}
use makarna_x.Sched.Settled.{Settles, Suspends, check_signals-Settles}
use makarna_x.Sched.State.{
  running, interruptible, uninterruptible, stopped, not_runnable, ListId, runnable, waiting,
  sleeping, zombies, pos, address, sig_dfl, Task, Sched,
}
use makarna_x.Sched.Signal.{send_signal}
use makarna_x.Sched.Timer.{check_sleep_list, sys_alarm, seconds_now}
use makarna_x.Sched.Consistent.{Consistent}
use makarna_x.Sched.Runnable.{IsCurrent}
use makarna_x.Sched.Delivery.{send_signal-Consistent}
use makarna_x.Sched.Due.{not_due, due, of_priority, check_sleep_list_lem}
use makarna_x.Sched.Clock.{sys_alarm_stops}
use makarna_x.Sched.Tests.{a_task}

-- Task 1 runs. The tasks 2 and 3 sleep until the seconds 50 and 70, with alarms at 60 and 80 and
-- handlers of their own for SIGCHLD. The clock is at second 10.
abbrev sleepers_tasks : ℕ → Task
sleepers_tasks t =
    if t == 1
    then a_task 1 running (some (runnable 20))
    else (if t == 2
        then record (a_task 2 interruptible (some sleeping)) {
          on_alarm = true;
          alarm = 60;
          sleep = 50;
          action = λ n. address 5;
        }
        else (if t == 3
            then record (a_task 3 interruptible (some sleeping)) {
              on_alarm = true;
              alarm = 80;
              sleep = 70;
              action = λ n. address 5;
            }
            else a_task t not_runnable none))

abbrev sleepers_lists : ListId → List ℕ
sleepers_lists (runnable p) = if p == 20 then 1 ∷ [] else []
sleepers_lists sleeping = 2 ∷ 3 ∷ []
sleepers_lists zombies = []
sleepers_lists (waiting r) = []

abbrev sleepers : Sched
sleepers = record {
  tasks = sleepers_tasks;
  lists = sleepers_lists;
  alarms = 2 ∷ 3 ∷ [];
  curr = 1;
  jiffies = 1000;
}

sleepers-listed :
    (q : ListId) (t : ℕ) → has t (sleepers.lists q) ≡ true → (sleepers.tasks t).on ≡ some q
sleepers-listed (runnable p) t h = ground arith
sleepers-listed sleeping t h = ground arith
sleepers-listed zombies t h = ground arith
sleepers-listed (waiting r) t h = ground arith

sleepers-on_listed :
    (q : ListId) (t : ℕ) → (sleepers.tasks t).on ≡ some q → has t (sleepers.lists q) ≡ true
sleepers-on_listed (runnable p) t h = ground arith
sleepers-on_listed sleeping t h = ground arith
sleepers-on_listed zombies t h = ground arith
sleepers-on_listed (waiting r) t h = ground arith

sleepers-Distinct : (q : ListId) → Distinct (sleepers.lists q)
sleepers-Distinct (runnable p) = ground arith
sleepers-Distinct sleeping = (refl, (refl, tt))
sleepers-Distinct zombies = tt
sleepers-Distinct (waiting r) = tt

sleepers-Consistent : Consistent sleepers
sleepers-Consistent = record {
  listed = sleepers-listed;
  on_listed = sleepers-on_listed;
  distinct = sleepers-Distinct;
  placed = λ t p e. ground arith;
}

sleepers-IsCurrent : IsCurrent sleepers
sleepers-IsCurrent = record { queued = refl; active = refl }

send_signal-Consistent_example :
    ((s' : Sched) × (send_signal sleepers 14 4 ≡ some (pos 0, s')) × Consistent s')
    ⊎ ((send_signal sleepers 14 4 ≡ none)
        × ((sleepers.tasks 4).pending 14 ≡ false)
        × (((sleepers.tasks 4).state ≡ uninterruptible)
            ⊎ ((sleepers.tasks 4).state ≡ stopped)
            ⊎ ((sleepers.tasks 4).state ≡ not_runnable)))
send_signal-Consistent_example =
    send_signal-Consistent sleepers 14 4 sleepers-Consistent (omega arith)

check_sleep_list_lem_example :
    (s' : Sched) × (check_sleep_list sleepers ≡ some s')
    × (s'.lists sleeping ≡ not_due sleepers.tasks (seconds_now sleepers) (2 ∷ 3 ∷ []))
    × ((p : ℕ)
        → s'.lists (runnable p)
          ≡ sleepers.lists (runnable p)
            ++ of_priority sleepers.tasks p
                (due sleepers.tasks (seconds_now sleepers) (2 ∷ 3 ∷ [])))
    × Consistent s'
check_sleep_list_lem_example = check_sleep_list_lem sleepers sleepers-Consistent

sys_alarm_stops_example : sys_alarm sleepers 10 ≡ none
sys_alarm_stops_example =
    sys_alarm_stops sleepers 2 3 [] 10 (omega arith) refl refl (omega arith) (omega arith)
      (omega arith) (omega arith)

-- The task 2 runs, with a signal for its handler, SIGCHLD for the default one, and SIGKILL.
abbrev signalled : Sched
signalled = record sleepers {
  curr = 2;
  tasks = λ t. record (sleepers_tasks t) {
    sig = λ n. n == 9 || n == 12 || n == 17;
    action = λ n. if n == 12 then address 5 else sig_dfl;
  };
}

signalled_run :
    check_loop 31 (signalled.tasks 2)
    ≡ record { handled = (12, 5) ∷ []; end = killed 9; task = mark_handled 12 (signalled.tasks 2) }
unfolding check_loop
signalled_run = refl

check_signals-Settles_example :
    let r = check_loop 31 (signalled.tasks 2) in
    ((check_signals signalled ≡ none) × Suspends r.task)
    ⊎ ((check_signals signalled ≡ some r)
        × Settles 31 r.task r.end
        × ((n : ℕ) → r.end ≢ suspended n))
check_signals-Settles_example = check_signals-Settles signalled
