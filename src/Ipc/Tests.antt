-- ===== src/Ipc/Tests.antt =====
-- Runs of kernel/ipc/semaphore.cpp on the tasks of Sched/Tests.antt, and the theorems at them.
use makarna_x.Base.{ℕ, ◌≤◌, ◌≡◌, refl, false, none, some, [], ◌∷◌, ◌++◌, if◌then◌else◌}
use makarna_x.Sched.State.{pos, running, waiting, Sched}
use makarna_x.Sched.Consistent.{Consistent}
use makarna_x.Sched.Tests.{three, three-Consistent}
use makarna_x.Ipc.Semaphore.{System, sys_semwait, sys_sempost, run_before_switch}
use makarna_x.Base.{◌⊎◌, List}
use makarna_x.Sched.State.{ListId, list_eq, runnable, sleeping}
use makarna_x.Sched.Timer.{seconds_now, check_sleep_list}
use makarna_x.Sched.Due.{due, of_priority}
use makarna_x.Sched.Pick.{EmptyAbove}
use makarna_x.Ipc.Schedule.{schedule, schedule_lem}
use makarna_x.Ipc.SemaphoreLaws.{post_switch, post_wait_switch_stops}

-- Every semaphore has the value `n`, and no wakeup is put off.
abbrev with_value : ℕ → System
with_value n = record { sched = three; value = λ m. pos n; deferred = λ t. none }

post_switch_example :
    (s1 : System) × (s2 : System) × (sys_sempost (with_value 0) 7 ≡ some s1)
    × (run_before_switch s1 ≡ some s2)
    × (s2.value 7 ≡ pos 0)
    × ((r : ListId)
        → s2.sched.lists r ≡ (
            if list_eq (waiting 7) r
            then 3 ∷ []
            else (if list_eq (runnable (three.tasks 2).priority) r
                then three.lists (runnable (three.tasks 2).priority) ++ 2 ∷ []
                else three.lists r)))
    × ((s2.sched.tasks 2).state ≡ running)
    × Consistent s2.sched
post_switch_example = post_switch (with_value 0) 7 2 (3 ∷ []) three-Consistent refl refl refl

post_wait_switch_stops_example :
    (s1 : System) × (s2 : System) × (sys_sempost (with_value 0) 7 ≡ some s1)
    × (sys_semwait s1 7 ≡ some (false, s2))
    × (run_before_switch s2 ≡ none)
post_wait_switch_stops_example = post_wait_switch_stops (with_value 0) 7 2 2 (3 ∷ []) refl refl refl

schedule_lem_example :
    (q : Sched) × (check_sleep_list three ≡ some q)
    × ((p : ℕ)
        → q.lists (runnable p)
          ≡ three.lists (runnable p)
            ++ of_priority three.tasks p
                (due three.tasks (seconds_now three) (three.lists sleeping)))
    × (((schedule (with_value 0) ≡ none) × EmptyAbove 0 40 q)
        ⊎ ((p : ℕ) × (t : ℕ) × (ts : List ℕ) × (s' : System) × (schedule (with_value 0) ≡ some s')
            × (1 ≤ p)
            × (p ≤ 40)
            × (q.lists (runnable p) ≡ t ∷ ts)
            × EmptyAbove p 40 q
            × (s'.sched.curr ≡ t)
            × ((s'.sched.tasks t).counter ≡ pos p)
            × ((s'.sched.tasks t).state ≡ running)
            × Consistent s'.sched))
schedule_lem_example = schedule_lem (with_value 0) three-Consistent refl refl
