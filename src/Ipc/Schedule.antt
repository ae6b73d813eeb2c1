-- ===== src/Ipc/Schedule.antt =====
-- `schedule` of kernel/sched.cpp, up to `switch_to_task`, which makes the task found the current one.
use makarna_x.Base.{
  ℕ, ◌≤◌, ◌++◌, ◌≡◌, refl, ◌⊎◌, inl, inr, Option, none, some, List, [], ◌∷◌, arith,
}
use makarna_x.Sched.State.{runnable, sleeping, running, pos, Sched, ◌>>=◌}
use makarna_x.Sched.Queues.{find_runnable_task}
use makarna_x.Sched.Timer.{seconds_now, check_alarm, check_sleep_list, ring}
use makarna_x.Sched.Consistent.{Consistent}
use makarna_x.Sched.Due.{due, of_priority, check_sleep_list_lem}
use makarna_x.Sched.Pick.{EmptyAbove, find_runnable_task_lem}
use makarna_x.Ipc.Semaphore.{System, run_before_switch}

abbrev pub switch_to : System → Option ℕ × Sched → Option System
switch_to s (none, q) = none
switch_to s (some t, q) = some (record s { sched = record q { curr = t } })

unfoldable pub schedule : System → Option System
schedule s = do
  s1 ← run_before_switch s
  q1 ← check_alarm s1.sched
  q2 ← check_sleep_list q1
  found ← find_runnable_task q2
  switch_to s1 found

switched : (q : Sched) (t : ℕ) → Consistent q → Consistent (record q { curr = t })
switched q t c = record {
  listed = c.listed;
  on_listed = c.on_listed;
  distinct = c.distinct;
  placed = c.placed;
}

nothing_put_off : (s : System) → s.deferred s.sched.curr ≡ none → run_before_switch s ≡ some s
unfolding run_before_switch
nothing_put_off s d = ground arith

no_alarm : (s : Sched) → s.alarms ≡ [] → check_alarm s ≡ some s
unfolding check_alarm ring
no_alarm s a = rw a refl

-- The steps of `schedule`, each with its result.
schedule_steps :
    (s s1 : System) (q1 q2 : Sched) (found : Option ℕ × Sched)
    → run_before_switch s ≡ some s1
    → check_alarm s1.sched ≡ some q1
    → check_sleep_list q1 ≡ some q2
    → find_runnable_task q2 ≡ some found
    → schedule s ≡ switch_to s1 found
unfolding schedule
schedule_steps s s1 q1 q2 found a b c d = rw (a, b, c, d) refl

-- Where no wakeup is put off and no alarm is set, `schedule` switches to the task that stands first
-- in the highest queue from 1 to 40 that holds one, once the sleepers that are due, up to the first one
-- that is not, have been put at the ends of the queues of their priorities.
-- That task is running and has its priority as its time, and the lists stay consistent. It stops the
-- kernel only where all these queues are empty.
pub schedule_lem :
    (s : System)
    → Consistent s.sched
    → s.deferred s.sched.curr ≡ none
    → s.sched.alarms ≡ []
    → (q : Sched) × (check_sleep_list s.sched ≡ some q)
      × ((p : ℕ)
          → q.lists (runnable p)
            ≡ s.sched.lists (runnable p)
              ++ of_priority s.sched.tasks p
                  (due s.sched.tasks (seconds_now s.sched) (s.sched.lists sleeping)))
      × (((schedule s ≡ none) × EmptyAbove 0 40 q)
          ⊎ ((p : ℕ) × (t : ℕ) × (ts : List ℕ) × (s' : System) × (schedule s ≡ some s')
              × (1 ≤ p)
              × (p ≤ 40)
              × (q.lists (runnable p) ≡ t ∷ ts)
              × EmptyAbove p 40 q
              × (s'.sched.curr ≡ t)
              × ((s'.sched.tasks t).counter ≡ pos p)
              × ((s'.sched.tasks t).state ≡ running)
              × Consistent s'.sched))
schedule_lem s c d a =
    let (q, slept, left, queued, kept) = check_sleep_list_lem s.sched c in
    elim (find_runnable_task_lem q kept) [
      | inl (above, none_found) ↦ (
        q,
        slept,
        queued,
        inl (
          schedule_steps s s s.sched q (none, q) (nothing_put_off s d) (no_alarm s.sched a) slept
              none_found,
          above,
        ),
      )
      | inr (p, t, ts, q', l, low, le, above, picked, lists, counter, state, kept') ↦ (
        q,
        slept,
        queued,
        inr (
          p,
          t,
          ts,
          record s { sched = record q' { curr = t } },
          schedule_steps s s s.sched q (some t, q') (nothing_put_off s d) (no_alarm s.sched a) slept
              picked,
          low,
          le,
          l,
          above,
          refl,
          counter,
          state,
          switched q' t kept',
        ),
      )
    ]
