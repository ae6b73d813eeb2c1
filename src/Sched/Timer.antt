-- ===== src/Sched/Timer.antt =====
-- The clock of kernel/sched.cpp: `do_timer`, and the lists of the tasks that wait for a time. The
-- parts of `sys_sleep` and `do_timer` stand for the code before their call of `schedule`. The ASSERT of
-- `do_timer` on the registers of the trap is not modelled.
use makarna_x.Base.{
  ℕ, ◌+◌, ◌/◌, ◌%◌, ◌^◌, Bool, true, false, Option, none, some, List, [], ◌∷◌, ◌++◌, ◌==◌, ltb,
  if◌then◌else◌, without,
}
use makarna_x.Sched.State.{
  interruptible, sleeping, pred_ℤ, is_negative, Sched, put_task, is_free, ◌>>=◌, ◌>>◌, assert,
  insert_between, push_back, erase, or_same,
}
use makarna_x.Sched.Queues.{add_to_runnable_list, remove_from_runnable_list}
use makarna_x.Sched.Signal.{send_signal, sigalrm}

-- jiffies_to_seconds(), with HZ = 100
abbrev pub seconds_now : Sched → ℕ
seconds_now s = s.jiffies / 100

-- `do_timer` for a trap from user mode or not: whether `schedule` is called, and the state.
unfoldable pub do_timer : Sched → Bool → Bool × Sched
do_timer s user =
    let task = s.tasks s.curr in
    let counter = pred_ℤ task.counter in
    (
      is_negative counter,
      record (put_task s s.curr (record task {
        counter = counter;
        time_user = if user then (task.time_user + 1) % 2 ^ 32 else task.time_user;
        time_kernel = if user then task.time_kernel else (task.time_kernel + 1) % 2 ^ 32;
      })) { jiffies = (s.jiffies + 1) % 2 ^ 32 },
    )

-- task_alarm_list.insert at a place: `none` is `error()`.
unfoldable pub alarm_insert : Sched → List ℕ → List ℕ → ℕ → Option Sched
alarm_insert s before behind t =
    if (s.tasks t).on_alarm
    then none
    else some (record (put_task s t (record (s.tasks t) { on_alarm = true })) {
      alarms = before ++ t ∷ behind;
    })

unfoldable pub alarm_erase : Sched → ℕ → Sched
alarm_erase s t = record (put_task s t (record (s.tasks t) { on_alarm = false })) {
  alarms = without t s.alarms;
}

-- The loop of `sys_alarm` over the tasks of the list, those before and those left; a second place
-- that fits fails the ASSERT on the result of the insertion.
unfoldable pub alarm_loop : ℕ → Sched → List ℕ → List ℕ → Option Sched
alarm_loop seconds s before [] = some s
alarm_loop seconds s before (x ∷ xs) = do
  s' ← if ltb seconds (s.tasks x).alarm then alarm_insert s before (x ∷ xs) s.curr else some s
  alarm_loop seconds s' (before ++ x ∷ []) xs

abbrev pub cancelled : Sched → Sched
cancelled s = if (s.tasks s.curr).on_alarm then alarm_erase s s.curr else s

unfoldable pub sys_alarm : Sched → ℕ → Option Sched
unfolding alarm_erase
sys_alarm s seconds =
    let s1 = cancelled s in
    let s2 =
      put_task s1 s.curr
        (record (s1.tasks s.curr) { alarm = (seconds_now s + seconds) % 2 ^ 32 }) in
    if seconds == 0 then some s1 else (do
      s3 ← alarm_loop seconds s2 [] s2.alarms
      some (or_same s3 (alarm_insert s3 s3.alarms [] s.curr)))

-- The loop of `check_alarm`.
unfoldable pub ring : ℕ → Sched → List ℕ → Option Sched
ring now s [] = some s
ring now s (t ∷ ts) =
    if ltb now (s.tasks t).alarm
    then some s
    else (do (r, s1) ← send_signal s sigalrm t; ring now (alarm_erase s1 t) ts)

unfoldable pub check_alarm : Sched → Option Sched
unfolding ring
check_alarm s = ring (seconds_now s) s s.alarms

-- The body of the loop of `check_sleep_list`, after the task has been taken out of the list.
unfoldable pub wake_slept : Sched → ℕ → Option Sched
wake_slept s t = do
  assert (is_free (s.tasks t).on)
  add_to_runnable_list (put_task s t (record (s.tasks t) { sleep = 0 })) t

-- The loop of `check_sleep_list`.
unfoldable pub wake_due : ℕ → Sched → List ℕ → Option Sched
wake_due now s [] = some s
wake_due now s (t ∷ ts) =
    if ltb now (s.tasks t).sleep
    then some s
    else (do s' ← wake_slept (or_same s (erase s sleeping t)) t; wake_due now s' ts)

unfoldable pub check_sleep_list : Sched → Option Sched
unfolding wake_due
check_sleep_list s = wake_due (seconds_now s) s (s.lists sleeping)

-- The loop of `sys_sleep`: once the task stands in the list, a further insertion is an `error()`
-- that nobody looks at, so the places before it are those of the list without the task.
unfoldable pub sleep_loop : ℕ → Sched → List ℕ → List ℕ → Sched
sleep_loop seconds s before [] = s
sleep_loop seconds s before (x ∷ xs) =
    let s' =
      if ltb seconds (s.tasks x).sleep
      then or_same s (insert_between s sleeping before (x ∷ xs) s.curr)
      else s in
    sleep_loop seconds s' (before ++ x ∷ []) xs

-- `sys_sleep` up to its call of `schedule`.
unfoldable pub sys_sleep : Sched → ℕ → Option Sched
unfolding sleep_loop
sys_sleep s seconds = if seconds == 0 then some s else (do
  s1 ← remove_from_runnable_list s s.curr
  let s2 = sleep_loop seconds s1 [] (s1.lists sleeping)
  let s3 = or_same s2 (push_back s2 sleeping s.curr)
  let task = s3.tasks s.curr
  some (
      put_task s3 s.curr
        (record task { state = interruptible; sleep = (seconds_now s + seconds) % 2 ^ 32 })))

-- `sys_pause` up to its call of `schedule`, where at most one signal is being handled.
unfoldable pub sys_pause : Sched → Option Sched
sys_pause s = do
  s1 ← remove_from_runnable_list s s.curr
  some (put_task s1 s.curr (record (s1.tasks s.curr) { state = interruptible }))
