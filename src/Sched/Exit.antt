-- ===== src/Sched/Exit.antt =====
-- `notify_parent`, `do_exit` and `sys_wait` of kernel/task_exit.cpp, with what `task_free` of
-- kernel/task.cpp does to the lists of the tasks. The rest of `task_free`, which gives back memory and
-- files, is in Tasks/Free; here a Boolean says whether that rest returns or fails one of its ASSERTs (Tasks/Freed).
-- `do_exit` stands for the code before its call of `schedule`, and `sys_wait` is cut at its call of
-- `schedule`.
use makarna_x.Base.{ℕ, Bool, without, true, false, not, Option, none, some, ◌==◌, if◌then◌else◌}
use makarna_x.Sched.State.{
  interruptible, zombie, zombies, is_negative, Sched, put_task, ◌>>=◌, ◌>>◌, assert, push_back,
  or_same, erase,
}
use makarna_x.Sched.Queues.{remove_from_runnable_list}
use makarna_x.Sched.Signal.{send_signal, sigchld}

-- The tasks, with the fields `parent`, `exit_code`, `exit_signal`, `time_end` and
-- `wait_notify_next` of each.
pub record Family : Type 0 where
  pub sched : Sched
  pub parent : ℕ → Option ℕ
  pub exit_code : ℕ → ℕ
  pub exit_signal : ℕ → ℕ
  pub time_end : ℕ → ℕ
  pub notify_next : ℕ → Option ℕ

-- The task is put at the head of the parent's list of ended children.
abbrev pub link_child : Family → ℕ → ℕ → Family
link_child f p t = record f {
  notify_next =
      λ u. if p == u then some t else (if t == u then f.notify_next p else f.notify_next u);
}

-- `notify_parent` after the signal has been sent.
abbrev pub tell : Family → ℕ → ℕ → Sched → Family
tell f p t q =
    if (q.tasks p).waiting_child
    then link_child (record f { sched = q }) p t
    else record f { sched = q }

unfoldable pub notify_parent : Family → ℕ → Option Family
notify_parent f t = elim (f.parent t) [
  | none ↦ none
  | some p ↦ do
    assert (not (p == t))
    (r, q) ← send_signal f.sched (f.exit_signal t) p
    assert (not (is_negative r))
    some (tell f p t q)
]

-- The running task as a zombie.
unfoldable pub become_zombie : Sched → Option Sched
become_zombie s = do
  s1 ← remove_from_runnable_list s s.curr
  let s2 = put_task s1 s.curr (record (s1.tasks s.curr) { state = zombie })
  some (or_same s2 (push_back s2 zombies s.curr))

-- t->list_node.__list->erase(...), where the list may not be NULL.
abbrev pub leave_list : ℕ → Sched → Option Sched
leave_list t q = elim (q.tasks t).on [ none ↦ none | some l ↦ erase q l t ]

-- The task as a zombie, and off the list of alarms.
abbrev pub bury : ℕ → Sched → Sched
bury t q =
    let v =
      or_same (put_task q t (record (q.tasks t) { state = zombie }))
        (push_back (put_task q t (record (q.tasks t) { state = zombie })) zombies t) in
    if (v.tasks t).on_alarm
    then record (put_task v t (record (v.tasks t) { on_alarm = false })) {
      alarms = without t v.alarms;
    }
    else v

-- The exit code, the signal and the time of the task that ends.
abbrev pub with_code : Family → Sched → ℕ → Family
with_code f q code = record f {
  sched = q;
  time_end = λ u. if f.sched.curr == u then q.jiffies else f.time_end u;
  exit_code = λ u. if f.sched.curr == u then code else f.exit_code u;
  exit_signal = λ u.
      if f.sched.curr == u
      then (if f.exit_signal u == 0 then sigchld else f.exit_signal u)
      else f.exit_signal u;
}

-- `freed`: `task_free` returns from giving back memory and files.
unfoldable pub do_exit : Family → Bool → ℕ → Option Family
do_exit f freed code = do
  assert (not ((f.sched.tasks f.sched.curr).id == 1))
  q ← become_zombie f.sched
  assert freed
  q1 ← leave_list f.sched.curr q
  notify_parent (with_code f (bury f.sched.curr q1) code) f.sched.curr

-- `sys_wait` of a task that has a child, up to its call of `schedule`.
unfoldable pub wait_start : Sched → Option Sched
wait_start s = do
  s1 ← remove_from_runnable_list s s.curr
  some (
      put_task s1 s.curr (record (s1.tasks s.curr) { state = interruptible; waiting_child = true }))

-- `sys_wait` from there on: the exit code and the id of the child, and the state.
unfoldable pub wait_end : Family → Option ((ℕ × ℕ) × Family)
wait_end f = elim (f.notify_next f.sched.curr) [
  | none ↦ none
  | some t ↦ some (
    (f.exit_code t, (f.sched.tasks t).id),
    record f {
      sched =
          put_task f.sched f.sched.curr
            (record (f.sched.tasks f.sched.curr) { waiting_child = false });
      notify_next = λ u. if f.sched.curr == u then f.notify_next t else f.notify_next u;
    },
  )
]
