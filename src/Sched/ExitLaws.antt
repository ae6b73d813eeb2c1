-- ===== src/Sched/ExitLaws.antt =====
-- A child that ends, and its parent that waits for it.
use makarna_x.Base.{without, ℕ, ◌≡◌, ◌≢◌, true, false, some, [], ◌==◌, if◌then◌else◌, arith}
use makarna_x.Sched.State.{interruptible, zombie, zombies, Sched, put_task}
use makarna_x.Sched.Signal.{sigchld}
use makarna_x.Sched.Consistent.{Consistent, inserted, erased}
use makarna_x.Sched.Runnable.{asleep}
use makarna_x.Sched.Exit.{Family, link_child, with_code, bury}

-- The task has gone to the end of the zombies, and the other tasks are as before.
record IsBuried (q q' : Sched) (t : ℕ) : Type 0 where
  dead : (q'.tasks t).state ≡ zombie
  id : (q'.tasks t).id ≡ (q.tasks t).id
  others : (u : ℕ) → t ≢ u → q'.tasks u ≡ q.tasks u
  curr : q'.curr ≡ q.curr
  kept : Consistent q'

-- The state after `bury`, before the list of alarms.
abbrev among_zombies : Sched → ℕ → Sched
among_zombies q t =
    let s = put_task q t (record (q.tasks t) { state = zombie }) in
    inserted s zombies (q.lists zombies) [] t

abbrev off_alarms : Sched → ℕ → Sched
off_alarms v t =
    if (v.tasks t).on_alarm
    then record (put_task v t (record (v.tasks t) { on_alarm = false })) {
      alarms = without t v.alarms;
    }
    else v

-- The scheduler once the running task is a zombie and `task_free` has taken it off its list and put it back.
unfoldable gone : Sched → Sched
gone s = bury s.curr (erased (asleep s zombies zombie) zombies s.curr)

-- The state after the parent has taken the child `t` from its list.
abbrev pub collected : Family → ℕ → Family
collected f t = record f {
  sched =
      put_task f.sched f.sched.curr (record (f.sched.tasks f.sched.curr) { waiting_child = false });
  notify_next = λ u. if f.sched.curr == u then f.notify_next t else f.notify_next u;
}

collected_lem : (f : Family) (t : ℕ) → (collected f t).notify_next f.sched.curr ≡ f.notify_next t
collected_lem f t = ground arith

-- The parent of the running task sleeps in `sys_wait`, and has no SIGCHLD at work.
pub record IsAwaited (f : Family) (p : ℕ) : Type 0 where
  pub parent : f.parent f.sched.curr ≡ some p
  pub other : p ≢ f.sched.curr
  pub plain : (f.sched.tasks f.sched.curr).id ≢ 1
  pub asleep : (f.sched.tasks p).state ≡ interruptible
  pub waits : (f.sched.tasks p).waiting_child ≡ true
  pub fresh : (f.sched.tasks p).pending sigchld ≡ false
  pub no_signal : f.exit_signal f.sched.curr ≡ 0

-- The family after the child `t` has ended and its parent has been told.
abbrev ended : Family → Sched → Sched → ℕ → ℕ → Family
ended f q q2 p code = link_child (record (with_code f q code) { sched = q2 }) p f.sched.curr

-- The family when the parent runs next.
abbrev resumed : Family → Sched → Sched → ℕ → ℕ → Family
resumed f q q2 p code = record (ended f q q2 p code) { sched = record q2 { curr = p } }
