-- ===== src/Ipc/Semaphore.antt =====
-- kernel/ipc/semaphore.cpp, with __CONF_semaphore_single_cpu_optimization as kernel_conf.h sets it,
-- over the queues of Sched.antt. A semaphore is a number; its `wait_list` is the list `waiting` of
-- that number. `deferred` is a task's `run_before_switch_f`, which is only ever `do_sempost`, with
-- its argument. A call that sleeps is modelled up to the call of `schedule`: the
-- ASSERT that `sys_semwait` makes when the task runs again is not part of the model. The address checks of the user's pointer are
-- not part of the model.
use makarna_x.Base.{
  ℕ, zero, suc, Bool, true, false, Option, none, some, [], ◌∷◌, ◌==◌, if◌then◌else◌, ◌&&◌, not,
}
use makarna_x.Sched.State.{ℤ, pos, negsuc, pred_ℤ, waiting, Sched, ◌>>=◌, ◌>>◌, assert}
use makarna_x.Sched.Queues.{sleep_uninterruptible, wakeup_uninterruptible}

pub record System : Type 0 where
  pub sched : Sched
  pub value : ℕ → ℤ
  pub deferred : ℕ → Option ℕ

abbrev pub set_value : System → ℕ → ℤ → System
set_value s m v = record s { value = λ n. if m == n then v else s.value n }

abbrev pub set_deferred : System → Option ℕ → System
set_deferred s d = record s { deferred = λ t. if s.sched.curr == t then d else s.deferred t }

abbrev pub with_sched : System → Option Sched → Option System
with_sched s none = none
with_sched s (some q) = some (record s { sched = q })

abbrev pub suc_ℤ : ℤ → ℤ
suc_ℤ (pos n) = pos (suc n)
suc_ℤ (negsuc zero) = pos zero
suc_ℤ (negsuc (suc n)) = negsuc n

abbrev pub is_zero : ℤ → Bool
is_zero (pos zero) = true
is_zero (pos (suc n)) = false
is_zero (negsuc n) = false

abbrev pub is_positive : ℤ → Bool
is_positive (pos zero) = false
is_positive (pos (suc n)) = true
is_positive (negsuc n) = false

abbrev pub is_set : Option ℕ → Bool
is_set none = false
is_set (some m) = true

-- `sys_semget` for a new semaphore `m` with the value of the call.
unfoldable pub sys_semget : System → ℕ → ℕ → System
sys_semget s m value =
    let s1 = set_value s m (pos value) in
    record s1 {
      sched = record s.sched {
        lists = λ q. elim q [
          | waiting n ↦ if m == n then [] else s.sched.lists (waiting n)
          | other ↦ s.sched.lists other
        ];
      };
    }

-- The current task's time.
abbrev pub time : System → ℤ
time s = (s.sched.tasks s.sched.curr).counter

-- `sys_semwait`; the flag of the result says that the task sleeps.
unfoldable pub sys_semwait : System → ℕ → Option (Bool × System)
sys_semwait s m =
    if is_positive (s.value m)
    then (if is_set (s.deferred s.sched.curr) && is_zero (time s)
        then (do s' ← with_sched s (sleep_uninterruptible s.sched (waiting m)); some (true, s'))
        else (do
          let s' = set_value s m (pred_ℤ (s.value m))
          assert (is_zero (s'.value m))
          some (false, s')))
    else (do
      assert (not (is_set (s.deferred s.sched.curr)))
      s' ← with_sched s (sleep_uninterruptible s.sched (waiting m))
      some (true, s'))

-- `do_sempost`, which runs before the task is switched away.
unfoldable pub do_sempost : System → ℕ → Option System
do_sempost s m = do
  let s' = set_value s m (pred_ℤ (s.value m))
  assert (is_zero (s'.value m))
  with_sched s' (wakeup_uninterruptible s'.sched (waiting m))

-- The first lines of `schedule` in kernel/sched.cpp.
unfoldable pub run_before_switch : System → Option System
run_before_switch s = elim (s.deferred s.sched.curr) [
  | none ↦ some s
  | some m ↦ do s' ← do_sempost s m; some (set_deferred s' none)
]

-- Near the end of its time the task wakes a waiter at once; before, the wakeup is put off to the
-- next switch.
unfoldable pub wake_or_defer : System → ℕ → Option System
wake_or_defer s m =
    let s' = set_deferred s none in
    if is_positive (time s)
    then some (set_deferred (set_value s m (suc_ℤ (s.value m))) (some m))
    else with_sched s' (wakeup_uninterruptible s'.sched (waiting m))

-- The branch of `sys_sempost` for a semaphore that tasks wait for.
unfoldable pub post_waited : System → ℕ → Option System
unfolding wake_or_defer
post_waited s m = do assert (is_zero (s.value m)); wake_or_defer s m

unfoldable pub sys_sempost : System → ℕ → Option System
unfolding post_waited
sys_sempost s m = elim (s.sched.lists (waiting m)) [
  | [] ↦ some (set_value s m (suc_ℤ (s.value m)))
  | t ∷ ts ↦ post_waited s m
]
