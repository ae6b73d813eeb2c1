-- ===== src/Sched/Signal.antt =====
-- `send_signal` of kernel/signal.cpp. A signal is the number of its bit; the shift by 32 that the
-- test on `sig` lets through is undefined, and stops here. `t` is a task, so never NULL.
use makarna_x.Base.{
  ℕ, Bool, true, false, ◌&&◌, ◌||◌, not, Option, none, some, ◌==◌, ltb, if◌then◌else◌,
}
use makarna_x.Sched.State.{
  running, interruptible, zombie, ℤ, pos, negsuc, Handler, sig_dfl, Sched, put_task, ◌>>=◌, erase,
  or_same,
}
use makarna_x.Sched.Queues.{add_to_runnable_list}

abbrev pub sigchld : ℕ
sigchld = 17

abbrev pub sigcont : ℕ
sigcont = 18

abbrev pub sigurg : ℕ
sigurg = 23

abbrev pub sigalrm : ℕ
sigalrm = 14

-- -EINVAL
abbrev pub einval : ℤ
einval = negsuc 21

-- (SIG_DI | SIG_DC) & _S(sig)
abbrev pub is_ignored : ℕ → Bool
is_ignored sig = sig == sigchld || sig == sigurg || sig == sigcont

abbrev pub is_default : Handler → Bool
is_default sig_dfl = true
is_default _ = false

-- t->signal.sig |= _S(sig)
abbrev pub raise : Sched → ℕ → ℕ → Sched
raise s t sig =
    put_task s t (record (s.tasks t) { sig = λ n. if sig == n then true else (s.tasks t).sig n })

-- The task leaves the list that it stands in, if any.
abbrev pub leave_list : Sched → ℕ → Sched
leave_list s t = elim (s.tasks t).on [ none ↦ s | some q ↦ or_same s (erase s q t) ]

-- The signal is ignored: by the handler of the task that runs, not of the task that is signalled.
abbrev pub is_dropped : Sched → ℕ → ℕ → Bool
is_dropped s t sig =
    is_default ((s.tasks s.curr).action sig) && is_ignored sig && not (s.tasks t).waiting_child

-- The branches of `send_signal` on the state of the task.
unfoldable pub deliver : Sched → ℕ → ℕ → Option (ℤ × Sched)
deliver s sig t = elim (s.tasks t).state [
  | interruptible ↦
      if is_dropped s t sig
      then some (pos 0, s)
      else (do s' ← add_to_runnable_list (leave_list s t) t; some (pos 0, s'))
  | running ↦ some (pos 0, s)
  | zombie ↦ some (pos 0, s)
  | _ ↦ none
]

unfoldable pub send_signal : Sched → ℕ → ℕ → Option (ℤ × Sched)
unfolding deliver
send_signal s sig t =
    if ltb 32 sig
    then some (einval, s)
    else (if sig == 32
        then none
        else (if (s.tasks t).pending sig then some (pos 0, s) else deliver (raise s t sig) sig t))
