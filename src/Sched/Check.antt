-- ===== src/Sched/Check.antt =====
-- `check_signals` of kernel/signal.cpp, up to `do_exit` or to the switch to a handler. The copies of the
-- kernel stack that `push_stack` makes are not part of it, nor is what runs when `pop_stack` comes
-- back. SIG_IGN has no case in the code, and is the address 1.
use makarna_x.Base.{
  ℕ, zero, suc, Bool, true, false, Option, some, ◌&&◌, ◌||◌, List, [], ◌∷◌, ◌==◌, leb,
  if◌then◌else◌,
}
use makarna_x.Sched.State.{
  Task, Handler, sig_dfl, sig_ign, address, stopped, Sched, put_task, ◌>>=◌,
}
use makarna_x.Sched.Queues.{remove_from_runnable_list}
use makarna_x.Sched.Signal.{is_ignored, is_default}

-- SIG_DS & _S(sig): SIGSTOP, SIGTSTP, SIGTTIN and SIGTTOU.
abbrev pub is_stopping : ℕ → Bool
is_stopping sig = leb 19 sig && leb sig 22

-- task_curr->signal.sig != 0, for the bits below `k`.
abbrev pub has_signal : ℕ → (ℕ → Bool) → Bool
has_signal zero sig = false
has_signal (suc k) sig = sig k || has_signal k sig

abbrev pub handler_address : Handler → ℕ
handler_address sig_dfl = 0
handler_address sig_ign = 1
handler_address (address a) = a

-- What a round of the loop does with a signal.
pub data Choice : Type 0 where
  leave pass handle suspend kill : Choice

-- The branches for the handler SIG_DFL.
abbrev pub by_default : ℕ → ℕ → Choice
by_default id sig =
    if id == 1 || is_ignored sig then pass else (if is_stopping sig then suspend else kill)

abbrev pub choose : ℕ → Task → Choice
choose sig v =
    if has_signal 32 v.sig
    then (if v.sig sig
        then (if is_default (v.action sig) then by_default v.id sig else handle)
        else pass)
    else leave

-- signal.sig &= ~_S(sig); signal.pending |= _S(sig);
abbrev pub mark_handled : ℕ → Task → Task
mark_handled sig v = record v {
  sig = λ n. if sig == n then false else v.sig n;
  pending = λ n. if sig == n then true else v.pending n;
}

abbrev pub after : Choice → ℕ → Task → Task
after handle sig v = mark_handled sig v
after _ sig v = v

-- How the loop ends. At `suspended` the code behind the loop's test for SIG_DS goes on, at `killed`
-- `do_exit`.
pub data End : Type 0 where
  returns : End
  suspended killed : ℕ → End

-- The signals that handlers get, with their addresses, the last frame first; the end; and the task.
pub record Checked : Type 0 where
  pub handled : List (ℕ × ℕ)
  pub end : End
  pub task : Task

abbrev pub finish : Choice → ℕ → Task → Checked → Checked
finish leave sig v rest = record { handled = []; end = returns; task = v }
finish pass sig v rest = rest
finish handle sig v rest = record rest {
  handled = (sig, handler_address (v.action sig)) ∷ rest.handled;
}
finish suspend sig v rest = record { handled = []; end = suspended sig; task = v }
finish kill sig v rest = record { handled = []; end = killed sig; task = v }

-- The loop from the signal `k` down to 1.
unfoldable pub check_loop : ℕ → Task → Checked
check_loop zero v = record { handled = []; end = returns; task = v }
check_loop (suc k) v =
    finish (choose (suc k) v) (suc k) v (check_loop k (after (choose (suc k) v) (suc k) v))

-- task_curr->state = Task::State_stopped; remove_from_runnable_list(task_curr);
unfoldable pub suspend_current : Sched → Option Sched
suspend_current s =
    remove_from_runnable_list (put_task s s.curr (record (s.tasks s.curr) { state = stopped }))
      s.curr

-- After the loop. What stands behind the removal from the queue of a suspended task is never reached.
abbrev pub leave_loop : Checked → End → Sched → Option Checked
leave_loop r (suspended n) s = do s' ← suspend_current s; some r
leave_loop r returns s = some r
leave_loop r (killed n) s = some r

unfoldable pub check_signals : Sched → Option Checked
unfolding check_loop suspend_current
check_signals s =
    let r = check_loop 31 (s.tasks s.curr) in leave_loop r r.end (put_task s s.curr r.task)
