-- ===== src/Tasks/Freed.antt =====
-- What `task_free` (Tasks/Free) does to the lists of the tasks, as `do_exit` (Sched/Exit) takes it.
use makarna_x.Base.{ℕ, Bool, true, false, ◌+◌, ◌==◌, ◌≡◌, refl, sym, ap, ◌∙◌, Option, none, some}
use makarna_x.DenemeFs.Store.{Outcome, done, fails, stop}
use makarna_x.Flow.{continue, assert, modify, ◌>>◌}
use makarna_x.Sched.State.{Sched}
use makarna_x.Sched.Exit.{leave_list, bury}
use makarna_x.Shm.Calls.{shm_task_free}
use makarna_x.Spaces.TaskVm.{task_free_vm_user}
use makarna_x.Vfs.Fd.{task_curr_free_files}
use makarna_x.Tasks.State.{Kernel, K, in_shm, in_vm, in_files, in_sched, sched_end}
use makarna_x.Tasks.Free.{count_brk, task_free}

-- The scheduler when a call returns, by a condition on it.
abbrev Leads : (Sched → Type 0) → Outcome (Unit {0}) × Kernel → Type 0
Leads P (done a, s) = P s.sched
Leads P (fails n, s) = Unit {0}
Leads P (stop, s) = Unit {0}

-- A step that leaves the scheduler does not matter.
Leads-skip :
    (P : Sched → Type 0) (m k : K (Unit {0})) (s : Kernel)
    → (m s).1.sched ≡ s.sched
    → ((u : Kernel) → u.sched ≡ s.sched → Leads P (k u))
    → Leads P ((m >> k) s)
Leads-skip P m k s same next = by_outcome (m s).0 (m s).1 same
  where
    by_outcome :
        (o : Outcome (Unit {0})) (u : Kernel) → u.sched ≡ s.sched → Leads P (continue (λ x. k) o u)
    by_outcome (done a) u e = next u e
    by_outcome (fails n) u e = tt
    by_outcome stop u e = tt

assert_sched : (b : Bool) (s : Kernel) → (assert b s).1.sched ≡ s.sched
assert_sched true s = refl
assert_sched false s = refl

-- The task has left its list and gone to the zombies, in the scheduler that was `q`.
abbrev pub Buries : ℕ → Sched → Sched → Type 0
Buries t q q' = (q1 : Sched) × (leave_list t q ≡ some q1) × (q' ≡ bury t q1)

last_steps :
    (t : ℕ) (q : Sched) (s : Kernel)
    → s.sched ≡ q
    → Leads
        (Buries t q)
        ((in_sched (leave_list t) >> modify (λ x. record x { sched = bury t x.sched })) s)
last_steps t q s e = by_result (leave_list t s.sched) refl
  where
    by_result :
        (o : Option Sched)
        → leave_list t s.sched ≡ o
        → Leads (Buries t q) (
            continue
              (λ (x : Unit {0}). modify (λ x. record x { sched = bury t x.sched }))
              (sched_end s o).0
              (sched_end s o).1)
    by_result none h = tt
    by_result (some q1) h = (q1, ap (leave_list t) (sym e) ∙ h, refl)

-- Where `task_free` returns, all that it has done to the scheduler is to take the task off its list, and
-- to put it, as a zombie and without an alarm, at the end of the list of zombies: what `do_exit` in
-- Sched/Exit does where its parameter is true.
pub task_free-Buries : (t : ℕ) (s : Kernel) → Leads (Buries t s.sched) (task_free t s)
unfolding task_free
task_free-Buries t s =
    Leads-skip (Buries t s.sched) (assert (t == s.sched.curr)) _ s
      (assert_sched (t == s.sched.curr) s)
      (λ s1 e1. Leads-skip (Buries t s.sched) (in_shm (shm_task_free t)) _ s1 refl (λ s2 e2.
        Leads-skip (Buries t s.sched) (in_files task_curr_free_files) _ s2 refl (λ u e3.
          let c = u.shm.vm.spaces t in
          let counted = c.count_stack + c.count_program + count_brk c == c.info.count_user in
          Leads-skip (Buries t s.sched) (assert counted) _ u (assert_sched counted u) (λ v e4.
            Leads-skip (Buries t s.sched) (in_vm (task_free_vm_user t)) _ v refl (λ w e5.
              let empty = (w.shm.vm.spaces t).info.count_user == 0 in
              Leads-skip (Buries t s.sched) (assert empty) _ w (assert_sched empty w)
                (λ z e6. last_steps t s.sched z (e6 ∙ e5 ∙ e4 ∙ e3 ∙ e2 ∙ e1)))))))
