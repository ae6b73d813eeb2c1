-- ===== src/Tasks/Free.antt =====
-- `task_free` and `free_zombie_tasks` of kernel/task.cpp.
use makarna_x.Base.{ℕ, ◌+◌, ◌-◌, ◌/◌, ◌%◌, ◌^◌, List, [], ◌∷◌, ◌==◌, if◌then◌else◌}
use makarna_x.Memory.Virtual.{round_down, round_up}
use makarna_x.Sched.State.{zombies, not_runnable, put_task, erase}
use makarna_x.Sched.Exit.{leave_list, bury}
use makarna_x.Vfs.Fd.{task_curr_free_files}
use makarna_x.Flow.{pure, ◌>>=◌, ◌>>◌, get, assert, modify}
use makarna_x.Spaces.State.{Space}
use makarna_x.Spaces.TaskVm.{task_delete_vm, task_free_kernel_stack, task_free_vm_user}
use makarna_x.Shm.State.{kfree}
use makarna_x.Shm.Calls.{shm_task_free}
use makarna_x.Tasks.State.{K, in_shm, in_vm, in_files, in_sched}

-- (roundUp(end_brk) - roundDown(start_brk)) / 0x1000
abbrev pub count_brk : Space → ℕ
count_brk s = (round_up s.end_brk + 2 ^ 32 - round_down s.start_brk) % 2 ^ 32 / 4096

unfoldable pub task_free : ℕ → K (Unit {0})
unfolding task_free_vm_user shm_task_free task_curr_free_files
task_free t = do
  s ← get
  assert (t == s.sched.curr)
  in_shm (shm_task_free t)
  in_files task_curr_free_files
  u ← get
  let c = u.shm.vm.spaces t
  assert (c.count_stack + c.count_program + count_brk c == c.info.count_user)
  in_vm (task_free_vm_user t)
  w ← get
  assert ((w.shm.vm.spaces t).info.count_user == 0)
  in_sched (leave_list t)
  modify λ x. record x { sched = bury t x.sched }

-- The loop of `free_zombie_tasks`: each round takes a task off the list, and the loop returns at the running one.
unfoldable pub free_zombies : List ℕ → K (Unit {0})
unfolding task_free_kernel_stack task_delete_vm
free_zombies [] = pure tt
free_zombies (t ∷ rest) = do
  s ← get
  (let next = (do
    in_sched (λ q. erase q zombies t)
    in_vm (task_free_kernel_stack t)
    in_vm (task_delete_vm s.sched.curr t)
    modify λ x. record x {
      sched = put_task x.sched t (record (x.sched.tasks t) { state = not_runnable });
    }
    in_shm (kfree t)
    free_zombies rest) in
      if t == s.sched.curr then pure tt else next)

unfoldable pub free_zombie_tasks : K (Unit {0})
unfolding free_zombies
free_zombie_tasks s = free_zombies (s.sched.lists zombies) s
