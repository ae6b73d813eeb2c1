-- ===== src/Tasks/Fork.antt =====
-- `do_fork` of kernel/task.cpp for the parent: up to the machine code that makes it return a second
-- time, as the child. In this file the running task has its open files in `files`, and those of the child
-- are made in `fs`.
use makarna_x.Base.{ℕ, Option, none, some, [], ◌∷◌, ◌++◌, ◌==◌, if◌then◌else◌}
use makarna_x.DenemeFs.Store.{done}
use makarna_x.Hash.Table.{put}
use makarna_x.Sched.State.{put_task}
use makarna_x.Sched.Queues.{add_to_runnable_list}
use makarna_x.Vfs.Fd.{TaskFs, fs_fork}
use makarna_x.Memory.Pages.{mem_free, inc32}
use makarna_x.Flow.{Call, pure, fail, ◌>>=◌, ◌>>◌, get, assert, modify, branch, must}
use makarna_x.Spaces.State.{Vm, put_space}
use makarna_x.Spaces.Segments.{copy_pages}
use makarna_x.Spaces.TaskVm.{
  task_setup_vm, task_delete_vm, task_free_kernel_stack, task_free_vm_user,
}
use makarna_x.Shm.State.{Shm, kmalloc, kfree}
use makarna_x.Shm.Calls.{shm_fork}
use makarna_x.Tasks.State.{K, in_shm, in_vm, in_files, in_sched, copy_task}

-- The user's area without that of the shared memory, in two calls.
unfoldable pub copy_user : ℕ → ℕ → Call Vm (Unit {0})
copy_user t curr = do
  v ← get
  let l = (v.spaces curr).info.layout
  copy_pages t curr l.user_base v.areas.shared_base
  copy_pages t curr v.areas.shared_top l.user_top

abbrev pub copy_counts : ℕ → ℕ → Vm → Vm
copy_counts t curr v =
    let c = v.spaces curr in
    put_space v t (record (v.spaces t) {
      count_program = c.count_program;
      count_stack = c.count_stack;
      start_brk = c.start_brk;
      end_brk = c.end_brk;
    })

-- `ipc_fork`
abbrev pub ipc_fork : ℕ → Call Shm (Unit {0})
ipc_fork = shm_fork

-- `set_task_id`, with the ASSERT on `put`.
abbrev pub put_task_id : ℕ → K (Unit {0})
put_task_id t s = ((put t s.task_id_ht).0, record s { task_id_ht = (put t s.task_id_ht).1 })

unfoldable pub set_task_id : ℕ → K (Unit {0})
set_task_id t = do
  modify λ s. record s {
    sched = put_task s.sched t (record (s.sched.tasks t) { id = s.next_task_id });
    task_id_ht = record s.task_id_ht {
      id = λ u. if t == u then s.next_task_id else s.task_id_ht.id u;
    };
    next_task_id = inc32 s.next_task_id;
  }
  must (put_task_id t)

-- From the registers of the child on.
unfoldable pub start_child : ℕ → K ℕ
unfolding set_task_id add_to_runnable_list
start_child t = do
  modify λ s. record s {
    time_start = λ u. if t == u then s.sched.jiffies else s.time_start u;
    childs = λ u. if s.sched.curr == u then s.childs u ++ t ∷ [] else s.childs u;
  }
  set_task_id t
  in_sched (λ q. add_to_runnable_list q t)
  s ← get
  pure (s.sched.tasks t).id

-- ASSERT(mem_free() == before)
abbrev pub assert_mem : ℕ → K (Unit {0})
assert_mem before s = assert (mem_free s.shm.vm.memory == before) s

-- From bad_fork_setup_vm on.
unfoldable pub bad_fork_setup_vm : ℕ → ℕ → K ℕ
unfolding task_delete_vm
bad_fork_setup_vm t before = do
  s ← get
  in_vm (task_delete_vm s.sched.curr t)
  assert_mem before
  in_shm (kfree t)
  fail 1

-- From bad_fork_copy_vm_user on; the labels for the ipc and for the files add nothing.
unfoldable pub bad_fork_copy_vm_user : ℕ → ℕ → ℕ → K ℕ
unfolding task_free_vm_user bad_fork_setup_vm
bad_fork_copy_vm_user t before_copy before_setup = do
  in_vm (task_free_vm_user t)
  assert_mem before_copy
  bad_fork_setup_vm t before_setup

-- From bad_fork_copy_kernel_stack on.
unfoldable pub bad_fork_copy_kernel_stack : ℕ → ℕ → ℕ → ℕ → K ℕ
unfolding task_free_kernel_stack bad_fork_copy_vm_user
bad_fork_copy_kernel_stack t before_stack before_copy before_setup = do
  in_vm (task_free_kernel_stack t)
  assert_mem before_stack
  bad_fork_copy_vm_user t before_copy before_setup

abbrev pub free_now : K ℕ
free_now s = (done (mem_free s.shm.vm.memory), s)

abbrev pub put_fs : ℕ → TaskFs → K (Unit {0})
put_fs t f = modify λ s. record s { fs = λ u. if t == u then f else s.fs u }

-- `do_fork` from the copy of the kernel stack on.
abbrev pub fork_stack : ℕ → ℕ → ℕ → K ℕ
fork_stack t before_setup before_copy = do
  before_stack ← free_now
  s ← get
  branch
      (in_vm (
        copy_pages t s.sched.curr s.shm.vm.areas.stack_base
          (s.shm.vm.spaces s.sched.curr).info.layout.kernel_top))
      (λ u. start_child t) (λ n. bad_fork_copy_kernel_stack t before_stack before_copy before_setup)

-- `do_fork` from `ipc_fork` on.
abbrev pub fork_parts : ℕ → ℕ → ℕ → K ℕ
fork_parts t before_setup before_copy =
    branch (in_shm (ipc_fork t))
      (λ u. do
        s ← get
        branch (in_files (fs_fork (s.fs t).fds))
            (λ f. do put_fs t f; fork_stack t before_setup before_copy)
            (λ n. bad_fork_copy_vm_user t before_copy before_setup))
      (λ n. bad_fork_copy_vm_user t before_copy before_setup)

-- `do_fork` from the copy of the user's area on.
abbrev pub fork_user : ℕ → ℕ → K ℕ
fork_user t before_setup = do
  before_copy ← free_now
  s ← get
  branch (in_vm (copy_user t s.sched.curr))
      (λ u. do in_vm (modify (copy_counts t s.sched.curr)); fork_parts t before_setup before_copy)
      (λ n. bad_fork_copy_vm_user t before_copy before_setup)

abbrev pub fork_task : Option ℕ → K ℕ
fork_task none = fail 1
fork_task (some t) = do
  modify (copy_task t)
  before_setup ← free_now
  s ← get
  branch (in_vm (task_setup_vm t s.sched.curr)) (λ u. fork_user t before_setup)
      (λ n. bad_fork_setup_vm t before_setup)

-- `do_fork`, with the id of the child.
unfoldable pub do_fork : K ℕ
unfolding task_setup_vm copy_user shm_fork fs_fork start_child bad_fork_setup_vm
    bad_fork_copy_vm_user bad_fork_copy_kernel_stack
do_fork = in_shm kmalloc >>= fork_task
