-- ===== src/Tasks/State.antt =====
-- The state that `do_fork` works on: the scheduler, the address spaces with the shared memory, the file
-- layer, and the fields of `struct Task` that none of these has. A task is a number, its address in
-- the memory of the kernel.
use makarna_x.Base.{ℕ, false, Option, none, some, List, [], ◌==◌, if◌then◌else◌}
use makarna_x.DenemeFs.Store.{Outcome, done, stop}
use makarna_x.Hash.Table.{IdHashTable}
use makarna_x.Sched.State.{Sched, Task, not_runnable, put_task, pos}
use makarna_x.Vfs.World.{World}
use makarna_x.Vfs.Fd.{TaskFs}
use makarna_x.Spaces.State.{Vm, put_space}
use makarna_x.Shm.State.{Shm, new_node}
use makarna_x.Flow.{Call}

pub record Kernel : Type 0 where
  pub sched : Sched
  pub shm : Shm
  pub files : World
  pub fs : ℕ → TaskFs
  pub parent : ℕ → Option ℕ
  pub childs : ℕ → List ℕ
  pub notify_next : ℕ → Option ℕ
  pub time_start : ℕ → ℕ
  pub task_id_ht : IdHashTable
  pub next_task_id : ℕ

abbrev pub K : Type 0 → Type 0
K A = Call Kernel A

abbrev pub in_shm : {A : Type 0} → Call Shm A → K A
in_shm f s = ((f s.shm).0, record s { shm = (f s.shm).1 })

abbrev pub in_vm : {A : Type 0} → Call Vm A → K A
in_vm f s = ((f s.shm.vm).0, record s { shm = record s.shm { vm = (f s.shm.vm).1 } })

abbrev pub in_files : {A : Type 0} → Call World A → K A
in_files f s = ((f s.files).0, record s { files = (f s.files).1 })

abbrev pub sched_end : Kernel → Option Sched → Outcome (Unit {0}) × Kernel
sched_end s none = (stop, s)
sched_end s (some q) = (done tt, record s { sched = q })

abbrev pub in_sched : (Sched → Option Sched) → K (Unit {0})
in_sched f s = sched_end s (f s.sched)

-- Task::init, on a copy of a task. It leaves out the node of the list of alarms.
abbrev pub init : Task → Task
init v = record v {
  on = none;
  time_user = 0;
  time_kernel = 0;
  counter = pos 0;
  alarm = 0;
  waiting_child = false;
  sig = λ i. false;
  pending = λ i. false;
}

-- memcpy(t, task_curr, sizeof(Task)); t->init(); t->parent = task_curr;
-- t->state = Task::State_not_runnable;
abbrev pub copy_task : ℕ → Kernel → Kernel
copy_task t s =
    let c = s.sched.curr in
    record s {
      sched = put_task s.sched t (record (init (s.sched.tasks c)) { state = not_runnable });
      shm = record s.shm {
        vm = put_space s.shm.vm t (s.shm.vm.spaces c);
        shared_mem_list = λ u. if t == u then s.shm.shared_mem_list c else s.shm.shared_mem_list u;
      };
      fs = λ u. if t == u then s.fs c else s.fs u;
      parent = λ u. if t == u then some c else s.parent u;
      childs = λ u. if t == u then [] else s.childs u;
      notify_next = λ u. if t == u then none else s.notify_next u;
      time_start = λ u. if t == u then 0 else s.time_start u;
      task_id_ht = new_node s.task_id_ht t (s.task_id_ht.id c);
    }
