-- ===== src/Tasks/Tests.antt =====
-- The theorems on `do_fork` at a machine with one task.
use makarna_x.Base.{
  ℕ, ◌%◌, ◌≤◌, ◌≡◌, refl, sym, subst, ap, inl, inr, true, false, some, ◌==◌, arith, Bool-cases, [],
  ◌∷◌, none, false, ◌≢◌, if◌then◌else◌,
}
use makarna_x.DenemeFs.Store.{done, dir_inode_op, blank}
use makarna_x.Hash.Table.{null, IdHashTable, get, find}
use makarna_x.Sched.State.{Sched, ListId, list_eq, runnable, running, not_runnable, pos, sig_dfl}
use makarna_x.Sched.Consistent.{Consistent}
use makarna_x.Tasks.State.{Kernel}
use makarna_x.Tasks.Fork.{start_child}
use makarna_x.Tasks.Started.{CanStart, start_child_lem}
use makarna_x.Memory.Virtual.{Pte, page_get, pdx, ptx}
use makarna_x.Spaces.Setup.{shared}
use makarna_x.Spaces.Tables.{shows}
use makarna_x.Spaces.Tests.{off_layout, one_task, one_task-IsReady}
use makarna_x.Tasks.UserCopy.{CanFork}
use makarna_x.Tasks.Forked.{spaces_copied, ForkResult, do_fork_lem}
use mathlib.Core.Path.{fun_ext}

own_tables : (x : ℕ) → 16777216 ≤ x → shared one_task off_layout (pdx x) ≡ false
own_tables x low = let past : pdx 16769024 ≤ pdx x = omega (arith, low) in ground (arith, past)

the_page :
    (x : ℕ) (pte : Pte)
    → shows one_task 7 x ≡ some pte
    → pte ≡ record { present = true; perm = 7; page = 9 }
unfolding page_get
the_page x pte h = elim (Bool-cases (pdx x == 4)) [
  | inr other_table ↦ absurd (ground (arith, other_table, h))
  | inl table ↦ elim (Bool-cases (ptx x == 0)) [
    | inr other_entry ↦ absurd (ground (arith, table, other_entry, h))
    | inl entry ↦ ground (arith, table, entry, h)
  ]
]

one_task-CanFork : CanFork 8 7 one_task
one_task-CanFork = record {
  ready = one_task-IsReady;
  task = omega arith;
  source = omega arith;
  apart = omega arith;
  current = refl;
  layout = refl;
  areas = record {
    base = refl;
    from = refl;
    upto = refl;
    top = refl;
    first = omega arith;
    second = omega arith;
    third = omega arith;
    own = λ x low high. own_tables x low;
  };
  in_use = λ x pte h.
      let e = the_page x pte h in
      (ap (λ q. (one_task.memory.pages q.page).free) e, ap (λ q. q.perm % 2) e);
}

-- The task 7 runs alone, in no list, and the task 8 is new.
abbrev two_tasks : Sched
two_tasks = record {
  tasks = λ t. record {
    id = t;
    state = not_runnable;
    priority = 3;
    counter = pos 0;
    on = none;
    on_alarm = false;
    alarm = 0;
    sleep = 0;
    waiting_child = false;
    sig = λ i. false;
    pending = λ i. false;
    action = λ i. sig_dfl;
    time_user = 0;
    time_kernel = 0;
  };
  lists = λ q. [];
  alarms = [];
  curr = 7;
  jiffies = 100;
}

two_tasks-Consistent : Consistent two_tasks
two_tasks-Consistent = record {
  listed = λ q t h. absurd (cc h);
  on_listed = λ q t h. absurd (cc h);
  distinct = λ q. tt;
  placed = λ t p h. absurd (cc h);
}

abbrev no_ids : IdHashTable
no_ids = record {
  table = λ b. none;
  table_size = 4;
  count = 0;
  prev = λ n. null;
  next = λ n. none;
  id = λ n. 0;
}

abbrev before_start : Kernel
before_start = record {
  sched = two_tasks;
  shm = record {
    vm = one_task;
    infos = λ a. record { id = 0; key = 0; size = 0; page = 0; task_list = [] };
    descs = λ d. record { start = 0; end = 0; task = 0; info = 0 };
    key_ht = no_ids;
    id_ht = no_ids;
    next_shm_id = 1;
    shared_mem_list = λ t. [];
    curr = 7;
    heap = [];
    enabled = false;
  };
  files = record {
    dirents =
        λ d. record { ref_count = pos 1; inode = none; name = []; parent = none; childs = [] };
    inodes = λ i. record {
      ino = 0;
      op = dir_inode_op;
      size = 0;
      mode = record { read = 1; write = 1; type = 2 };
      superblock = 0;
    };
    refs = λ i. pos 1;
    files = λ f. record { inode = 0; fpos = 0; flags = 0 };
    next = 1;
    table = λ i. blank;
    root = 0;
    pwd = 0;
    fds = λ i. none;
  };
  fs = λ t. record { root = 0; pwd = 0; fds = λ i. none };
  parent = λ t. some 7;
  childs = λ t. [];
  notify_next = λ t. none;
  time_start = λ t. 0;
  task_id_ht = no_ids;
  next_task_id = 2;
}

before_start-CanStart : CanStart (λ b. []) 8 before_start
unfolding get find
before_start-CanStart = record {
  ids = record {
    chains = λ b. refl;
    taken = λ b n listed. absurd (cc listed);
    bounded = λ b. omega arith;
  };
  apart = λ b. refl;
  new_node = refl;
  new_id = refl;
  off = refl;
  lists = two_tasks-Consistent;
}

start_child_lem_example :
    (w : Kernel) × (start_child 8 before_start ≡ (done 2, w))
    × (get 2 w.task_id_ht ≡ some (some 8))
    × ((key : ℕ) → 2 ≢ key → get key w.task_id_ht ≡ get key no_ids)
    × ((r : ListId) → w.sched.lists r ≡ (if list_eq (runnable 3) r then 8 ∷ [] else []))
    × ((w.sched.tasks 8).state ≡ running)
    × (w.childs 7 ≡ 8 ∷ [])
    × Consistent w.sched
start_child_lem_example = start_child_lem (λ b. []) 8 before_start before_start-CanStart

-- The task 7 runs alone, and the memory for one more task is left.
abbrev with_room : Kernel
with_room = record before_start { shm = record before_start.shm { heap = 8 ∷ [] } }

same_spaces : spaces_copied 8 with_room ≡ one_task
same_spaces = ap (λ f. record one_task { spaces = f }) (fun_ext λ k. space k)
  where
    space : (k : ℕ) → (spaces_copied 8 with_room).spaces k ≡ one_task.spaces k
    space k = ground arith

with_room-CanFork : CanFork 8 7 (spaces_copied 8 with_room)
with_room-CanFork = subst (CanFork 8 7) (sym same_spaces) one_task-CanFork

do_fork_lem_example : ForkResult 8 [] with_room
do_fork_lem_example = do_fork_lem 8 [] with_room refl with_room-CanFork
