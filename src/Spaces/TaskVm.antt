-- ===== src/Spaces/TaskVm.antt =====
-- The address space of a task: `task_setup_vm`, `task_delete_vm`, `task_free_kernel_stack` and
-- `task_free_vm_user` of kernel/task.cpp.
use makarna_x.Base.{ℕ, zero, suc, ◌+◌, ◌-◌, ◌*◌, not, Option, none, some, ◌==◌}
use makarna_x.Memory.Pages.{inc32, dec32}
use makarna_x.Memory.Virtual.{Pte, pdx, page_get, page_remove, segment_free}
use makarna_x.Flow.{Call, pure, ◌>>=◌, ◌>>◌, get, assert, modify, must}
use makarna_x.Spaces.State.{Space, Vm, put_space, on}
use makarna_x.Spaces.Tmp.{tmp_page_alloc_map, tmp_page_free, pde_free}
use makarna_x.Spaces.Segments.{link_pgtables, present_pte}

-- memset(&t->pgdir, 0, sizeof(t->pgdir))
abbrev pub cleared : Space → Space
cleared s = record s {
  info = record s.info { pgtables = λ i. none; count_user = 0; count_kernel = 0 };
  pgdir = none;
  pgtables = none;
  count_stack = 0;
  count_program = 0;
  count_shared = 0;
  start_brk = 0;
  end_brk = 0;
}

abbrev pub up_kernel : Space → Space
up_kernel s = record s { info = record s.info { count_kernel = inc32 s.info.count_kernel } }

abbrev pub down_kernel : Space → Space
down_kernel s = record s { info = record s.info { count_kernel = dec32 s.info.count_kernel } }

-- `task_setup_vm` with the address of `pgtables`, and with that of `pgdir`.
abbrev pub setup_tables : ℕ → ℕ → ℕ × ℕ → Call Vm (Unit {0})
setup_tables t parent b = do
  modify λ v. put_space v t (up_kernel (record (v.spaces t) { pgtables = some b.1 }))
  v ← get
  link_pgtables t parent (v.spaces t).info.layout.kernel_base v.areas.stack_base

abbrev pub setup_dir : ℕ → ℕ → ℕ × ℕ → Call Vm (Unit {0})
setup_dir t parent a = do
  modify λ v. put_space v t (up_kernel (record (v.spaces t) { pgdir = some a.1 }))
  tmp_page_alloc_map 3 >>= setup_tables t parent

unfoldable pub task_setup_vm : ℕ → ℕ → Call Vm (Unit {0})
unfolding tmp_page_alloc_map link_pgtables
task_setup_vm t parent = do
  modify λ v. put_space v t (cleared (v.spaces t))
  tmp_page_alloc_map 3 >>= setup_dir t parent

-- if (va > 0) { ASSERT(tmp_page_free(kaddr2va(va)) == 0); t->pgdir.count_kernel--; }
abbrev pub drop_tmp : ℕ → Option ℕ → Call Vm (Unit {0})
drop_tmp t none = pure tt
drop_tmp t (some va) = do
  rc ← must (tmp_page_free va)
  assert (rc == 0)
  modify λ v. put_space v t (down_kernel (v.spaces t))

-- `task_delete_vm`, with the running task.
unfoldable pub task_delete_vm : ℕ → ℕ → Call Vm (Unit {0})
unfolding tmp_page_free
task_delete_vm curr t = do
  assert (not (t == curr))
  u ← get
  drop_tmp t (u.spaces t).pgdir
  v ← get
  drop_tmp t (v.spaces t).pgtables
  w ← get
  assert ((w.spaces t).info.count_user == 0)
  assert ((w.spaces t).info.count_kernel == 0)

-- The address of a table, where it is there.
abbrev pub table_address : Space → ℕ → Option ℕ
table_address s i = elim (s.info.pgtables i) [ none ↦ none | some e ↦ some (s.table_va i) ]

-- `task_free_kernel_stack`, without its call of `free_sigstack` on the running task.
unfoldable pub task_free_kernel_stack : ℕ → Call Vm (Unit {0})
unfolding tmp_page_free
task_free_kernel_stack t = do
  u ← get
  on t (segment_free u.areas.stack_base u.areas.stack_size)
  v ← get
  drop_tmp t (table_address (v.spaces t) (pdx v.areas.stack_base))

-- if (e[pte_no].present) { int i = page_remove(va, 0); ASSERT(i == 0); }
abbrev pub drop_present : ℕ → ℕ → Option Pte → Call Vm (Unit {0})
drop_present t va none = pure tt
drop_present t va (some pte) = do rc ← must (on t (page_remove va)); assert (rc == 0)

-- The loop over the entries of a table, from the address `va` on.
unfoldable pub drop_entries : ℕ → ℕ → ℕ → Call Vm (Unit {0})
drop_entries zero t va = pure tt
drop_entries (suc n) t va = do
  v ← get
  drop_present t va (present_pte (page_get (v.spaces t).info va))
  drop_entries n t (va + 4096)

abbrev pub drop_table : ℕ → ℕ → Option ℕ → Call Vm (Unit {0})
drop_table t pde none = pure tt
drop_table t pde (some a) = do drop_entries 1024 t (pde * 4194304); pde_free t pde

-- The loop over the page directory, from `pde` on.
unfoldable pub drop_tables : ℕ → ℕ → ℕ → Call Vm (Unit {0})
unfolding drop_entries pde_free
drop_tables zero t pde = pure tt
drop_tables (suc n) t pde = do
  v ← get
  drop_table t pde (table_address (v.spaces t) pde)
  drop_tables n t (suc pde)

-- `task_free_vm_user`
unfoldable pub task_free_vm_user : ℕ → Call Vm (Unit {0})
unfolding drop_tables
task_free_vm_user t = do
  v ← get
  let l = (v.spaces t).info.layout
  drop_tables (pdx l.user_top - pdx l.user_base) t (pdx l.user_base)
  modify λ u.
      put_space u t (record (u.spaces t) { count_stack = 0; count_program = 0; count_shared = 0 })
