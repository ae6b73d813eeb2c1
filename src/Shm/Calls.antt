-- ===== src/Shm/Calls.antt =====
-- The system calls of kernel/ipc/shared_memory.cpp, with `shm_fork` and `shm_task_free`.
use makarna_x.Base.{
  ℕ, zero, suc, ◌+◌, ◌-◌, ◌/◌, ◌%◌, ◌^◌, Bool, false, not, ◌&&◌, ◌||◌, Option, none, some, List, [],
  ◌∷◌, ◌==◌, ltb, if◌then◌else◌, length,
}
use makarna_x.Memory.Pages.{refcount_inc, inc32, dec32}
use makarna_x.Memory.Virtual.{Pte, page_get, page_remove}
use makarna_x.Flow.{Call, pure, fail, halt, ◌>>=◌, ◌>>◌, get, assert, modify, must, branch}
use makarna_x.Spaces.State.{Space, Vm, put_space, on, on_memory}
use makarna_x.Spaces.Tmp.{alloc_page, make_table, page_insert}
use makarna_x.Spaces.Segments.{link_pages}
use makarna_x.Shm.State.{
  SharedMemDesc, Shm, S, in_vm, kmalloc, kfree, read_cli, eflags_load, refuse, new_node, put_key,
  put_id, get_key, get_id, put_info, put_desc, put_list, enlist, delist,
}

-- The new memory `a` with the page `p` in both tables.
abbrev pub register : ℕ → ℕ → ℕ → ℕ → ℕ → Bool → S ℕ
register a p id key size eflags = do
  modify λ s.
      put_info (record s { key_ht = new_node s.key_ht a key; id_ht = new_node s.id_ht a id }) a
        (record { id = id; key = key; size = size; page = p; task_list = [] })
  put_key a
  put_id a
  eflags_load eflags
  pure id

-- `sys_shmget` from its `kmalloc` on, with what that gave.
abbrev pub with_info : ℕ → ℕ → ℕ → Bool → Option ℕ → S ℕ
with_info id key size eflags none = refuse eflags
with_info id key size eflags (some a) =
    branch (in_vm alloc_page)
      (λ p. do _ ← in_vm (on_memory (λ m. refcount_inc m p)); register a p id key size eflags)
      λ n. do kfree a; refuse eflags

-- `sys_shmget` with the flag 1, where no memory has the key: the return for an id above 1023 leaves
-- the interrupts off.
abbrev pub create : ℕ → ℕ → Bool → S ℕ
create key size eflags = do
  s ← get
  let id = s.next_shm_id
  modify λ u. record u { next_shm_id = inc32 id }
  if ltb 1023 id then fail 1 else (kmalloc >>= with_info id key size eflags)

-- The flag 0, and the flag 1, with the memory of the key. The second return of -1 leaves the interrupts off.
abbrev pub lookup_only : Bool → Option ℕ → S ℕ
lookup_only eflags none = refuse eflags
lookup_only eflags (some a) = do eflags_load eflags; s ← get; pure (s.infos a).id

abbrev pub create_only : ℕ → ℕ → Bool → Option ℕ → S ℕ
create_only key size eflags none = create key size eflags
create_only key size eflags (some a) = fail 1

unfoldable pub sys_shmget : ℕ → ℕ → ℕ → S ℕ
sys_shmget key size shmflg =
    if ltb 4096 size || not (shmflg == 0 || shmflg == 1) then fail 1 else (do
      eflags ← read_cli
      found ← get_key key
      if shmflg == 0 then lookup_only eflags found else create_only key size eflags found)

-- `sys_shmctl`
abbrev pub sys_shmctl : ℕ → ℕ → ℕ → S ℕ
sys_shmctl shmid cmd buf = fail 1

abbrev pub is_present : Option Pte → Bool
is_present none = false
is_present (some pte) = pte.present

-- The loop of `sys_shmat` for a free address, with the pages left. Where `page_get_c` gives NULL it
-- reads through that.
unfoldable pub find_va : ℕ → ℕ → ℕ → Call Vm (Option ℕ)
unfolding make_table
find_va zero t va = pure none
find_va (suc n) t va = do
  branch (make_table t va) pure (λ e. halt)
  v ← get
  (let rest = find_va n t (va + 4096) in
      if is_present (page_get (v.spaces t).info va) then rest else pure (some va))

abbrev pub va2uaddr : Shm → ℕ → ℕ
va2uaddr s va = (va + 2 ^ 32 - (s.vm.spaces s.curr).info.layout.seg_user_base) % 2 ^ 32

abbrev pub uaddr2va : Shm → ℕ → ℕ
uaddr2va s a = (a + (s.vm.spaces s.curr).info.layout.seg_user_base) % 2 ^ 32

abbrev pub count_up_shared : Space → Space
count_up_shared x = record x { count_shared = inc32 x.count_shared }

abbrev pub count_down_shared : Space → Space
count_down_shared x = record x { count_shared = dec32 x.count_shared }

-- `sys_shmat` with the descriptor `d` for the memory `a`, from the search for an address on.
abbrev pub attach_at : ℕ → ℕ → Bool → Option ℕ → S ℕ
attach_at a d eflags none = do kfree d; refuse eflags
attach_at a d eflags (some va) = do
  s ← get
  branch (in_vm (page_insert s.curr (s.infos a).page va 7)) (λ rc. pure tt) (λ n. pure tt)
  in_vm (modify λ v. put_space v s.curr (count_up_shared (v.spaces s.curr)))
  modify λ u. enlist d (
      put_desc u d (record {
        start = va2uaddr s va;
        end = (va2uaddr s va + (s.infos a).size) % 2 ^ 32;
        task = s.curr;
        info = a;
      }))
  eflags_load eflags
  pure (va2uaddr s va)

abbrev pub with_desc : ℕ → Bool → Option ℕ → S ℕ
with_desc a eflags none = refuse eflags
with_desc a eflags (some d) = do
  s ← get
  va ← in_vm (
      find_va ((s.vm.areas.shared_top - s.vm.areas.shared_base) / 4096) s.curr
        s.vm.areas.shared_base)
  attach_at a d eflags va

abbrev pub attach : ℕ → ℕ → Bool → Option ℕ → S ℕ
attach shmaddr shmflg eflags none = refuse eflags
attach shmaddr shmflg eflags (some a) =
    if shmaddr == 0 && shmflg == 0 then (kmalloc >>= with_desc a eflags) else refuse eflags

unfoldable pub sys_shmat : ℕ → ℕ → ℕ → S ℕ
unfolding find_va page_insert
sys_shmat shmid shmaddr shmflg = do
  eflags ← read_cli
  found ← get_id shmid
  attach shmaddr shmflg eflags found

-- The loop of `detach_shared_mem`, with the pages left.
unfoldable pub detach_loop : ℕ → ℕ → ℕ → S (Unit {0})
detach_loop zero t i = pure tt
detach_loop (suc n) t i = do
  rc ← must (in_vm (on t (page_remove i)))
  s ← get
  in_vm (modify λ v. put_space v s.curr (count_down_shared (v.spaces s.curr)))
  assert (ltb 0 rc)
  detach_loop n t (i + 4096)

-- `detach_shared_mem`: a page for every 4096 bytes between the ends.
unfoldable pub detach_shared_mem : ℕ → S (Unit {0})
unfolding detach_loop
detach_shared_mem a = do
  s ← get
  let d = s.descs a
  detach_loop ((uaddr2va s d.end + 4095 - uaddr2va s d.start) / 4096) d.task (uaddr2va s d.start)
  modify (delist a)

-- The loop of `sys_shmdt` for the descriptor of the address.
abbrev pub find_start : ℕ → (ℕ → SharedMemDesc) → List ℕ → Option ℕ
find_start addr descs [] = none
find_start addr descs (a ∷ rest) =
    if (descs a).start == addr then some a else find_start addr descs rest

abbrev pub detach_found : Bool → Option ℕ → S ℕ
detach_found eflags none = refuse eflags
detach_found eflags (some a) = do detach_shared_mem a; eflags_load eflags; pure 0

unfoldable pub sys_shmdt : ℕ → S ℕ
unfolding detach_shared_mem
sys_shmdt addr = do
  eflags ← read_cli
  s ← get
  detach_found eflags (find_start addr s.descs (s.shared_mem_list s.curr))

-- From `bad_shm_fork` on: the descriptors of the child, which stay in the lists of their memory.
unfoldable pub drop_descs : List ℕ → ℕ → S (Unit {0})
drop_descs [] child = pure tt
drop_descs (a ∷ rest) child = do kfree a; modify λ s. put_list s child rest; drop_descs rest child

abbrev pub bad_shm_fork : ℕ → S (Unit {0})
bad_shm_fork child = do s ← get; drop_descs (s.shared_mem_list child) child; fail 1

-- One round of `shm_fork`, for the descriptor `a` of the parent and the new one.
abbrev pub copy_desc : ℕ → ℕ → Option ℕ → S (Unit {0})
copy_desc child a none = bad_shm_fork child
copy_desc child a (some d) = do
  s ← get
  branch (in_vm (link_pages child s.curr s.vm.areas.shared_base s.vm.areas.shared_top 7)) pure
      (λ n. pure tt)
  modify λ u. enlist d (put_desc u d (record (s.descs a) { task = child }))

unfoldable pub fork_loop : List ℕ → ℕ → S (Unit {0})
unfolding link_pages drop_descs
fork_loop [] child = pure tt
fork_loop (a ∷ rest) child = do d ← kmalloc; copy_desc child a d; fork_loop rest child

unfoldable pub shm_fork : ℕ → S (Unit {0})
unfolding fork_loop
shm_fork child = do
  modify λ s. put_list s child []
  s ← get
  fork_loop (s.shared_mem_list s.curr) child

abbrev pub free_front : List ℕ → S (Unit {0}) → S (Unit {0})
free_front [] rest = pure tt
free_front (a ∷ l) rest = do detach_shared_mem a; rest

-- The loop of `shm_task_free`, with the rounds left: each takes a descriptor off the list.
unfoldable pub free_descs : ℕ → ℕ → S (Unit {0})
unfolding detach_shared_mem
free_descs zero t = halt
free_descs (suc n) t = do s ← get; free_front (s.shared_mem_list t) (free_descs n t)

unfoldable pub shm_task_free : ℕ → S (Unit {0})
unfolding free_descs
shm_task_free t = do
  s ← get
  assert (t == s.curr)
  free_descs (suc (length (s.shared_mem_list t))) t
