-- ===== src/Shm/State.antt =====
-- The state of kernel/ipc/shared_memory.cpp and of `struct SharedMemDesc` (kernel/ipc/ipc.h). A task is
-- also the number of its directory. `heap` is the addresses that `kmalloc` will give, and NULL
-- follows the last. `enabled` is the interrupt flag.
use makarna_x.Base.{
  ℕ, Bool, false, Option, none, some, List, [], ◌∷◌, ◌++◌, ◌==◌, if◌then◌else◌, without,
}
use makarna_x.DenemeFs.Store.{Outcome, done, fails, stop}
use makarna_x.Hash.Table.{null, IdHashTable, put, get}
use makarna_x.Spaces.State.{Vm}
use makarna_x.Flow.{Call}

-- `struct SharedMemInfo`; its id and key are also in the two hash tables.
pub record SharedMemInfo : Type 0 where
  pub id : ℕ
  pub key : ℕ
  pub size : ℕ
  pub page : ℕ
  pub task_list : List ℕ

-- `task` is the task in whose list the descriptor is.
pub record SharedMemDesc : Type 0 where
  pub start : ℕ
  pub end : ℕ
  pub task : ℕ
  pub info : ℕ

pub record Shm : Type 0 where
  pub vm : Vm
  pub infos : ℕ → SharedMemInfo
  pub descs : ℕ → SharedMemDesc
  pub key_ht : IdHashTable
  pub id_ht : IdHashTable
  pub next_shm_id : ℕ
  pub shared_mem_list : ℕ → List ℕ
  pub curr : ℕ
  pub heap : List ℕ
  pub enabled : Bool

abbrev pub S : Type 0 → Type 0
S A = Call Shm A

-- A call on the address spaces.
abbrev pub in_vm : {A : Type 0} → Call Vm A → S A
in_vm f s = ((f s.vm).0, record s { vm = (f s.vm).1 })

abbrev pub given : Shm → List ℕ → Outcome (Option ℕ) × Shm
given s [] = (done none, s)
given s (a ∷ rest) = (done (some a), record s { heap = rest })

abbrev pub kmalloc : S (Option ℕ)
kmalloc s = given s s.heap

abbrev pub kfree : ℕ → S (Unit {0})
kfree a s = (done tt, record s { heap = a ∷ s.heap })

-- eflags_read() and cli()
abbrev pub read_cli : S Bool
read_cli s = (done s.enabled, record s { enabled = false })

abbrev pub eflags_load : Bool → S (Unit {0})
eflags_load b s = (done tt, record s { enabled = b })

-- eflags_load(eflags); return set_return(tf, -1);
abbrev pub refuse : {A : Type 0} → Bool → S A
refuse b s = (fails 1, record s { enabled = b })

-- A node after `init`, with the id of its object.
abbrev pub new_node : IdHashTable → ℕ → ℕ → IdHashTable
new_node t n id = record t {
  id = λ m. if n == m then id else t.id m;
  prev = λ m. if n == m then null else t.prev m;
  next = λ m. if n == m then none else t.next m;
}

-- A `put` whose result is not read.
abbrev pub put_over : {A : Type 0} → Outcome A → Outcome (Unit {0})
put_over (done a) = done tt
put_over (fails n) = done tt
put_over stop = stop

abbrev pub put_key : ℕ → S (Unit {0})
put_key n s = (put_over (put n s.key_ht).0, record s { key_ht = (put n s.key_ht).1 })

abbrev pub put_id : ℕ → S (Unit {0})
put_id n s = (put_over (put n s.id_ht).0, record s { id_ht = (put n s.id_ht).1 })

abbrev pub or_halt : {A : Type 0} → Option A → S A
or_halt none s = (stop, s)
or_halt (some a) s = (done a, s)

abbrev pub get_key : ℕ → S (Option ℕ)
get_key key s = or_halt (get key s.key_ht) s

abbrev pub get_id : ℕ → S (Option ℕ)
get_id id s = or_halt (get id s.id_ht) s

abbrev pub put_info : Shm → ℕ → SharedMemInfo → Shm
put_info s a i = record s { infos = λ b. if a == b then i else s.infos b }

abbrev pub put_desc : Shm → ℕ → SharedMemDesc → Shm
put_desc s a d = record s { descs = λ b. if a == b then d else s.descs b }

abbrev pub put_list : Shm → ℕ → List ℕ → Shm
put_list s t l = record s { shared_mem_list = λ u. if t == u then l else s.shared_mem_list u }

-- The descriptor joins the list of its task and that of its memory.
abbrev pub enlist : ℕ → Shm → Shm
enlist a s =
    let d = s.descs a in
    let u = put_list s d.task (s.shared_mem_list d.task ++ a ∷ []) in
    put_info u d.info (record (u.infos d.info) { task_list = (u.infos d.info).task_list ++ a ∷ [] })

-- The end of `detach_shared_mem`: the descriptor leaves both lists.
abbrev pub delist : ℕ → Shm → Shm
delist a s =
    let d = s.descs a in
    let u = put_list s d.task (without a (s.shared_mem_list d.task)) in
    put_info u d.info (record (u.infos d.info) { task_list = without a (u.infos d.info).task_list })
