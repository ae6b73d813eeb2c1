-- ===== src/Shm/Tests.antt =====
-- The theorem on keys at a machine with one task and no shared memory.
use makarna_x.Base.{ℕ, ◌≡◌, ◌≤◌, refl, none, false, true, [], ◌∷◌, arith}
use makarna_x.DenemeFs.Store.{done, fails}
use makarna_x.Memory.Pages.{Memory}
use makarna_x.Memory.Queue.{popped, page_alloc-popped}
use makarna_x.Hash.Table.{null, IdHashTable, get, find}
use makarna_x.Hash.Chains.{WellFormed}
use makarna_x.Spaces.Tests.{one_task, five_free, five_free-IsFreeList}
use makarna_x.Shm.State.{Shm}
use makarna_x.Shm.Calls.{sys_shmget}
use makarna_x.Shm.Created.{CanCreate, sys_shmget-sys_shmget}

abbrev no_nodes : IdHashTable
no_nodes = record {
  table = λ b. none;
  table_size = 4;
  count = 0;
  prev = λ n. null;
  next = λ n. none;
  id = λ n. 0;
}

no_nodes-WellFormed : WellFormed (λ b. []) no_nodes
no_nodes-WellFormed = record {
  chains = λ b. refl;
  taken = λ b n listed. absurd (ground (arith, listed));
  bounded = λ b. omega arith;
}

abbrev no_memory : Shm
no_memory = record {
  vm = one_task;
  infos = λ a. record { id = 0; key = 0; size = 0; page = 0; task_list = [] };
  descs = λ d. record { start = 0; end = 0; task = 0; info = 0 };
  key_ht = no_nodes;
  id_ht = no_nodes;
  next_shm_id = 1;
  shared_mem_list = λ t. [];
  curr = 7;
  heap = 20 ∷ 21 ∷ [];
  enabled = true;
}

abbrev four_left : Memory
four_left = popped five_free 1 (2 ∷ 3 ∷ 4 ∷ 5 ∷ [])

no_memory-CanCreate : CanCreate (λ b. []) (λ b. []) 77 20 1 (21 ∷ []) four_left no_memory
unfolding get find
no_memory-CanCreate = record {
  keys = no_nodes-WellFormed;
  ids = no_nodes-WellFormed;
  heap = refl;
  no_key = λ b. refl;
  no_id = λ b. refl;
  new_key = refl;
  new_id = refl;
  id_left = omega arith;
  page = page_alloc-popped five_free 1 (2 ∷ 3 ∷ 4 ∷ 5 ∷ []) five_free-IsFreeList;
  used = refl;
}

sys_shmget-sys_shmget_example :
    (w : Shm) × (sys_shmget 77 100 1 no_memory ≡ (done 1, w))
    × (w.enabled ≡ true)
    × ((any : ℕ) → any ≤ 4096 → sys_shmget 77 any 0 w ≡ (done 1, w))
    × ((any : ℕ) → any ≤ 4096 → sys_shmget 77 any 1 w ≡ (fails 1, record w { enabled = false }))
sys_shmget-sys_shmget_example =
    sys_shmget-sys_shmget (λ b. []) (λ b. []) 77 100 20 1 (21 ∷ []) four_left no_memory
      (omega arith) no_memory-CanCreate
