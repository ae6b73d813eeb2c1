-- ===== src/Shm/Created.antt =====
-- `sys_shmget` of kernel/ipc/shared_memory.cpp: what a key gives after it.
use makarna_x.Base.{
  ℕ, ◌≤◌, ◌≡◌, refl, ap, ◌∙◌, false, ◌||◌, none, some, List, [], ◌∷◌, ltb, arith, if◌then◌else◌,
}
use makarna_x.DenemeFs.Store.{Outcome, done, fails}
use makarna_x.Memory.Pages.{Memory, page_alloc, refcount_inc, inc20, inc32}
use makarna_x.Hash.Table.{IdHashTable, put, get}
use makarna_x.Hash.Chains.{WellFormed}
use makarna_x.Flow.{continue, chain, branch_done, ◌>>=◌, fail}
use makarna_x.Spaces.State.{on_memory_end, on_memory}
use makarna_x.Spaces.Tmp.{alloc_page, page_or_enomem}
use makarna_x.Spaces.Entries.{referred, refcount_inc_used}
use makarna_x.Shm.State.{
  Shm, in_vm, kmalloc, given, kfree, read_cli, refuse, new_node, put_key, put_id, get_key, or_halt,
  put_info, put_over,
}
use makarna_x.Shm.Calls.{register, with_info, create_only, lookup_only, sys_shmget}
use makarna_x.Shm.Keys.{IsApart, put-new_node}

-- New memory can be made for the key: the tables are in order, and an id, an address and a page are left.
pub record CanCreate (ck ci : ℕ → List ℕ) (key a p : ℕ) (rest : List ℕ) (n : Memory) (s : Shm)
    : Type 0 where
  pub keys : WellFormed ck s.key_ht
  pub ids : WellFormed ci s.id_ht
  pub heap : s.heap ≡ a ∷ rest
  pub no_key : IsApart ck a
  pub no_id : IsApart ci a
  pub new_key : get key s.key_ht ≡ some none
  pub new_id : get s.next_shm_id s.id_ht ≡ some none
  pub id_left : s.next_shm_id ≤ 1023
  pub page : page_alloc s.vm.memory ≡ some (some p, n)
  pub used : (n.pages p).free ≡ false

-- The state after the call, with the two tables.
abbrev created : Shm → ℕ → ℕ → ℕ → ℕ → List ℕ → Memory → IdHashTable → IdHashTable → Shm
created s key size a p rest n kt it =
    record (put_info s a
      (record { id = s.next_shm_id; key = key; size = size; page = p; task_list = [] })) {
        vm = record s.vm { memory = referred n p };
        key_ht = kt;
        id_ht = it;
        next_shm_id = inc32 s.next_shm_id;
        heap = rest;
      }

-- The state before the page is taken.
abbrev waiting : Shm → List ℕ → Shm
waiting s rest = record s { enabled = false; next_shm_id = inc32 s.next_shm_id; heap = rest }

page_run :
    (s : Shm) (p : ℕ) (n : Memory)
    → page_alloc s.vm.memory ≡ some (some p, n)
    → in_vm alloc_page s ≡ (done p, record s { vm = record s.vm { memory = n } })
page_run s p n run =
    ap
      (λ o.
        let w = on_memory_end s.vm o in
        let x = continue page_or_enomem w.0 w.1 in (x.0, record s { vm = x.1 }))
      run

ref_run :
    (s : Shm) (p : ℕ)
    → (s.vm.memory.pages p).free ≡ false
    → in_vm (on_memory (λ m. refcount_inc m p)) s ≡ (
      done (inc20 (s.vm.memory.pages p).next_or_ref),
      record s { vm = record s.vm { memory = referred s.vm.memory p } },
    )
ref_run s p used =
    ap (λ o. let w = on_memory_end s.vm o in (w.0, record s { vm = w.1 }))
      (refcount_inc_used s.vm.memory p used)

key_run :
    (s : Shm) (a : ℕ) (t : IdHashTable)
    → put a s.key_ht ≡ (done tt, t)
    → put_key a s ≡ (done tt, record s { key_ht = t })
key_run s a t run =
    ap (λ (r : Outcome (Unit {0}) × IdHashTable). (put_over r.0, record s { key_ht = r.1 })) run

id_run :
    (s : Shm) (a : ℕ) (t : IdHashTable)
    → put a s.id_ht ≡ (done tt, t)
    → put_id a s ≡ (done tt, record s { id_ht = t })
id_run s a t run =
    ap (λ (r : Outcome (Unit {0}) × IdHashTable). (put_over r.0, record s { id_ht = r.1 })) run

-- `sys_shmget` with the flag 1 and a key that no memory has: it returns the next id, with the
-- interrupts as before; the id and the key now give the new memory, which has the page.
pub sys_shmget_creates :
    (ck ci : ℕ → List ℕ) (key size a p : ℕ) (rest : List ℕ) (n : Memory) (s : Shm)
    → size ≤ 4096
    → CanCreate ck ci key a p rest n s
    → (w : Shm) × (sys_shmget key size 1 s ≡ (done s.next_shm_id, w))
      × (w.enabled ≡ s.enabled)
      × (get key w.key_ht ≡ some (some a))
      × (get s.next_shm_id w.id_ht ≡ some (some a))
      × ((w.infos a).id ≡ s.next_shm_id)
      × ((w.infos a).page ≡ p)
unfolding sys_shmget
sys_shmget_creates ck ci key size a p rest n s small c =
    let id = s.next_shm_id in
    let e = s.enabled in
    let (kt, put_k, found_k, others_k) = put-new_node ck s.key_ht a key c.no_key c.keys c.new_key in
    let (it, put_i, found_i, others_i) = put-new_node ci s.id_ht a id c.no_id c.ids c.new_id in
    let w = created s key size a p rest n kt it in
    let s1 = record s { enabled = false } in
    let s2 = record s1 { next_shm_id = inc32 id } in
    let s3 = waiting s rest in
    let s4 = record s3 { vm = record s.vm { memory = n } } in
    let s5 = record s3 { vm = record s.vm { memory = referred n p } } in
    let s6 =
      put_info (record s5 { key_ht = new_node s.key_ht a key; id_ht = new_node s.id_ht a id }) a
        (record { id = id; key = key; size = size; page = p; task_list = [] }) in
    let s7 = record s6 { key_ht = kt } in
    let fits : ltb 4096 size ≡ false = ground (arith, small) in
    let left : ltb 1023 id ≡ false = ground (arith, c.id_left) in
    (
      w,
      ap
            (λ b.
              (if b || false
                  then fail 1
                  else (read_cli >>= λ x. get_key key >>= create_only key size x))
                s)
            fits
          ∙ ap (λ o. let r = or_halt o s1 in continue (create_only key size e) r.0 r.1) c.new_key
          ∙ ap (λ b. (if b then fail 1 else (kmalloc >>= with_info id key size e)) s2) left
          ∙ ap (λ h. let r = given s2 h in continue (with_info id key size e) r.0 r.1) c.heap
          ∙ branch_done (in_vm alloc_page)
              (λ q. in_vm (on_memory (λ m. refcount_inc m q)) >>= λ x. register a q id key size e)
              (λ x. kfree a >>= λ y. refuse e) s3 s4 p (page_run s3 p n c.page)
          ∙ chain (in_vm (on_memory (λ m. refcount_inc m p))) (λ x. register a p id key size e) s4
              s5 (inc20 (n.pages p).next_or_ref) (ref_run s4 p c.used)
          ∙ ap
              (λ (r : Outcome (Unit {0}) × Shm).
                continue (λ x. put_id a >>= λ y u. (done id, record u { enabled = e })) r.0 r.1)
              (key_run s6 a kt put_k)
          ∙ ap
              (λ (r : Outcome (Unit {0}) × Shm).
                continue (λ y u. (done id, record u { enabled = e })) r.0 r.1)
              (id_run s7 a it put_i),
      refl,
      found_k,
      found_i,
      ground arith,
      ground arith,
    )

-- With the flag 0, `sys_shmget` gives the id of the memory that has the key, and leaves all as it was.
pub sys_shmget_finds :
    (key size a : ℕ) (s : Shm)
    → size ≤ 4096
    → get key s.key_ht ≡ some (some a)
    → sys_shmget key size 0 s ≡ (done (s.infos a).id, s)
unfolding sys_shmget
sys_shmget_finds key size a s small found =
    let fits : ltb 4096 size ≡ false = ground (arith, small) in
    ap (λ b. (if b || false then fail 1 else (read_cli >>= λ x. get_key key >>= lookup_only x)) s)
      fits
    ∙ ap
        (λ o.
          let r = or_halt o (record s { enabled = false }) in
          continue (lookup_only s.enabled) r.0 r.1)
        found

-- With the flag 1 and a key that is taken, it returns -1 with the interrupts off.
sys_shmget_twice :
    (key size a : ℕ) (s : Shm)
    → size ≤ 4096
    → get key s.key_ht ≡ some (some a)
    → sys_shmget key size 1 s ≡ (fails 1, record s { enabled = false })
unfolding sys_shmget
sys_shmget_twice key size a s small found =
    let fits : ltb 4096 size ≡ false = ground (arith, small) in
    ap
      (λ b.
        (if b || false then fail 1 else (read_cli >>= λ x. get_key key >>= create_only key size x))
          s)
      fits
    ∙ ap
        (λ o.
          let r = or_halt o (record s { enabled = false }) in
          continue (create_only key size s.enabled) r.0 r.1)
        found

abbrev done_with : ℕ → Shm → Outcome ℕ × Shm
done_with x u = (done x, u)

-- Where new memory can be made for a key, `sys_shmget` with the flag 1 gives the next id and the interrupts
-- are as before; then `sys_shmget` with the flag 0 gives that id for the key, whatever size up to
-- 4096 it asks for, and changes nothing; and `sys_shmget` with the flag 1 again returns -1
-- and leaves the interrupts off.
pub sys_shmget-sys_shmget :
    (ck ci : ℕ → List ℕ) (key size a p : ℕ) (rest : List ℕ) (n : Memory) (s : Shm)
    → size ≤ 4096
    → CanCreate ck ci key a p rest n s
    → (w : Shm) × (sys_shmget key size 1 s ≡ (done s.next_shm_id, w))
      × (w.enabled ≡ s.enabled)
      × ((any : ℕ) → any ≤ 4096 → sys_shmget key any 0 w ≡ (done s.next_shm_id, w))
      × ((any : ℕ) → any ≤ 4096 → sys_shmget key any 1 w ≡ (fails 1, record w { enabled = false }))
sys_shmget-sys_shmget ck ci key size a p rest n s small c =
    let (w, run, on, has_key, has_id, id, page) =
      sys_shmget_creates ck ci key size a p rest n s small c in
    (
      w,
      run,
      on,
      λ any fits. sys_shmget_finds key any a w fits has_key ∙ ap (λ x. done_with x w) id,
      λ any fits. sys_shmget_twice key any a w fits has_key,
    )
