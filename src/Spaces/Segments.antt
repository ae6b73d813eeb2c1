-- ===== src/Spaces/Segments.antt =====
-- The functions of `PageDirInfo` on ranges: `segment_alloc`, `copy_pages`, `link_pgtables` and
-- `link_pages` of kernel/memory/virtual.cpp. A range is given by its first address and its number of
-- pages.
use makarna_x.Base.{
  ℕ, zero, suc, ◌+◌, ◌-◌, ◌*◌, ◌/◌, ◌%◌, ◌^◌, ◌&&◌, Option, none, some, ◌==◌, leb, ltb,
  if◌then◌else◌,
}
use makarna_x.Memory.Pages.{mem_free}
use makarna_x.Memory.Virtual.{Pte, pdx, round_down, round_up, page_get, page_remove, enomem}
use makarna_x.Flow.{Call, pure, fail, ◌>>=◌, ◌>>◌, get, assert, modify, must, branch}
use makarna_x.Spaces.State.{Space, Vm, put_space, on}
use makarna_x.Spaces.Tmp.{
  alloc_page, free_page, page_insert, tmp_page_alloc_map, tmp_page_free, pde_free,
}

-- One round of the loop of `segment_alloc`: a new page at `i`.
unfoldable pub alloc_at : ℕ → ℕ → ℕ → Call Vm (Unit {0})
unfolding page_insert
alloc_at k i perm = do
  p ← alloc_page
  branch (page_insert k p i perm) (λ rc. pure tt) λ n. do free_page p; fail n

-- The pages of a failed `segment_alloc`, from `i` on: each had its only reference here.
unfoldable pub undo_pages : ℕ → ℕ → ℕ → Call Vm (Unit {0})
undo_pages zero k i = pure tt
undo_pages (suc n) k i = do
  rc ← must (on k (page_remove i))
  assert (rc == 0)
  undo_pages n k (i + 4096)

-- The loop over the tables from `pde` on.
unfoldable pub free_tables : ℕ → ℕ → ℕ → Call Vm (Unit {0})
free_tables zero k pde = pure tt
free_tables (suc n) k pde = do pde_free k pde; free_tables n k (suc pde)

-- From `bad_segment_alloc` on, with the pages inserted before: the ASSERTs compare with the state `u` at the start.
unfoldable pub bad_segment_alloc : ℕ → ℕ → ℕ → Vm → ℕ → Call Vm (Unit {0})
unfolding undo_pages free_tables
bad_segment_alloc k va pages u err = do
  undo_pages pages k va
  free_tables (pdx (va + pages * 4096) - pdx va) k (pdx va)
  v ← get
  assert ((v.spaces k).info.count_kernel == (u.spaces k).info.count_kernel)
  assert (mem_free v.memory == mem_free u.memory)
  fail err

-- The loop of `segment_alloc` with `n` pages left and `pages` done.
unfoldable pub alloc_loop : ℕ → ℕ → ℕ → ℕ → ℕ → Vm → Call Vm (Unit {0})
unfolding alloc_at bad_segment_alloc
alloc_loop zero k va pages perm u = pure tt
alloc_loop (suc n) k va pages perm u =
    branch (alloc_at k (va + pages * 4096) perm) (λ r. alloc_loop n k va (suc pages) perm u)
      (bad_segment_alloc k va pages u)

-- `segment_alloc`
unfoldable pub segment_alloc : ℕ → ℕ → ℕ → ℕ → Call Vm (Unit {0})
unfolding alloc_loop
segment_alloc k va len perm v =
    alloc_loop ((round_up ((va + len) % 2 ^ 32) - round_down va) / 4096) k (round_down va) 0 perm v
      v

-- memcpy of the page `p` from the page `q`.
abbrev pub copy_bytes : ℕ → ℕ → Vm → Vm
copy_bytes p q v = record v { bytes = λ x. if p == x then v.bytes q else v.bytes x }

-- `__copy_page_from_current`, for the page `q` that the address has in the running task.
unfoldable pub copy_page : ℕ → ℕ → ℕ → ℕ → Call Vm (Unit {0})
unfolding tmp_page_alloc_map tmp_page_free page_insert
copy_page dest va perm q = do
  r ← tmp_page_alloc_map 3
  modify (copy_bytes r.0 q)
  branch (page_insert dest r.0 va (perm % 8)) (λ rc. do _ ← must (tmp_page_free r.1); pure tt)
      λ n. do rc ← must (tmp_page_free r.1); assert (rc == 0); fail n

-- The page of an address, if it is there. `!pte | !pte->present` reads through a `pte` that is NULL,
-- and skips the page whatever it reads.
abbrev pub present_pte : Option Pte → Option Pte
present_pte none = none
present_pte (some pte) = if pte.present then some pte else none

abbrev pub copy_entry : ℕ → ℕ → Option Pte → Call Vm (Unit {0})
copy_entry dest va none = pure tt
copy_entry dest va (some pte) = copy_page dest va pte.perm pte.page

-- The loop of `copy_pages`, with the pages left.
unfoldable pub copy_loop : ℕ → ℕ → ℕ → ℕ → Call Vm (Unit {0})
unfolding copy_page
copy_loop zero dest src i = pure tt
copy_loop (suc n) dest src i = do
  v ← get
  copy_entry dest i (present_pte (page_get (v.spaces src).info i))
  copy_loop n dest src (i + 4096)

-- `copy_pages`: a PANIC if the source is not loaded.
unfoldable pub copy_pages : ℕ → ℕ → ℕ → ℕ → Call Vm (Unit {0})
unfolding copy_loop
copy_pages dest src start end = do
  v ← get
  assert (src == v.cr3)
  copy_loop ((end - start) / 4096) dest src start

-- `link_pgtables`, for the tables from that of `start` up to that of `end`.
abbrev pub shared_tables : ℕ → ℕ → Space → Space → Space
shared_tables start end src dest =
    let inside = λ (i : ℕ). leb (pdx start) i && ltb i (pdx end) in
    record dest {
      info = record dest.info {
        pgtables = λ i. if inside i then src.info.pgtables i else dest.info.pgtables i;
      };
      table_va = λ i. if inside i then src.table_va i else dest.table_va i;
    }

unfoldable pub link_pgtables : ℕ → ℕ → ℕ → ℕ → Call Vm (Unit {0})
link_pgtables dest src start end =
    modify λ v. put_space v dest (shared_tables start end (v.spaces src) (v.spaces dest))

abbrev pub link_entry : ℕ → ℕ → ℕ → Option Pte → Call Vm (Unit {0})
link_entry dest va perm none = pure tt
link_entry dest va perm (some pte) = do _ ← page_insert dest pte.page va perm; pure tt

-- The loop of `link_pages`, with the pages left.
unfoldable pub link_loop : ℕ → ℕ → ℕ → ℕ → ℕ → Call Vm (Unit {0})
unfolding page_insert
link_loop zero dest src i perm = pure tt
link_loop (suc n) dest src i perm = do
  v ← get
  link_entry dest i perm (present_pte (page_get (v.spaces src).info i))
  link_loop n dest src (i + 4096) perm

-- `link_pages`
unfoldable pub link_pages : ℕ → ℕ → ℕ → ℕ → ℕ → Call Vm (Unit {0})
unfolding link_loop free_tables
link_pages dest src start end perm =
    branch (link_loop ((end - start) / 4096) dest src start perm) pure
      λ n. do free_tables (pdx end - pdx start) dest (pdx start); fail enomem
