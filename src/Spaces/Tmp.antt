-- ===== src/Spaces/Tmp.antt =====
-- `page_insert`, the temporary pages and the page tables: kernel/memory/virtual.h and virtual.cpp.
use makarna_x.Base.{
  ℕ, ◌+◌, ◌-◌, ◌*◌, ◌/◌, ◌%◌, ◌^◌, Bool, true, false, ◌&&◌, Option, none, some, ◌==◌, ltb, leb,
  if◌then◌else◌, is_some,
}
use makarna_x.DenemeFs.Store.{Outcome, done, stop}
use makarna_x.Memory.Pages.{Memory, refcount_inc, inc32, dec32, page_alloc, page_free}
use makarna_x.Memory.Virtual.{
  Pte, PageDirInfo, pdx, round_down, page_get, page_remove, put_pte, no_pte, counted, enomem,
}
use makarna_x.Flow.{Call, pure, fail, halt, ◌>>=◌, ◌>>◌, get, assert, when, modify, must, branch}
use makarna_x.Spaces.State.{
  Space, Vm, put_space, on, on_memory, bitmap_find_first_zero, bitmap_set, bitmap_reset,
  bitmap_test,
}

-- PTE_t(p->addr(), perm)
abbrev pub pte_of : ℕ → ℕ → Pte
pte_of p perm = record { present = perm % 2 == 1; perm = perm % 4096; page = p }

-- The count of the area of an address, one up.
abbrev pub raise_area : Bool → Bool → PageDirInfo → Option PageDirInfo
raise_area true k d = some (record d { count_user = inc32 d.count_user })
raise_area false true d = some (record d { count_kernel = inc32 d.count_kernel })
raise_area false false d = none

abbrev pub count_up : PageDirInfo → ℕ → Option PageDirInfo
count_up d v =
    raise_area (leb d.layout.user_base v && ltb v d.layout.user_top)
      (leb d.layout.kernel_base v && ltb v d.layout.kernel_top) d

-- `page_insert` from `refcount_inc` on, with what that gives.
abbrev pub link_page : ℕ → ℕ → ℕ → PageDirInfo → Option (ℕ × Memory) → Outcome ℕ × PageDirInfo
link_page p va perm d none = (stop, d)
link_page p va perm d (some (rc, m)) =
    counted rc d (count_up (put_pte (record d { memory = m }) va (pte_of p perm)) (round_down va))

-- if (pte->present) { r = page_remove(va, 1); ASSERT(r > -1); }
abbrev pub remove_old : ℕ → Bool → Call PageDirInfo (Unit {0})
remove_old va b = when b (do _ ← must (page_remove va); pure tt)

-- `page_insert` of the page `p`, with the entry of the address.
abbrev pub insert_entry : ℕ → ℕ → ℕ → Pte → Call PageDirInfo ℕ
insert_entry p va perm pte = do
  remove_old va pte.present
  λ d. link_page p va perm d (refcount_inc d.memory p)

-- `page_insert` where the page table is there; without one it stops.
abbrev pub insert_at : ℕ → ℕ → ℕ → Option Pte → Call PageDirInfo ℕ
insert_at p va perm none = halt
insert_at p va perm (some pte) = insert_entry p va perm pte

unfoldable pub insert_page : ℕ → ℕ → ℕ → Call PageDirInfo ℕ
insert_page p va perm d = insert_at p va perm (page_get d va) d

abbrev pub tmp_page_at : Option ℕ → Call Vm ℕ
tmp_page_at none = fail enomem
tmp_page_at (some r) = do
  modify λ v. record v { tmp_pages = bitmap_set v.tmp_pages r }
  λ v. (done (v.areas.tmp_base + r * 4096), v)

-- `tmp_page_get`, with -ENOMEM of its caller for 0. The bitmap has 32 words.
unfoldable pub tmp_page_get : Call Vm ℕ
tmp_page_get v = tmp_page_at (bitmap_find_first_zero 32 0 v.tmp_pages) v

unfoldable pub tmp_page_put : ℕ → Call Vm (Unit {0})
tmp_page_put va = do
  v ← get
  let i = (va + 2 ^ 32 - v.areas.tmp_base) % 2 ^ 32 / 4096
  assert (bitmap_test v.tmp_pages i)
  modify λ u. record u { tmp_pages = bitmap_reset u.tmp_pages i }

abbrev pub page_or_enomem : Option ℕ → Call Vm ℕ
page_or_enomem none = fail enomem
page_or_enomem (some p) = pure p

-- `page_alloc` in the state of all spaces.
abbrev pub alloc_page : Call Vm ℕ
alloc_page = on_memory page_alloc >>= page_or_enomem

abbrev pub freed : Option Memory → Option (Unit {0} × Memory)
freed none = none
freed (some m) = some (tt, m)

abbrev pub free_page : ℕ → Call Vm (Unit {0})
free_page p = on_memory (λ m. freed (page_free m p))

-- From bad_tmp_page_alloc_map__page_alloc on.
abbrev pub put_back : ℕ → ℕ → Call Vm (ℕ × ℕ)
put_back va n = do tmp_page_put va; fail n

-- `tmp_page_alloc_map` with the page `p` for the address.
abbrev pub map_page : ℕ → ℕ → ℕ → Call Vm (ℕ × ℕ)
map_page perm va p =
    branch (on 0 (insert_page p va perm)) (λ rc. pure (p, va)) λ n. do free_page p; put_back va n

abbrev pub map_at : ℕ → ℕ → Call Vm (ℕ × ℕ)
map_at perm va = branch alloc_page (map_page perm va) (put_back va)

-- `tmp_page_alloc_map`, with the page and its address. The table of the temporary pages is made at
-- boot; without it `page_insert` and this function would call each other without end.
unfoldable pub tmp_page_alloc_map : ℕ → Call Vm (ℕ × ℕ)
unfolding tmp_page_get
tmp_page_alloc_map perm = tmp_page_get >>= map_at perm

unfoldable pub tmp_page_free : ℕ → Call Vm ℕ
unfolding tmp_page_put
tmp_page_free va = do
  v ← get
  assert (leb v.areas.tmp_base va && ltb va (v.spaces 0).info.layout.kernel_top)
  rc ← on 0 (page_remove va)
  tmp_page_put va
  pure rc

-- The new table of `pde_alloc`, all zero, at its address.
abbrev pub with_table : ℕ → ℕ → Space → Space
with_table pde va s = record s {
  info = record s.info {
    pgtables = λ i. if pde == i then some (λ j. no_pte) else s.info.pgtables i;
    count_kernel = inc32 s.info.count_kernel;
  };
  table_va = λ i. if pde == i then va else s.table_va i;
}

unfoldable pub pde_alloc : ℕ → ℕ → Call Vm (Unit {0})
unfolding tmp_page_alloc_map
pde_alloc k pde =
    branch (tmp_page_alloc_map 3) (λ r. modify λ v. put_space v k (with_table pde r.1 (v.spaces k)))
      λ n. fail enomem

abbrev pub without_table : ℕ → Space → Space
without_table pde s = record s {
  info = record s.info {
    pgtables = λ i. if pde == i then none else s.info.pgtables i;
    count_kernel = dec32 s.info.count_kernel;
  };
}

-- `pde_free`. The address of a table that is not there is not that of a temporary page, so that the
-- ASSERT of `tmp_page_free` fails.
unfoldable pub pde_free : ℕ → ℕ → Call Vm (Unit {0})
unfolding tmp_page_free
pde_free k pde = do
  v ← get
  assert (is_some ((v.spaces k).info.pgtables pde))
  rc ← must (tmp_page_free ((v.spaces k).table_va pde))
  assert (rc == 0)
  modify λ u. put_space u k (without_table pde (u.spaces k))

-- The part of `page_get_c` that makes the table.
unfoldable pub make_table : ℕ → ℕ → Call Vm (Unit {0})
unfolding pde_alloc
make_table k va v =
    (elim ((v.spaces k).info.pgtables (pdx va)) as (λ x. Call Vm (Unit {0})) [
      | none ↦ pde_alloc k (pdx va)
      | some e ↦ pure tt
    ])
      v

-- `page_insert` into the directory `k`. The table that `page_get_c` makes is there afterwards.
unfoldable pub page_insert : ℕ → ℕ → ℕ → ℕ → Call Vm ℕ
unfolding make_table insert_page
page_insert k p va perm = do make_table k va; on k (insert_page p va perm)

-- `page_alloc_insert`
unfoldable pub page_alloc_insert : ℕ → ℕ → ℕ → Call Vm ℕ
unfolding page_insert
page_alloc_insert k va perm = do
  p ← alloc_page
  branch (page_insert k p va perm) pure λ n. do free_page p; fail n
