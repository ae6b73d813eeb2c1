-- ===== src/Memory/Virtual.antt =====
-- kernel/memory/virtual.h and virtual.cpp: the page tables of one `PageDirInfo`, `page_get`, `page_remove`,
-- `segment_free` and `verify_user_addr`. The macros MMAP_* are a record, since the configuration of
-- the build chooses them. The pages behind the entries are those of Memory/Pages.antt.
use makarna_x.Base.{
  ℕ, zero, suc, ◌+◌, ◌-◌, ◌*◌, ◌/◌, ◌%◌, ◌^◌, Bool, true, false, not, ◌&&◌, ◌||◌, Option, none,
  some, ◌==◌, ltb, leb, if◌then◌else◌,
}
use makarna_x.DenemeFs.Store.{Outcome, done, fails, stop}
use makarna_x.Memory.Pages.{Memory, refcount_dec, dec32}

pub record Layout : Type 0 where
  pub user_base : ℕ
  pub user_top : ℕ
  pub kernel_base : ℕ
  pub kernel_top : ℕ
  pub seg_user_base : ℕ

-- `struct PTE_t`, with the number of the physical page.
pub record Pte : Type 0 where
  pub present : Bool
  pub perm : ℕ
  pub page : ℕ

-- PTE_t(0, 0)
abbrev pub no_pte : Pte
no_pte = record { present = false; perm = 0; page = 0 }

pub record PageDirInfo : Type 0 where
  pub layout : Layout
  pub pgtables : ℕ → Option (ℕ → Pte)
  pub count_user : ℕ
  pub count_kernel : ℕ
  pub memory : Memory

abbrev pub pdx : ℕ → ℕ
pdx va = va / 4096 / 1024

abbrev pub ptx : ℕ → ℕ
ptx va = va / 4096 % 1024

abbrev pub round_down : ℕ → ℕ
round_down x = x / 4096 * 4096

abbrev pub round_up : ℕ → ℕ
round_up x = (x + 4095) % 2 ^ 32 / 4096 * 4096

-- The entry, where the page table is there.
unfoldable pub page_get : PageDirInfo → ℕ → Option Pte
page_get d va = elim (d.pgtables (pdx va)) [ none ↦ none | some e ↦ some (e (ptx va)) ]

abbrev pub set_entry : Option (ℕ → Pte) → ℕ → Pte → Option (ℕ → Pte)
set_entry none i v = none
set_entry (some e) i v = some (λ j. if i == j then v else e j)

-- *pte = v
abbrev pub put_pte : PageDirInfo → ℕ → Pte → PageDirInfo
put_pte d va v = record d {
  pgtables = λ i. if pdx va == i then set_entry (d.pgtables i) (ptx va) v else d.pgtables i;
}

-- The count of the area of an address: the user's, the kernel's, or none.
abbrev pub count_area : Bool → Bool → PageDirInfo → Option PageDirInfo
count_area true k d = some (record d { count_user = dec32 d.count_user })
count_area false true d = some (record d { count_kernel = dec32 d.count_kernel })
count_area false false d = none

abbrev pub count_down : PageDirInfo → ℕ → Option PageDirInfo
count_down d v =
    count_area (leb d.layout.user_base v && ltb v d.layout.user_top)
      (leb d.layout.kernel_base v && ltb v d.layout.kernel_top) d

abbrev pub counted : ℕ → PageDirInfo → Option PageDirInfo → Outcome ℕ × PageDirInfo
counted rc d none = (stop, d)
counted rc d (some d') = (done rc, d')

-- The part of `page_remove` with an entry that is present.
abbrev pub drop_page : ℕ → PageDirInfo → Option (ℕ × Memory) → Outcome ℕ × PageDirInfo
drop_page va d none = (stop, d)
drop_page va d (some (rc, m)) =
    counted rc d (count_down (put_pte (record d { memory = m }) va no_pte) (round_down va))

-- -ENOMEM
abbrev pub enomem : ℕ
enomem = 12

abbrev pub remove_entry : ℕ → PageDirInfo → Option Pte → Outcome ℕ × PageDirInfo
remove_entry va d none = (fails enomem, d)
remove_entry va d (some pte) =
    if pte.present then drop_page va d (refcount_dec d.memory pte.page) else (fails enomem, d)

-- `page_remove`, with the new count of the page.
unfoldable pub page_remove : ℕ → PageDirInfo → Outcome ℕ × PageDirInfo
page_remove va d = remove_entry va d (page_get d va)

abbrev pub go_on :
    (PageDirInfo → Outcome (Unit {0}) × PageDirInfo)
    → Outcome ℕ
    → PageDirInfo
    → Outcome (Unit {0}) × PageDirInfo
go_on k (done rc) d = k d
go_on k (fails n) d = k d
go_on k stop d = (stop, d)

-- The loop of `segment_free`, with the rounds left: every round removes the page of `va`.
unfoldable pub free_loop : ℕ → ℕ → PageDirInfo → Outcome (Unit {0}) × PageDirInfo
free_loop zero va d = (done tt, d)
free_loop (suc k) va d = go_on (free_loop k va) (page_remove va d).0 (page_remove va d).1

unfoldable pub segment_free : ℕ → ℕ → PageDirInfo → Outcome (Unit {0}) × PageDirInfo
segment_free va len d =
    free_loop ((round_up ((va + len) % 2 ^ 32) - round_down va) / 4096) (round_down va) d

-- a & b, of numbers with that many bits, is not 0.
abbrev pub meets : ℕ → ℕ → ℕ → Bool
meets zero a b = false
meets (suc k) a b = (a % 2 == 1 && b % 2 == 1) || meets k (a / 2) (b / 2)

-- perm & !(pte->perm() & perm): the `!` gives 1 or 0.
unfoldable pub lacks : ℕ → ℕ → Bool
lacks perm has = perm % 2 == 1 && not (meets 12 has perm)

abbrev pub refuses : ℕ → Option Pte → Bool
refuses perm none = true
refuses perm (some pte) = not pte.present || lacks perm pte.perm

-- The loop of `verify_user_addr` from `i` on, with the rounds left: whether no page is refused.
unfoldable pub verify_loop : ℕ → ℕ → ℕ → ℕ → PageDirInfo → Bool
verify_loop zero i end perm d = true
verify_loop (suc k) i end perm d =
    let rest = verify_loop k (i + 4096) end perm d in
    if ltb i end then (if refuses perm (page_get d i) then false else rest) else true

abbrev pub verify_range : Layout → ℕ → ℕ → Bool
verify_range l va end =
    ltb va l.user_top && leb end l.user_top && leb l.user_base va && leb l.user_base end

-- `verify_user_addr` returns 0. A page lies between `va` and the end for every 4096 bytes.
unfoldable pub verify_user_addr : ℕ → ℕ → ℕ → PageDirInfo → Bool
verify_user_addr addr len perm d =
    let va = (addr + d.layout.seg_user_base) % 2 ^ 32 in
    let end = (va + len) % 2 ^ 32 in
    verify_range d.layout va end
    && verify_loop (suc ((round_up end - va) / 4096)) va (round_up end) perm d
