-- ===== src/Memory/Pages.antt =====
-- kernel/memory/physical.h: `struct Page`, `struct FreePageList` and the functions on them. The
-- array `pages` is a function of the index, and a `Page *` is an optional index: `none` is NULL,
-- and `some 0` the pointer to the page 0, which the list never holds. `none` as a result is a
-- failed ASSERT. The code runs with interrupts off.
use makarna_x.Base.{
  ℕ, ◌+◌, ◌-◌, ◌%◌, ◌^◌, ◌*◌, Bool, true, false, not, ◌&&◌, ◌||◌, Option, none, some, ◌==◌,
  if◌then◌else◌,
}

pub record Page : Type 0 where
  pub next_or_ref : ℕ
  pub free : Bool
  pub type : ℕ

abbrev pub type_unknown : ℕ
type_unknown = 0

abbrev pub type_available : ℕ
type_available = 1

abbrev pub type_kernel : ℕ
type_kernel = 2

-- The field `nextFreeIndexOrRefCount` has 20 bits.
unfoldable pub field20 : ℕ → ℕ
field20 n = n % 2 ^ 20

-- n + 1 and n - 1 in that field, and in 32 bits.
unfoldable pub inc20 : ℕ → ℕ
inc20 n = (n + 1) % 2 ^ 20

unfoldable pub dec20 : ℕ → ℕ
dec20 n = (n + 2 ^ 20 - 1) % 2 ^ 20

unfoldable pub inc32 : ℕ → ℕ
inc32 n = (n + 1) % 2 ^ 32

unfoldable pub dec32 : ℕ → ℕ
dec32 n = (n + 2 ^ 32 - 1) % 2 ^ 32

abbrev pub Pages : Type 0
Pages = ℕ → Page

abbrev pub put : Pages → ℕ → Page → Pages
put pages i p j = if i == j then p else pages j

pub record Memory : Type 0 where
  pub pages : Pages
  pub begin : Option ℕ
  pub end : Option ℕ
  pub count : ℕ

abbrev pub set_next : Pages → ℕ → ℕ → Pages
set_next pages i n = put pages i (record (pages i) { next_or_ref = field20 n })

-- FreePageList::init
unfoldable pub list_init : Memory → Memory
list_init m = record m { begin = none; end = none; count = 0 }

-- Page::nextFree
unfoldable pub next_free : Page → Option ℕ
next_free p = if p.free then some p.next_or_ref else none

-- Page::refcount_get
unfoldable pub refcount_get : Page → ℕ
refcount_get p = if p.free then 0 else p.next_or_ref

-- The branches of FreePageList::insert, on _begin and _end.
unfoldable pub link_last : Memory → Option ℕ → Option ℕ → ℕ → Option Memory
link_last m none e i = some (record m { begin = some i; end = some i; count = inc32 m.count })
link_last m (some b) none i = none
link_last m (some b) (some e) i =
    some (record m { pages = set_next m.pages e i; end = some i; count = inc32 m.count })

-- FreePageList::insert
unfoldable pub insert : Memory → ℕ → Option Memory
unfolding link_last
insert m i =
    if i == 0 then none else link_last (record m { pages = set_next m.pages i 0 }) m.begin m.end i

-- The end of FreePageList::getFirst, for the first page `p`: `_begin` and `_end` after it.
unfoldable pub unlink_first : Memory → ℕ → Memory
unfolding next_free
unlink_first m p =
    let pages = set_next m.pages p 0 in
    let count = dec32 m.count in
    elim m.end [
      | none ↦ record m { pages = pages; begin = next_free (m.pages p); count = count }
      | some e ↦
          if e == p
          then record m { pages = pages; begin = none; end = none; count = count }
          else record m { pages = pages; begin = next_free (m.pages p); count = count }
    ]

-- FreePageList::getFirst
unfoldable pub get_first : Memory → Option ℕ × Memory
unfolding unlink_first
get_first m = elim m.begin [ none ↦ (none, m) | some p ↦ (some p, unlink_first m p) ]

-- `page_alloc`: `some none` is -ENOMEM. Its second ASSERT is an assignment, which makes the page
-- available.
unfoldable pub page_alloc : Memory → Option (Option ℕ × Memory)
unfolding get_first
page_alloc m = elim (get_first m).0 [
  | none ↦ some (none, (get_first m).1)
  | some p ↦
      let m' = (get_first m).1 in
      if (m'.pages p).free
      then some (
        some p,
        record m' {
          pages = put m'.pages p (record (m'.pages p) { free = false; type = type_available });
        },
      )
      else none
]

-- `page_free`
unfoldable pub page_free : Memory → ℕ → Option Memory
unfolding insert refcount_get
page_free m i =
    let p = m.pages i in
    if p.type == type_available && not p.free && refcount_get p == 0
    then insert (record m { pages = put m.pages i (record p { free = true }) }) i
    else none

-- Page::refcount_inc, with the new count.
unfoldable pub refcount_inc : Memory → ℕ → Option (ℕ × Memory)
refcount_inc m i =
    let p = m.pages i in
    let n = inc20 p.next_or_ref in
    if p.free
    then none
    else some (n, record m { pages = put m.pages i (record p { next_or_ref = n }) })

-- Page::refcount_dec, with the new count; the last reference frees the page.
unfoldable pub refcount_dec : Memory → ℕ → Option (ℕ × Memory)
unfolding page_free
refcount_dec m i =
    let p = m.pages i in
    let n = dec20 p.next_or_ref in
    let m' = record m { pages = put m.pages i (record p { next_or_ref = n }) } in
    if p.free || i == 0
    then none
    else (if n == 0
        then (elim (page_free m' i) [ none ↦ none | some m'' ↦ some (n, m'') ])
        else some (n, m'))

-- `mem_free`, in bytes.
unfoldable pub mem_free : Memory → ℕ
mem_free m = m.count * 2 ^ 12 % 2 ^ 32
