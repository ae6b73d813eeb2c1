-- ===== src/Spaces/Leave.antt =====
-- `page_remove` of an entry that is present, and the entries after it.
use makarna_x.Base.{
  ℕ, ◌/◌, ◌≡◌, ◌≢◌, refl, ap, ◌∙◌, Bool, true, false, some, ◌==◌, arith, if◌then◌else◌,
}
use makarna_x.DenemeFs.Store.{done, fails}
use makarna_x.Memory.Pages.{Memory, put, refcount_dec, dec20, dec32}
use makarna_x.Memory.FreeList.{dec20_pos}
use makarna_x.Memory.Virtual.{
  Pte, PageDirInfo, page_get, page_remove, put_pte, count_area, counted, drop_page, remove_entry,
  no_pte, enomem,
}
use makarna_x.Spaces.Entries.{in_user, in_kernel, page_get-put_pte}

-- The directory after the entry of `va` was cleared, by the area of the address.
abbrev pub emptied : PageDirInfo → Memory → ℕ → Bool → PageDirInfo
emptied d m va user =
    let e = put_pte (record d { memory = m }) va no_pte in
    if user
    then record e { count_user = dec32 d.count_user }
    else record e { count_kernel = dec32 d.count_kernel }

count_area-emptied :
    (d : PageDirInfo) (m : Memory) (rc va : ℕ) (a b : Bool)
    → (a ≡ false → b ≡ true)
    → counted rc d (count_area a b (put_pte (record d { memory = m }) va no_pte))
      ≡ (done rc, emptied d m va a)
count_area-emptied d m rc va true b h = refl
count_area-emptied d m rc va false true h = refl
count_area-emptied d m rc va false false h = absurd (ground (arith, h refl))

-- `page_remove` of a page whose count goes down to `rc`.
pub page_remove_run :
    (d : PageDirInfo) (va rc : ℕ) (pte : Pte) (m : Memory)
    → page_get d va ≡ some pte
    → pte.present ≡ true
    → refcount_dec d.memory pte.page ≡ some (rc, m)
    → (in_user d.layout va ≡ false → in_kernel d.layout va ≡ true)
    → page_remove va d ≡ (done rc, emptied d m va (in_user d.layout va))
unfolding page_remove
page_remove_run d va rc pte m there present less area =
    ap (remove_entry va d) there
    ∙ ap (λ b. if b then drop_page va d (refcount_dec d.memory pte.page) else (fails enomem, d))
        present
    ∙ ap (drop_page va d) less
    ∙ count_area-emptied d m rc va (in_user d.layout va) (in_kernel d.layout va) area

pub page_get-emptied :
    (d : PageDirInfo) (m : Memory) (va x : ℕ) (pte : Pte) (user : Bool)
    → page_get d va ≡ some pte
    → page_get (emptied d m va user) x
      ≡ (if va / 4096 == x / 4096 then some no_pte else page_get d x)
unfolding page_get
page_get-emptied d m va x pte true there = page_get-put_pte d va x no_pte pte there
page_get-emptied d m va x pte false there = page_get-put_pte d va x no_pte pte there

pub layout-emptied :
    (d : PageDirInfo) (m : Memory) (va : ℕ) (user : Bool) → (emptied d m va user).layout ≡ d.layout
layout-emptied d m va true = refl
layout-emptied d m va false = refl

pub memory-emptied :
    (d : PageDirInfo) (m : Memory) (va : ℕ) (user : Bool) → (emptied d m va user).memory ≡ m
memory-emptied d m va true = refl
memory-emptied d m va false = refl

-- The count of a page with two references goes to 1.
abbrev pub lowered : Memory → ℕ → ℕ → Memory
lowered m p rc = record m { pages = put m.pages p (record (m.pages p) { next_or_ref = rc }) }

pub refcount_dec_two :
    (m : Memory) (p : ℕ)
    → (m.pages p).free ≡ false
    → (m.pages p).next_or_ref ≡ 2
    → p ≢ 0
    → refcount_dec m p ≡ some (1, lowered m p 1)
unfolding refcount_dec
refcount_dec_two m p used two apart =
    let one : dec20 (m.pages p).next_or_ref ≡ 1 =
      ap dec20 two ∙ dec20_pos 2 (omega arith) (omega arith) in
    ground (arith, used, one, apart)
