-- ===== src/Spaces/Entries.antt =====
-- One entry of a directory: how a write of an entry shows in `page_get`, and what `insert_page` of
-- Spaces/Tmp.antt does.
use makarna_x.Base.{
  ℕ, ◌/◌, ◌%◌, ◌<◌, ◌≤◌, ◌≡◌, refl, ap, ◌∙◌, inl, inr, Bool, true, false, ◌&&◌, none, some, ◌==◌,
  ltb, leb, arith, Option-cases, Bool-cases, if◌then◌else◌,
}
use makarna_x.DenemeFs.Store.{done}
use makarna_x.Memory.Pages.{Memory, put, refcount_inc, inc20, inc32}
use makarna_x.Memory.Virtual.{
  Layout, Pte, PageDirInfo, pdx, ptx, page_get, put_pte, counted, round_down,
}
use makarna_x.Flow.{◌>>◌}
use makarna_x.Spaces.Tmp.{pte_of, raise_area, link_page, insert_at, insert_page, remove_old}

-- The table of the address is there.
abbrev pub HasTable : PageDirInfo → ℕ → Type 0
HasTable d va = (pte : Pte) × (page_get d va ≡ some pte)

same_page : (a b : ℕ) → a / 1024 ≡ b / 1024 → a % 1024 ≡ b % 1024 → a ≡ b
same_page a b q r = omega (arith, q, r)

-- The entries after a write: the new one for the addresses of its page, if the table is there.
pub page_get-put_pte :
    (d : PageDirInfo) (va x : ℕ) (v pte : Pte)
    → page_get d va ≡ some pte
    → page_get (put_pte d va v) x ≡ (if va / 4096 == x / 4096 then some v else page_get d x)
unfolding page_get
page_get-put_pte d va x v pte there = elim (Bool-cases (pdx va == pdx x)) [
  | inr apart ↦
      let differ : (va / 4096 == x / 4096) ≡ false = ground (arith, apart) in
      ground (arith, apart, differ)
  | inl same ↦ elim (Option-cases (d.pgtables (pdx x))) [
    | inl missing ↦
        let e : pdx va ≡ pdx x = ground (arith, same) in absurd (ground (arith, there, e, missing))
    | inr (t, at) ↦ elim (Bool-cases (ptx va == ptx x)) [
      | inl here ↦
          let equal : (va / 4096 == x / 4096) ≡ true =
            ground (arith, same, here, same_page (va / 4096) (x / 4096)) in
          ground (arith, same, at, here, equal)
      | inr other ↦
          let differ : (va / 4096 == x / 4096) ≡ false = ground (arith, other) in
          ground (arith, same, at, other, differ)
    ]
  ]
]

-- The address lies in the area of the user, or in that of the kernel.
abbrev pub IsUser : Layout → ℕ → Type 0
IsUser l va = (l.user_base ≤ round_down va) × (round_down va < l.user_top)

abbrev pub in_user : Layout → ℕ → Bool
in_user l va = leb l.user_base (round_down va) && ltb (round_down va) l.user_top

abbrev pub in_kernel : Layout → ℕ → Bool
in_kernel l va = leb l.kernel_base (round_down va) && ltb (round_down va) l.kernel_top

-- The directory after an entry of the page `p` was put in at `va`, by the area of the address.
abbrev pub entered : PageDirInfo → Memory → ℕ → Pte → Bool → PageDirInfo
entered d m va v user =
    let e = put_pte (record d { memory = m }) va v in
    if user
    then record e { count_user = inc32 d.count_user }
    else record e { count_kernel = inc32 d.count_kernel }

pub raise_area-entered :
    (d : PageDirInfo) (m : Memory) (rc va : ℕ) (v : Pte) (a b : Bool)
    → (a ≡ false → b ≡ true)
    → counted rc d (raise_area a b (put_pte (record d { memory = m }) va v))
      ≡ (done rc, entered d m va v a)
raise_area-entered d m rc va v true b h = refl
raise_area-entered d m rc va v false true h = refl
raise_area-entered d m rc va v false false h = absurd (ground (arith, h refl))

-- The memory with one reference of the page more.
abbrev pub referred : Memory → ℕ → Memory
referred m p = record m {
  pages = put m.pages p (record (m.pages p) { next_or_ref = inc20 (m.pages p).next_or_ref });
}

pub refcount_inc_used :
    (m : Memory) (p : ℕ)
    → (m.pages p).free ≡ false
    → refcount_inc m p ≡ some (inc20 (m.pages p).next_or_ref, referred m p)
unfolding refcount_inc
refcount_inc_used m p used =
    ap (λ b. if b then none else some (inc20 (m.pages p).next_or_ref, referred m p)) used

-- `insert_page` of a page in use, at an address that has no page yet.
pub insert_page_fresh :
    (d : PageDirInfo) (p va perm : ℕ) (pte : Pte)
    → page_get d va ≡ some pte
    → pte.present ≡ false
    → (d.memory.pages p).free ≡ false
    → (in_user d.layout va ≡ false → in_kernel d.layout va ≡ true)
    → insert_page p va perm d ≡ (
      done (inc20 (d.memory.pages p).next_or_ref),
      entered d (referred d.memory p) va (pte_of p perm) (in_user d.layout va),
    )
unfolding insert_page
insert_page_fresh d p va perm pte there absent used area =
    ap (λ o. insert_at p va perm o d) there
    ∙ ap (λ b. (remove_old va b >> λ e. link_page p va perm e (refcount_inc e.memory p)) d) absent
    ∙ ap (link_page p va perm d) (refcount_inc_used d.memory p used)
    ∙ raise_area-entered d (referred d.memory p) (inc20 (d.memory.pages p).next_or_ref) va
        (pte_of p perm) (in_user d.layout va) (in_kernel d.layout va) area

-- `page_get` after it.
pub page_get-entered :
    (d : PageDirInfo) (m : Memory) (va x : ℕ) (v pte : Pte) (user : Bool)
    → page_get d va ≡ some pte
    → page_get (entered d m va v user) x ≡ (if va / 4096 == x / 4096 then some v else page_get d x)
unfolding page_get
page_get-entered d m va x v pte true there = page_get-put_pte d va x v pte there
page_get-entered d m va x v pte false there = page_get-put_pte d va x v pte there

pub layout-entered :
    (d : PageDirInfo) (m : Memory) (va : ℕ) (v : Pte) (user : Bool)
    → (entered d m va v user).layout ≡ d.layout
layout-entered d m va v true = refl
layout-entered d m va v false = refl

pub memory-entered :
    (d : PageDirInfo) (m : Memory) (va : ℕ) (v : Pte) (user : Bool)
    → (entered d m va v user).memory ≡ m
memory-entered d m va v true = refl
memory-entered d m va v false = refl
