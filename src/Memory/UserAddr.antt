-- ===== src/Memory/UserAddr.antt =====
-- `page_remove` and `segment_free` of kernel/memory/virtual.cpp.
use makarna_x.Base.{
  ℕ, zero, suc, ◌+◌, ◌-◌, ◌/◌, ◌%◌, ◌^◌, ◌≡◌, ◌≢◌, refl, ◌∙◌, inl, inr, Bool, true, false, ◌&&◌,
  Option, none, some, ◌==◌, ltb, leb, arith, Option-cases, Bool-cases,
}
use makarna_x.DenemeFs.Store.{Outcome-cases}
use makarna_x.Memory.Pages.{Memory, refcount_dec}
use makarna_x.Memory.Virtual.{
  Pte, PageDirInfo, pdx, ptx, round_up, page_get, page_remove, put_pte, count_area, counted,
  drop_page, remove_entry, no_pte, round_down, free_loop, segment_free,
}

-- Every page but that of `va` is as before.
abbrev pub KeepsOthers : ℕ → PageDirInfo → PageDirInfo → Type 0
KeepsOthers va d d' = (v : ℕ) → v / 4096 ≢ va / 4096 → page_get d' v ≡ page_get d v

same_number : (a b : ℕ) → a / 1024 ≡ b / 1024 → a % 1024 ≡ b % 1024 → a ≡ b
same_number a b q r = omega (arith, q, r)

put_pte-KeepsOthers : (va : ℕ) (v : Pte) (d : PageDirInfo) → KeepsOthers va d (put_pte d va v)
unfolding page_get
put_pte-KeepsOthers va v d x apart = elim (Bool-cases (pdx va == pdx x)) [
  | inr other ↦ ground (arith, other)
  | inl same ↦ elim (Option-cases (d.pgtables (pdx x))) [
    | inl none_there ↦ ground (arith, same, none_there)
    | inr (e, at) ↦
        let differ : (ptx va == ptx x) ≡ false =
          ground (arith, apart, same, same_number (x / 4096) (va / 4096)) in
        ground (arith, same, at, differ)
  ]
]

KeepsOthers-refl : (va : ℕ) (d : PageDirInfo) → KeepsOthers va d d
KeepsOthers-refl va d x apart = refl

KeepsOthers-counted :
    (va rc : ℕ) (a b : Bool) (d e : PageDirInfo)
    → KeepsOthers va d e
    → KeepsOthers va d (counted rc d (count_area a b e)).1
unfolding page_get
KeepsOthers-counted va rc true b d e h = h
KeepsOthers-counted va rc false true d e h = h
KeepsOthers-counted va rc false false d e h = KeepsOthers-refl va d

KeepsOthers-drop :
    (va : ℕ) (d : PageDirInfo) (o : Option (ℕ × Memory)) → KeepsOthers va d (drop_page va d o).1
unfolding page_get
KeepsOthers-drop va d none = KeepsOthers-refl va d
KeepsOthers-drop va d (some (rc, m)) =
    KeepsOthers-counted va rc
      (leb d.layout.user_base (round_down va) && ltb (round_down va) d.layout.user_top)
      (leb d.layout.kernel_base (round_down va) && ltb (round_down va) d.layout.kernel_top) d
      (put_pte (record d { memory = m }) va no_pte)
      (put_pte-KeepsOthers va no_pte (record d { memory = m }))

KeepsOthers-entry :
    (va : ℕ) (d : PageDirInfo) (o : Option Pte) → KeepsOthers va d (remove_entry va d o).1
KeepsOthers-entry va d none = KeepsOthers-refl va d
KeepsOthers-entry va d (some pte) = elim (Bool-cases pte.present) [
  | inl there ↦ rw there (KeepsOthers-drop va d (refcount_dec d.memory pte.page))
  | inr absent ↦ rw absent (KeepsOthers-refl va d)
]

KeepsOthers-free_loop : (k va : ℕ) (d : PageDirInfo) → KeepsOthers va d (free_loop k va d).1
unfolding free_loop page_remove
KeepsOthers-free_loop zero va d = KeepsOthers-refl va d
KeepsOthers-free_loop (suc k) va d =
    let r = page_remove va d in
    let here = KeepsOthers-entry va d (page_get d va) in
    elim (Outcome-cases r.0) [
      | inl (rc, e) ↦ rw e (λ x apart. KeepsOthers-free_loop k va r.1 x apart ∙ here x apart)
      | inr (inl (n, e)) ↦ rw e (λ x apart. KeepsOthers-free_loop k va r.1 x apart ∙ here x apart)
      | inr (inr e) ↦ rw e here
    ]

-- `segment_free` changes no entry but that of the first page of its range: the entry of every
-- address in another page, inside the range or not, is as before.
pub segment_free-KeepsOthers :
    (va len v : ℕ) (d : PageDirInfo)
    → v / 4096 ≢ va / 4096
    → page_get (segment_free va len d).1 v ≡ page_get d v
unfolding segment_free
segment_free-KeepsOthers va len v d apart =
    KeepsOthers-free_loop ((round_up ((va + len) % 2 ^ 32) - round_down va) / 4096) (round_down va)
      d v (λ e. absurd (omega (arith, e, apart)))
