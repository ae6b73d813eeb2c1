-- ===== src/Spaces/TmpRound.antt =====
-- `tmp_page_alloc_map` in all its cases, and `tmp_page_free` after it.
use makarna_x.Base.{
  ℕ, ◌+◌, ◌*◌, ◌^◌, ◌<◌, ◌≤◌, ◌≡◌, refl, sym, ap, ◌∙◌, ◌⊎◌, inl, inr, true, false, none, some, List,
  [], ◌∷◌, ◌++◌, ◌==◌, arith, Bool-cases, Option-cases, if◌then◌else◌, length, length-append, subst,
}
use makarna_x.DenemeFs.Store.{Outcome, done, fails}
use makarna_x.Memory.Pages.{page_alloc}
use makarna_x.Memory.FreeList.{IsFreeList}
use makarna_x.Memory.Queue.{refcount_dec-last}
use makarna_x.Memory.Virtual.{page_get, enomem}
use makarna_x.Flow.{continue, chain, branch_fails}
use makarna_x.Spaces.State.{
  Vm, info_of, bitmap_test, bitmap_find_first_zero, bitmap_set, on_memory_end,
}
use makarna_x.Spaces.Bitmap.{FirstZero, bitmap_find_first_zero_lem, bitmap_test-write_bit}
use makarna_x.Spaces.Tmp.{
  pte_of, tmp_page_get, tmp_page_at, map_at, map_page, put_back, tmp_page_alloc_map, page_or_enomem,
  alloc_page, tmp_page_free,
}
use makarna_x.Spaces.Entries.{in_user}
use makarna_x.Spaces.Leave.{memory-emptied}
use makarna_x.Spaces.Ready.{tmp_va, IsReady, page_alloc-Taken}
use makarna_x.Spaces.TmpAlloc.{
  in_kernel_tmp, taken_bit, allocated, alloc_run, Allocated, allocated_lem,
}
use makarna_x.Spaces.TmpFree.{
  cleared_bit, tmp_page_put_run, released, tmp_page_free_run, released-IsReady,
}

-- The state after a `tmp_page_alloc_map` that failed: the same but for how the bits are written down.
pub record Refused (v w : Vm) : Type 0 where
  pub same : w ≡ record v { tmp_pages = w.tmp_pages }
  pub bits : (j : ℕ) → bitmap_test w.tmp_pages j ≡ bitmap_test v.tmp_pages j

Refused-self : (v : Vm) → Refused v v
Refused-self v = record { same = refl; bits = λ j. refl }

-- The state after bit `r` was set and cleared.
abbrev both : Vm → ℕ → Vm
both v r = cleared_bit (taken_bit v r v.memory) r

Refused-both : (v : Vm) (r : ℕ) → bitmap_test v.tmp_pages r ≡ false → Refused v (both v r)
Refused-both v r clear = record {
  same = refl;
  bits = λ j.
      let a = bitmap_test-write_bit (bitmap_set v.tmp_pages r) r j false in
      let b = bitmap_test-write_bit v.tmp_pages r j true in
      elim (Bool-cases (r == j)) [
        | inl same ↦
            let e : r ≡ j = ground (arith, same) in
            a
            ∙ ap (λ x. if x then false else bitmap_test (bitmap_set v.tmp_pages r) j) same
            ∙ sym (subst (λ x. bitmap_test v.tmp_pages x ≡ false) e clear)
        | inr apart ↦
            a
            ∙ ap (λ x. if x then false else bitmap_test (bitmap_set v.tmp_pages r) j) apart
            ∙ b
            ∙ ap (λ x. if x then true else bitmap_test v.tmp_pages j) apart
      ];
}

refuse_run :
    (v : Vm) (r : ℕ)
    → bitmap_find_first_zero 32 0 v.tmp_pages ≡ some r
    → page_alloc v.memory ≡ some (none, v.memory)
    → v.areas.tmp_base + 4194304 ≤ 2 ^ 32
    → r < 1024
    → tmp_page_alloc_map 3 v ≡ (fails enomem, both v r)
unfolding tmp_page_alloc_map tmp_page_get
refuse_run v r found none_left room less =
    let u = record v { tmp_pages = bitmap_set v.tmp_pages r } in
    let va = tmp_va v r in
    let set = bitmap_test-write_bit v.tmp_pages r r true ∙ ground arith in
    chain tmp_page_get (map_at 3) v u va (ap (λ o. tmp_page_at o v) found)
    ∙ branch_fails alloc_page (map_page 3 va) (put_back va) u u enomem
        (ap (λ o. let w = on_memory_end u o in continue page_or_enomem w.0 w.1) none_left)
    ∙ ap (λ (q : Outcome (Unit {0}) × Vm). continue (λ x s. (fails enomem, s)) q.0 q.1)
        (tmp_page_put_run u r room less set)

no_bit_run :
    (v : Vm)
    → bitmap_find_first_zero 32 0 v.tmp_pages ≡ none
    → tmp_page_alloc_map 3 v ≡ (fails enomem, v)
unfolding tmp_page_alloc_map tmp_page_get
no_bit_run v missing = ap (λ o. let w = tmp_page_at o v in continue (map_at 3) w.0 w.1) missing

-- The two ways a `tmp_page_alloc_map` ends: with a page and its address, or with -ENOMEM.
abbrev pub TmpResult : Vm → Type 0
TmpResult v =
    ((p : ℕ) × (r : ℕ) × (w : Vm) × (tmp_page_alloc_map 3 v ≡ (done (p, tmp_va v r), w))
      × Allocated v w p r
      × (bitmap_test v.tmp_pages r ≡ false))
    ⊎ ((w : Vm) × (tmp_page_alloc_map 3 v ≡ (fails enomem, w)) × Refused v w)

-- Where the bitmap agrees with the entries of the temporary area and the free pages form a list,
-- `tmp_page_alloc_map` never stops. Either it gives a page that was free, with one reference, at a
-- temporary address that was not marked and now maps it, and the order is kept with every page in use and
-- every other directory as before; or it returns -ENOMEM and leaves all as it was.
pub tmp_page_alloc_map_lem : (v : Vm) → IsReady v → TmpResult v
tmp_page_alloc_map_lem v ready =
    let first = bitmap_find_first_zero_lem 32 0 v.tmp_pages in
    elim (Option-cases (bitmap_find_first_zero 32 0 v.tmp_pages)) [
      | inl missing ↦ inr (v, no_bit_run v missing, Refused-self v)
      | inr (r, found) ↦
          let (less, clear, low, before) = subst (FirstZero 32 0 v.tmp_pages) found first in
          let (pte, there, agrees) = ready.bits r less in
          elim (page_alloc-Taken v.memory ready.pages) [
            | inl none_left ↦ inr (
              both v r,
              refuse_run v r found none_left ready.area.room less,
              Refused-both v r clear,
            )
            | inr (p, n, run, t) ↦ inl (
              p,
              r,
              allocated v r p n,
              alloc_run v r p n pte found run t.used there (agrees ∙ clear)
                  (in_kernel_tmp v r ready.area less),
              allocated_lem v r p n pte ready less there clear t,
              clear,
            )
          ]
    ]

-- A page that `tmp_page_alloc_map` has just given goes back with `tmp_page_free`: the result is 0, the
-- page stands at the end of the list of free pages, its address is not marked any more, and the
-- order is kept.
pub tmp_page_alloc_map-tmp_page_free :
    (v w : Vm) (p r : ℕ) (xs : List ℕ)
    → Allocated v w p r
    → IsFreeList w.memory xs
    → length xs + 2 < 2 ^ 32
    → (u : Vm) × (tmp_page_free (tmp_va w r) w ≡ (done 0, u))
      × IsFreeList u.memory (xs ++ p ∷ [])
      × (bitmap_test u.tmp_pages r ≡ false)
      × IsReady u
tmp_page_alloc_map-tmp_page_free v w p r xs a list room =
    let (m, run, left) =
      refcount_dec-last w.memory xs p list (ap (λ q. q.free) a.one) (ap (λ q. q.type) a.one)
        (ap (λ q. q.next_or_ref) a.one) a.ne_zero a.small (omega (arith, room)) in
    let there =
      subst (λ x. page_get (w.spaces 0).info (x.tmp_base + r * 4096) ≡ some (pte_of p 3))
        (sym a.areas) a.entry in
    (
      released w r m,
      tmp_page_free_run w r 0 (pte_of p 3) m a.ready.area a.bit a.marked there refl run,
      subst (λ y. IsFreeList y (xs ++ p ∷ []))
          (sym (
            memory-emptied (info_of w 0) m (tmp_va w r)
              (in_user (w.spaces 0).info.layout (tmp_va w r))))
          left,
      bitmap_test-write_bit w.tmp_pages r r false ∙ ground arith,
      released-IsReady w r (pte_of p 3) m a.ready a.bit there
          (xs ++ p ∷ [], left, omega (arith, room, length-append xs (p ∷ []))),
    )
